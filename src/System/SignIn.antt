-- ===== src/System/SignIn.antt =====
-- Signing in and out, and the refresh of tokens.
use nestjs_auth_backend.Base.{ℕ, zero, suc, String, Option, none, some}
use nestjs_auth_backend.Entities.{
  User, UserStatus, active, inactive, suspended, pending, TwoFactorType, totp, sms, email, fido2,
}
use nestjs_auth_backend.World.{Db, Env}
use nestjs_auth_backend.World.Invariants.{Keeps, keeps_rules}
use nestjs_auth_backend.System.Stable.{Stable}
use nestjs_auth_backend.Users.Lookup.{LoadedUser}
use nestjs_auth_backend.Auth.SignIn.{
  Request, check_status, refuse_login, open_user_session, generated_token_and_refresh_token,
  send_code, second_factor, validate_2fa_user, login,
}
use nestjs_auth_backend.Auth.Logout.{
  logout, logout_device, look_up_unless, sign_out_everywhere, logout_all,
}
use nestjs_auth_backend.Auth.Refresh.{refresh_token}
use nestjs_auth_backend.System.Services.{
  record_failure-Keeps, reset-Keeps, create_refresh_token-Keeps, revoke_refresh_token-Keeps,
  revoke_token_with_user_id-Keeps, revoke_token_with_session_id-Keeps, update_active-Keeps,
  create_auth_session-Keeps, update_inactive_user_id-Keeps, find_by_session_id-Keeps,
  find_by_device_id-Keeps, find_one_by_user-Keeps, create_otp-Keeps, create_audit-Keeps,
}
use nestjs_auth_backend.System.Tables.{
  find_one-Keeps, find_one_by_email-Keeps, create_user_session-Keeps,
}

module _ (P : Db → Type 0) (s : Stable P) where
  pub refuse_login-Keeps : (req : Request) (address : String) → Keeps P (refuse_login req address)
  unfolding refuse_login
  refuse_login-Keeps req address =
      search (keeps_rules, record_failure-Keeps P s, create_audit-Keeps P s) depth 30

  check_status-Keeps : (status : UserStatus) → Keeps P (check_status status)
  check_status-Keeps active = search keeps_rules depth 30
  check_status-Keeps inactive = search keeps_rules depth 30
  check_status-Keeps suspended = search keeps_rules depth 30
  check_status-Keeps pending = search keeps_rules depth 30

  pub open_user_session-Keeps :
      (env : Env) (req : Request) (user : LoadedUser) (device_id : String)
      → Keeps P (open_user_session env req user device_id)
  unfolding open_user_session
  open_user_session-Keeps env req user device_id =
      search
        (
          keeps_rules,
          create_user_session-Keeps P s,
          create_auth_session-Keeps P s,
          create_refresh_token-Keeps P s,
        )
        depth 30

  pub generated-Keeps :
      (env : Env) (req : Request) (user : LoadedUser) (device_id : String)
      → Keeps P (generated_token_and_refresh_token env req user device_id)
  unfolding generated_token_and_refresh_token
  generated-Keeps env req user device_id =
      search (keeps_rules, open_user_session-Keeps, reset-Keeps P s, create_audit-Keeps P s) depth
        30

  send_code-Keeps :
      (env : Env) (user : User) (type : Option TwoFactorType) → Keeps P (send_code env user type)
  send_code-Keeps env user none = search keeps_rules depth 30
  send_code-Keeps env user (some totp) = search keeps_rules depth 30
  send_code-Keeps env user (some sms) = search keeps_rules depth 30
  send_code-Keeps env user (some email) = search (keeps_rules, create_otp-Keeps P s) depth 30
  send_code-Keeps env user (some fido2) = search keeps_rules depth 30

  pub second_factor-Keeps :
      (env : Env) (req : Request) (user : LoadedUser) (device_id : String)
      → Keeps P (second_factor env req user device_id)
  unfolding second_factor
  second_factor-Keeps env req user device_id =
      search (keeps_rules, send_code-Keeps, generated-Keeps, find_one_by_user-Keeps P s) depth 30

  pub validate_2fa_user-Keeps :
      (env : Env) (req : Request) (user : LoadedUser) (device_id : String)
      → Keeps P (validate_2fa_user env req user device_id)
  unfolding validate_2fa_user
  validate_2fa_user-Keeps env req user device_id =
      search (keeps_rules, check_status-Keeps, second_factor-Keeps) depth 30

  pub login-Keeps :
      (env : Env) (req : Request) (address password device_id : String)
      → Keeps P (login env req address password device_id)
  unfolding login
  login-Keeps env req address password device_id =
      search (keeps_rules, validate_2fa_user-Keeps, refuse_login-Keeps, find_one_by_email-Keeps P s)
        depth 30

  pub logout-Keeps : (session_id : ℕ) → Keeps P (logout session_id)
  unfolding logout
  logout-Keeps session_id =
      search (keeps_rules, revoke_token_with_session_id-Keeps P s, update_active-Keeps P s) depth 30

  pub logout_device-Keeps : (device_id : String) → Keeps P (logout_device device_id)
  unfolding logout_device
  logout_device-Keeps device_id =
      search (keeps_rules, logout-Keeps, find_by_device_id-Keeps P s) depth 30

  look_up_unless-Keeps : (id : Option ℕ) → Keeps P (look_up_unless id)
  look_up_unless-Keeps none = search (keeps_rules, find_by_session_id-Keeps P s) depth 30
  look_up_unless-Keeps (some zero) = search (keeps_rules, find_by_session_id-Keeps P s) depth 30
  look_up_unless-Keeps (some (suc n)) = search keeps_rules depth 30

  pub sign_out_everywhere-Keeps : (user_id : ℕ) → Keeps P (sign_out_everywhere user_id)
  unfolding sign_out_everywhere
  sign_out_everywhere-Keeps user_id =
      search (keeps_rules, revoke_token_with_user_id-Keeps P s, update_inactive_user_id-Keeps P s)
        depth 30

  pub logout_all-Keeps :
      (user_id : ℕ) (session_id : Option ℕ) → Keeps P (logout_all user_id session_id)
  unfolding logout_all
  logout_all-Keeps user_id session_id =
      search (keeps_rules, look_up_unless-Keeps, sign_out_everywhere-Keeps) depth 30

  pub refresh_token-Keeps :
      (env : Env) (req : Request) (token : String) → Keeps P (refresh_token env req token)
  unfolding refresh_token
  refresh_token-Keeps env req token =
      search
        (
          keeps_rules,
          revoke_refresh_token-Keeps P s,
          find_one-Keeps P s,
          create_refresh_token-Keeps P s,
          create_audit-Keeps P s,
        )
        depth 30
