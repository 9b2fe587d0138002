-- ===== src/System/Flows.antt =====
-- The other flows of `AuthService`.
use nestjs_auth_backend.Base.{ℕ, String, Option, none, some, Bool, true, false}
use nestjs_auth_backend.Entities.{User, TwoFactorType, totp, sms, email, fido2, OAuthProvider}
use nestjs_auth_backend.World.{Db, Env, StatePayload, OAuthFlow, login_flow, link_flow, other_flow}
use nestjs_auth_backend.World.Invariants.{Keeps, keeps_rules}
use nestjs_auth_backend.System.Stable.{Stable}
use nestjs_auth_backend.Users.Accounts.{UserDto}
use nestjs_auth_backend.OAuth.{OAuthProfile}
use nestjs_auth_backend.Auth.SignIn.{Request}
use nestjs_auth_backend.Auth.Passwords
use nestjs_auth_backend.Auth.Passwords.{
  register_steps, register, reset_password, replace_steps, replace_password, reset_password_token,
  change_password, reset_password_logged,
}
use nestjs_auth_backend.Auth.TwoFactor.{
  Subject, load_subject, or_recovery_code, refuse_code, enable_totp, begin_enabling, enable_2fa,
  check_code, confirm_2fa, verify_2fa, disable_2fa,
}
use nestjs_auth_backend.Auth.External.{
  find_or_create_user, login_with_oauth, link_oauth, dispatch_flow, handle_oauth_callback,
  unlink_provider,
}
use nestjs_auth_backend.System.Services.{
  record_failure-Keeps, create_security-Keeps, find_one_by_user-Keeps, save_security-Keeps,
  verify_otps-Keeps, enable_otps-Keeps, create_audit-Keeps,
}
use nestjs_auth_backend.System.Tables.{
  find_one-Keeps, find_one_or_first-Keeps, create_credentials-Keeps, update_credentials-Keeps,
  update_token_is_used-Keeps, find_one_by_token-Keeps, create_token_email_verification-Keeps,
  create_token_password_reset-Keeps, use_code-Keeps, generate-Keeps, create_oauth-Keeps,
  get_user_with_provider-Keeps, delete_oauth-Keeps,
}
use nestjs_auth_backend.System.Accounts.{
  create_user-Keeps, update_password-Keeps, verify_email-Keeps, validate_oauth_user-Keeps,
}
use nestjs_auth_backend.System.SignIn.{open_user_session-Keeps, generated-Keeps, logout_all-Keeps}

module _ (P : Db → Type 0) (s : Stable P) where
  register_steps-Keeps :
      (env : Env) (dto : UserDto) (password : String) → Keeps P (register_steps env dto password)
  unfolding register_steps
  register_steps-Keeps env dto password =
      search
        (
          keeps_rules,
          create_user-Keeps P s,
          create_credentials-Keeps P s,
          create_token_email_verification-Keeps P s,
          create_security-Keeps P s,
        )
        depth 30

  pub register-Keeps :
      (env : Env) (dto : UserDto) (password : String) → Keeps P (register env dto password)
  unfolding register
  register-Keeps env dto password = search (keeps_rules, register_steps-Keeps) depth 30

  pub reset_password-Keeps : (env : Env) (address : String) → Keeps P (reset_password env address)
  unfolding reset_password
  reset_password-Keeps env address =
      search (keeps_rules, create_token_password_reset-Keeps P s) depth 30

  replace_steps-Keeps :
      (env : Env) (user : User) (token password confirm : String)
      → Keeps P (replace_steps env user token password confirm)
  unfolding replace_steps
  replace_steps-Keeps env user token password confirm =
      search
        (
          keeps_rules,
          update_credentials-Keeps P s,
          update_password-Keeps P s,
          update_token_is_used-Keeps P s,
        )
        depth 30

  replace_password-Keeps :
      (env : Env) (user : User) (token password confirm : String)
      → Keeps P (replace_password env user token password confirm)
  unfolding replace_password
  replace_password-Keeps env user token password confirm =
      search (keeps_rules, replace_steps-Keeps) depth 30

  pub reset_password_token-Keeps :
      (env : Env) (req : Request) (token password confirm : String)
      → Keeps P (reset_password_token env req token password confirm)
  unfolding reset_password_token
  reset_password_token-Keeps env req token password confirm =
      search
        (
          keeps_rules,
          replace_password-Keeps,
          find_one_by_token-Keeps P s,
          logout_all-Keeps P s,
          create_audit-Keeps P s,
        )
        depth 30

  change_password-Keeps :
      (env : Env) (user_id : ℕ) (address password confirm : String)
      → Keeps P (change_password env user_id address password confirm)
  unfolding change_password
  change_password-Keeps env user_id address password confirm =
      search (keeps_rules, update_credentials-Keeps P s, update_password-Keeps P s) depth 30

  pub reset_password_logged-Keeps :
      (env : Env) (req : Request) (user_id session_id : ℕ) (address password confirm : String)
      → Keeps P (reset_password_logged env req user_id session_id address password confirm)
  unfolding reset_password_logged
  reset_password_logged-Keeps env req user_id session_id address password confirm =
      search (keeps_rules, change_password-Keeps, logout_all-Keeps P s, create_audit-Keeps P s)
        depth 30

  pub auth_verify_email-Keeps : (token : String) → Keeps P (Passwords.verify_email token)
  unfolding Passwords.verify_email
  auth_verify_email-Keeps token = search (keeps_rules, verify_email-Keeps P s) depth 30

  load_subject-Keeps : (user_id : ℕ) → Keeps P (load_subject user_id)
  unfolding load_subject
  load_subject-Keeps user_id =
      search (keeps_rules, find_one-Keeps P s, find_one_by_user-Keeps P s) depth 30

  or_recovery_code-Keeps :
      (user_id : ℕ) (given : String) (b : Bool) → Keeps P (or_recovery_code user_id given b)
  or_recovery_code-Keeps user_id given true = search keeps_rules depth 30
  or_recovery_code-Keeps user_id given false = search (keeps_rules, use_code-Keeps P s) depth 30

  refuse_code-Keeps : (req : Request) (address : String) → Keeps P (refuse_code req address)
  unfolding refuse_code
  refuse_code-Keeps req address =
      search (keeps_rules, record_failure-Keeps P s, create_audit-Keeps P s) depth 30

  begin_enabling-Keeps :
      (env : Env) (x : Subject) (type : Option TwoFactorType) → Keeps P (begin_enabling env x type)
  unfolding enable_totp
  begin_enabling-Keeps env x none = search keeps_rules depth 30
  begin_enabling-Keeps env x (some totp) = search (keeps_rules, save_security-Keeps P s) depth 30
  begin_enabling-Keeps env x (some sms) = search keeps_rules depth 30
  begin_enabling-Keeps env x (some email) = search (keeps_rules, enable_otps-Keeps P s) depth 30
  begin_enabling-Keeps env x (some fido2) = search keeps_rules depth 30

  pub enable_2fa-Keeps :
      (env : Env) (user_id : ℕ) (type : String) → Keeps P (enable_2fa env user_id type)
  unfolding enable_2fa
  enable_2fa-Keeps env user_id type =
      search (keeps_rules, load_subject-Keeps, begin_enabling-Keeps) depth 30

  check_code-Keeps :
      (env : Env) (x : Subject) (type : Option TwoFactorType) (given : String)
      → Keeps P (check_code env x type given)
  check_code-Keeps env x none given = search keeps_rules depth 30
  check_code-Keeps env x (some totp) given = search keeps_rules depth 30
  check_code-Keeps env x (some sms) given = search keeps_rules depth 30
  check_code-Keeps env x (some email) given = search (keeps_rules, verify_otps-Keeps P s) depth 30
  check_code-Keeps env x (some fido2) given = search keeps_rules depth 30

  pub confirm_2fa-Keeps :
      (env : Env) (req : Request) (user_id : ℕ) (given : String)
      → Keeps P (confirm_2fa env req user_id given)
  unfolding confirm_2fa
  confirm_2fa-Keeps env req user_id given =
      search
        (
          keeps_rules,
          load_subject-Keeps,
          check_code-Keeps,
          save_security-Keeps P s,
          create_audit-Keeps P s,
          generate-Keeps P s,
        )
        depth 30

  pub verify_2fa-Keeps :
      (env : Env) (req : Request) (user_id : ℕ) (given device_id : String)
      → Keeps P (verify_2fa env req user_id given device_id)
  unfolding verify_2fa
  verify_2fa-Keeps env req user_id given device_id =
      search
        (
          keeps_rules,
          load_subject-Keeps,
          check_code-Keeps,
          or_recovery_code-Keeps,
          refuse_code-Keeps,
          generated-Keeps P s,
        )
        depth 30

  pub disable_2fa-Keeps : (req : Request) (user_id : ℕ) → Keeps P (disable_2fa req user_id)
  unfolding disable_2fa
  disable_2fa-Keeps req user_id =
      search (keeps_rules, load_subject-Keeps, save_security-Keeps P s, create_audit-Keeps P s)
        depth 30

  find_or_create_user-Keeps :
      (env : Env) (profile : OAuthProfile) → Keeps P (find_or_create_user env profile)
  unfolding find_or_create_user
  find_or_create_user-Keeps env profile =
      search (keeps_rules, validate_oauth_user-Keeps P s, create_oauth-Keeps P s) depth 30

  login_with_oauth-Keeps :
      (env : Env) (req : Request) (profile : OAuthProfile) (device_id : String)
      → Keeps P (login_with_oauth env req profile device_id)
  unfolding login_with_oauth
  login_with_oauth-Keeps env req profile device_id =
      search (keeps_rules, find_or_create_user-Keeps, open_user_session-Keeps P s) depth 30

  link_oauth-Keeps :
      (env : Env) (profile : OAuthProfile) (user_id : Option ℕ)
      → Keeps P (link_oauth env profile user_id)
  unfolding link_oauth
  link_oauth-Keeps env profile user_id =
      search
        (
          keeps_rules,
          get_user_with_provider-Keeps P s,
          find_one_or_first-Keeps P s,
          create_oauth-Keeps P s,
        )
        depth 30

  dispatch_flow-Keeps :
      (env : Env) (req : Request) (profile : OAuthProfile) (device_id : String)
      (state : StatePayload) (flow : OAuthFlow)
      → Keeps P (dispatch_flow env req profile device_id state flow)
  dispatch_flow-Keeps env req profile device_id state login_flow =
      search (keeps_rules, login_with_oauth-Keeps) depth 30
  dispatch_flow-Keeps env req profile device_id state link_flow =
      search (keeps_rules, link_oauth-Keeps) depth 30
  dispatch_flow-Keeps env req profile device_id state other_flow = search keeps_rules depth 30

  pub handle_oauth_callback-Keeps :
      (env : Env) (req : Request) (profile : OAuthProfile) (state device_id : String)
      → Keeps P (handle_oauth_callback env req profile state device_id)
  unfolding handle_oauth_callback
  handle_oauth_callback-Keeps env req profile state device_id =
      search (keeps_rules, dispatch_flow-Keeps) depth 30

  pub unlink_provider-Keeps :
      (user_id : ℕ) (provider : OAuthProvider) → Keeps P (unlink_provider user_id provider)
  unfolding unlink_provider
  unlink_provider-Keeps user_id provider = search (keeps_rules, delete_oauth-Keeps P s) depth 30
