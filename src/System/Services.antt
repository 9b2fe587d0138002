-- ===== src/System/Services.antt =====
-- The services of src/modules/auth, the second factor and the audit log.
use nestjs_auth_backend.Base.{ℕ, String, Option, none, some, Bool, List, [], ◌∷◌}
use nestjs_auth_backend.Entities.{
  AuthAttempts, AuthSession, AuthRefreshToken, UserSecurity, TwoFactorOtpsType,
  UserSecurityTwoFactorOtps, AuthReAuthToken, AuditLog,
}
use nestjs_auth_backend.World.{Db, Conn, Env}
use nestjs_auth_backend.World.Invariants.{Keeps, keeps_rules}
use nestjs_auth_backend.System.Stable.{Stable}
use nestjs_auth_backend.Attempts.{find_email, save_failure, record_failure, reset}
use nestjs_auth_backend.RefreshTokens.{
  create_refresh_token, revoke_refresh_token, revoke_token_with_session_id,
  revoke_token_with_user_id, save_revoked,
}
use nestjs_auth_backend.Sessions.{
  update_active, resume_session, open_session, create_auth_session, save_inactive,
  update_inactive_user_id, find_by_session_id, find_by_device_id,
}
use nestjs_auth_backend.Security.{
  insert_security, create_security, or_create, find_one_by_user, save_security,
}
use nestjs_auth_backend.Otps.{create_otp, check_otp, verify_otps, enable_otps}
use nestjs_auth_backend.ReAuth.{reauthenticate, save_revoked_reauth, consume_token, validate}
use nestjs_auth_backend.AuditLog.{create_audit}
use nestjs_auth_backend.Credentials.{validate_reauth_password}

module _ (P : Db → Type 0) (s : Stable P) where
  save_failure-Keeps :
      (address ip : String) (found : Option AuthAttempts) → Keeps P (save_failure address ip found)
  save_failure-Keeps address ip none = search (keeps_rules, s.attempts) depth 30
  save_failure-Keeps address ip (some a) = search (keeps_rules, s.attempts) depth 30

  pub record_failure-Keeps : (address ip : String) → Keeps P (record_failure address ip)
  unfolding record_failure find_email
  record_failure-Keeps address ip = search (keeps_rules, save_failure-Keeps) depth 30

  pub reset-Keeps : (address : String) → Keeps P (reset address)
  unfolding reset
  reset-Keeps address = search (keeps_rules, s.attempts) depth 30

  pub create_refresh_token-Keeps :
      (env : Env) (repo : Conn) (session_id : ℕ) (token : String)
      → Keeps P (create_refresh_token env repo session_id token)
  unfolding create_refresh_token
  create_refresh_token-Keeps env repo session_id token = search (keeps_rules, s.issued) depth 30

  pub revoke_refresh_token-Keeps :
      (env : Env) (token : String) → Keeps P (revoke_refresh_token env token)
  unfolding revoke_refresh_token
  revoke_refresh_token-Keeps env token = search (keeps_rules, s.revoked) depth 30

  save_revoked-Keeps :
      (repo : Conn) (rows : List AuthRefreshToken) → Keeps P (save_revoked repo rows)
  save_revoked-Keeps repo [] = search keeps_rules
  save_revoked-Keeps repo (t ∷ ts) = search (keeps_rules, s.revoked) depth 30

  pub revoke_token_with_user_id-Keeps :
      (repo : Conn) (user_id : ℕ) → Keeps P (revoke_token_with_user_id repo user_id)
  unfolding revoke_token_with_user_id
  revoke_token_with_user_id-Keeps repo user_id = search (keeps_rules, save_revoked-Keeps) depth 30

  pub revoke_token_with_session_id-Keeps :
      (repo : Conn) (session_id : ℕ) → Keeps P (revoke_token_with_session_id repo session_id)
  unfolding revoke_token_with_session_id
  revoke_token_with_session_id-Keeps repo session_id = search (keeps_rules, s.revoked) depth 30

  pub update_active-Keeps : (repo : Conn) (id : ℕ) (b : Bool) → Keeps P (update_active repo id b)
  unfolding update_active
  update_active-Keeps repo id b = search (keeps_rules, s.sessions) depth 30

  resume_session-Keeps : (found : Option AuthSession) → Keeps P (resume_session found)
  resume_session-Keeps none = search keeps_rules depth 30
  resume_session-Keeps (some x) = search (keeps_rules, update_active-Keeps) depth 30

  open_session-Keeps :
      (repo : Conn) (user_id : ℕ) (ip agent device_id : String) (found : Option AuthSession)
      → Keeps P (open_session repo user_id ip agent device_id found)
  open_session-Keeps repo user_id ip agent device_id none =
      search (keeps_rules, s.sessions) depth 30
  open_session-Keeps repo user_id ip agent device_id (some x) = search keeps_rules depth 30

  pub create_auth_session-Keeps :
      (repo : Conn) (user_id : ℕ) (ip agent device_id : String)
      → Keeps P (create_auth_session repo user_id ip agent device_id)
  unfolding create_auth_session
  create_auth_session-Keeps repo user_id ip agent device_id =
      search (keeps_rules, resume_session-Keeps, open_session-Keeps) depth 30

  save_inactive-Keeps : (repo : Conn) (rows : List AuthSession) → Keeps P (save_inactive repo rows)
  save_inactive-Keeps repo [] = search keeps_rules depth 30
  save_inactive-Keeps repo (x ∷ xs) = search (keeps_rules, s.sessions) depth 30

  pub update_inactive_user_id-Keeps :
      (repo : Conn) (user_id : ℕ) → Keeps P (update_inactive_user_id repo user_id)
  unfolding update_inactive_user_id
  update_inactive_user_id-Keeps repo user_id = search (keeps_rules, save_inactive-Keeps) depth 30

  pub find_by_session_id-Keeps : (id : Option ℕ) → Keeps P (find_by_session_id id)
  unfolding find_by_session_id
  find_by_session_id-Keeps none = search keeps_rules depth 30
  find_by_session_id-Keeps (some n) = search keeps_rules depth 30

  pub find_by_device_id-Keeps : (device_id : String) → Keeps P (find_by_device_id device_id)
  unfolding find_by_device_id
  find_by_device_id-Keeps device_id = search keeps_rules depth 30

  insert_security-Keeps :
      (repo : Conn) (user_id : ℕ) (found : Option UserSecurity)
      → Keeps P (insert_security repo user_id found)
  insert_security-Keeps repo user_id none = search (keeps_rules, s.securities) depth 30
  insert_security-Keeps repo user_id (some x) = search keeps_rules depth 30

  pub create_security-Keeps : (repo : Conn) (user_id : ℕ) → Keeps P (create_security repo user_id)
  unfolding create_security
  create_security-Keeps repo user_id = search (keeps_rules, insert_security-Keeps) depth 30

  or_create-Keeps : (user_id : ℕ) (found : Option UserSecurity) → Keeps P (or_create user_id found)
  or_create-Keeps user_id none = search (keeps_rules, create_security-Keeps) depth 30
  or_create-Keeps user_id (some x) = search keeps_rules depth 30

  pub find_one_by_user-Keeps : (user_id : ℕ) → Keeps P (find_one_by_user user_id)
  unfolding find_one_by_user
  find_one_by_user-Keeps user_id = search (keeps_rules, or_create-Keeps) depth 30

  pub save_security-Keeps : (row : UserSecurity) → Keeps P (save_security row)
  unfolding save_security
  save_security-Keeps row = search (keeps_rules, s.securities) depth 30

  pub create_otp-Keeps :
      (env : Env) (user_id : ℕ) (type : TwoFactorOtpsType) → Keeps P (create_otp env user_id type)
  unfolding create_otp
  create_otp-Keeps env user_id type = search (keeps_rules, s.otps) depth 30

  check_otp-Keeps :
      (env : Env) (given : String) (found : Option UserSecurityTwoFactorOtps)
      → Keeps P (check_otp env given found)
  check_otp-Keeps env given none = search keeps_rules depth 30
  check_otp-Keeps env given (some x) = search (keeps_rules, s.otps) depth 30

  pub verify_otps-Keeps :
      (env : Env) (user_id : ℕ) (type : TwoFactorOtpsType) (given : String)
      → Keeps P (verify_otps env user_id type given)
  unfolding verify_otps
  verify_otps-Keeps env user_id type given = search (keeps_rules, check_otp-Keeps) depth 30

  pub enable_otps-Keeps :
      (env : Env) (user_id : ℕ) (row : UserSecurity) → Keeps P (enable_otps env user_id row)
  unfolding enable_otps
  enable_otps-Keeps env user_id row =
      search (keeps_rules, create_otp-Keeps, save_security-Keeps) depth 30

  pub validate_reauth_password-Keeps :
      (env : Env) (user_id : ℕ) (password : String)
      → Keeps P (validate_reauth_password env user_id password)
  unfolding validate_reauth_password
  validate_reauth_password-Keeps env user_id password = search keeps_rules depth 30

  pub reauthenticate-Keeps :
      (env : Env) (user_id : ℕ) (password : String) → Keeps P (reauthenticate env user_id password)
  unfolding reauthenticate
  reauthenticate-Keeps env user_id password =
      search (keeps_rules, validate_reauth_password-Keeps, s.reauth_tokens) depth 30

  save_revoked_reauth-Keeps :
      (repo : Conn) (rows : List AuthReAuthToken) → Keeps P (save_revoked_reauth repo rows)
  save_revoked_reauth-Keeps repo [] = search keeps_rules depth 30
  save_revoked_reauth-Keeps repo (x ∷ xs) = search (keeps_rules, s.reauth_tokens) depth 30

  pub consume_token-Keeps :
      (env : Env) (repo : Conn) (user_id : Option ℕ) (token : String)
      → Keeps P (consume_token env repo user_id token)
  unfolding consume_token
  consume_token-Keeps env repo user_id token =
      search (keeps_rules, save_revoked_reauth-Keeps) depth 30

  pub validate-Keeps :
      (env : Env) (user_id : Option ℕ) (token : String) → Keeps P (validate env user_id token)
  unfolding validate
  validate-Keeps env user_id token = search (keeps_rules, consume_token-Keeps) depth 30

  pub create_audit-Keeps : (row : AuditLog) → Keeps P (create_audit row)
  unfolding create_audit
  create_audit-Keeps row = search (keeps_rules, s.audited) depth 30
