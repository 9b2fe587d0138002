-- ===== src/Auth/SignIn.antt =====
-- `login`, `loginById`, `__Validate2FAUser` and `__generatedTokenAndRefreshToken` of
-- src/modules/auth/auth.service.ts.
pub mod Laws
pub mod Success
use Prim.Native.String.{◌++◌ as str_append}
use nestjs_auth_backend.Base.{
  ℕ, Bool, true, false, ◌&&◌, not, Option, none, some, String, List, if◌then◌else◌,
}
use nestjs_auth_backend.Permissions.{parse_permissions}
use nestjs_auth_backend.Errors.{
  pending_user, suspended_user, inactive_user, invalid_password, crash, http,
}
use nestjs_auth_backend.Entities.{
  User, Role, UserStatus, active, inactive, suspended, pending, TwoFactorType, totp, sms, email,
  fido2, otp_email, UserSecurity, AuditLog, AuditEvent, login_failed, login_success,
}
use nestjs_auth_backend.World.{
  World, Db, Action, ◌>>=◌, ◌>>◌, pure, throw, gets, or_throw, not_awaited, transaction, send_mail,
  direct, manager, Env, Payload,
}
use nestjs_auth_backend.Attempts.{record_failure, reset}
use nestjs_auth_backend.RefreshTokens.{create_refresh_token}
use nestjs_auth_backend.Sessions.{create_auth_session}
use nestjs_auth_backend.Otps.{create_otp}
use nestjs_auth_backend.Security.{find_one_by_user}
use nestjs_auth_backend.AuditLog.{create_audit}
use nestjs_auth_backend.UserSessions.{ClientInfo, create_user_session}
use nestjs_auth_backend.Users.Lookup.{LoadedUser, find_one_by_email, find_one}

-- What the handlers read of a request.
pub record Request : Type 0 where
  pub ip : String
  pub user_agent : Option String
  pub client : ClientInfo

-- The cookies and the data of a successful sign-in.
pub record SignedIn : Type 0 where
  pub access_token : String
  pub refresh_token : String
  pub email : String
  pub permissions : List String

pub data SignIn : Type 0 where
  two_factor_required : ℕ → SignIn
  signed_in : SignedIn → SignIn

-- Seconds: `'2d'` and `'30m'`.
abbrev pub refresh_seconds : ℕ
refresh_seconds = 172_800

abbrev pub access_seconds : ℕ
access_seconds = 1_800

abbrev pub audit_row : AuditEvent → Option ℕ → Request → AuditLog
audit_row event actor req = record {
  event = event;
  actor_id = actor;
  ip = req.ip;
  user_agent = req.user_agent;
  after = none;
  before = none;
}

abbrev pub payload_of : User → Role → ℕ → Payload
payload_of u role session_id = record {
  sub = u.id;
  session_id = session_id;
  email = u.email;
  role_name = role.name;
  permissions = parse_permissions role.permissions;
}

abbrev pub check_status : UserStatus → Action (Unit {0})
check_status active = pure tt
check_status pending = throw (http pending_user)
check_status suspended = throw (http suspended_user)
check_status inactive = throw (http inactive_user)

-- What `login` does after a wrong password.
unfoldable pub refuse_login : Request → String → Action SignIn
refuse_login req address = do
  record_failure address req.ip
  create_audit (audit_row login_failed none req)
  throw (http invalid_password)

module _ (env : Env) where
  -- The transaction of `__generatedTokenAndRefreshToken`: the refresh token and the payload.
  unfoldable pub open_user_session : Request → LoadedUser → String → Action (String × Payload)
  open_user_session req user device_id = transaction (do
    create_user_session manager user.row.id req.client
    session ← create_auth_session manager user.row.id req.client.ip req.client.user_agent device_id
    role ← or_throw user.role crash
    now ← gets (λ w. w.now)
    let payload = payload_of user.row role session.id
    let refresh_token = env.jwt_sign payload env.jwt_refresh_secret now refresh_seconds
    create_refresh_token env manager session.id refresh_token
    pure (refresh_token, payload))

  -- `__generatedTokenAndRefreshToken`
  unfoldable pub generated_token_and_refresh_token : Request → LoadedUser → String → Action SignIn
  generated_token_and_refresh_token req user device_id = do
    pair ← open_user_session req user device_id
    send_mail user.row.email "auth-login-alert" none
    reset user.row.email
    create_audit (record (audit_row login_success (some user.row.id) req) {
      ip = req.client.ip;
      user_agent = some req.client.user_agent;
    })
    now ← gets (λ w. w.now)
    pure (
        signed_in (record {
          access_token =
              env.jwt_sign pair.1 (str_append env.jwt_secret user.row.user_secret) now
                access_seconds;
          refresh_token = pair.0;
          email = user.row.email;
          permissions = pair.1.permissions;
        }))

  -- The mail of the one-time code, which is sent for the second factor `email` alone.
  abbrev pub send_code : User → Option TwoFactorType → Action (Unit {0})
  send_code u (some email) = do
    code ← create_otp env u.id otp_email
    not_awaited (send_mail u.email "auth-2fa-otp" (some code))
  send_code u (some totp) = pure tt
  send_code u (some sms) = pure tt
  send_code u (some fido2) = pure tt
  send_code u none = pure tt

  -- `__Validate2FAUser` behind the status tests.
  unfoldable pub second_factor : Request → LoadedUser → String → Action SignIn
  second_factor req user device_id = do
    found ← find_one_by_user user.row.id
    security ← or_throw found crash
    if security.two_factor_enabled
        then send_code user.row security.two_factor_type >> pure (two_factor_required user.row.id)
        else generated_token_and_refresh_token req user device_id

  -- `__Validate2FAUser`
  unfoldable pub validate_2fa_user : Request → LoadedUser → String → Action SignIn
  validate_2fa_user req user device_id =
      check_status user.row.status >> second_factor req user device_id

  -- `login`
  unfoldable pub login : Request → String → String → String → Action SignIn
  login req address password device_id = do
    account ← find_one_by_email address
    if env.bcrypt_compare password account.password
        then validate_2fa_user req account.user device_id
        else refuse_login req address

  -- `loginById`
  unfoldable pub login_by_id : Request → ℕ → String → Action SignIn
  login_by_id req id device_id = do
    user ← find_one id
    role ← or_throw user.role crash
    validate_2fa_user req user device_id
