-- ===== src/Auth/TwoFactor.antt =====
-- `enable2fa`, `confirm2fa`, `verify2fa` and `disable2fa` of src/modules/auth/auth.service.ts, with
-- src/modules/users/security/totp/totp.service.ts.
pub mod Laws
pub mod Sound
use Prim.Native.Char.{code}
use nestjs_auth_backend.Base.{
  ℕ, ◌+◌, Bool, true, false, ◌&&◌, not, Option, none, some, String, List, if◌then◌else◌, leb, ◌==◌,
}
use nestjs_auth_backend.Permissions.{is_empty}
use nestjs_auth_backend.Errors.{
  two_factor_already_enabled, two_factor_sms_disabled, two_factor_type_invalid,
  two_factor_code_invalid, invalid_password, crash, http,
}
use nestjs_auth_backend.Entities.{
  TwoFactorType, totp, sms, email, fido2, otp_email, TwoFactorData, totp_pending, totp_confirmed,
  otps_confirmed, UserSecurity, UserSecurityRecoveryCodes, login_failed, mfa_enabled, mfa_disabled,
}
use nestjs_auth_backend.World.{
  Action, ◌>>=◌, ◌>>◌, pure, throw, gets, draw, throw_if, or_throw, not_awaited, send_mail, Env,
}
use nestjs_auth_backend.Attempts.{record_failure}
use nestjs_auth_backend.Otps.{enable_otps, verify_otps}
use nestjs_auth_backend.Security.{find_one_by_user, save_security}
use nestjs_auth_backend.RecoveryCodes.{generate, use_code}
use nestjs_auth_backend.AuditLog.{create_audit}
use nestjs_auth_backend.Users.Lookup.{LoadedUser, find_one}
use nestjs_auth_backend.Auth.SignIn.{Request, SignIn, audit_row, generated_token_and_refresh_token}

-- An ASCII character in lower case.
abbrev pub lower : ℕ → ℕ
lower c = if leb b'A' c && leb c b'Z' then c + 32 else c

-- `s.toLowerCase() === t`, for a lower-case `t`
abbrev pub is_lower_case_of : String → String → Bool
is_lower_case_of String.[] String.[] = true
is_lower_case_of String.[] (String.◌∷◌ d t) = false
is_lower_case_of (String.◌∷◌ c s) String.[] = false
is_lower_case_of (String.◌∷◌ c s) (String.◌∷◌ d t) =
    lower (code c) == code d && is_lower_case_of s t

-- The cases of the `switch` in `enable2fa`; its `default` is `none`.
unfoldable pub parse_two_factor_type : String → Option TwoFactorType
parse_two_factor_type s =
    if is_lower_case_of s "totp"
    then some totp
    else if is_lower_case_of s "sms"
    then some sms
    else if is_lower_case_of s "email"
    then some email
    else none

-- `twoFactorData.secret.base32`; without it the read throws.
abbrev pub stored_secret : Option TwoFactorData → Option String
stored_secret none = none
stored_secret (some (totp_pending s)) = some s
stored_secret (some (totp_confirmed s)) = some s
stored_secret (some (otps_confirmed type address)) = none

-- The user and the settings that each handler begins with.
pub record Subject : Type 0 where
  pub user : LoadedUser
  pub security : UserSecurity

unfoldable pub load_subject : ℕ → Action Subject
load_subject user_id = do
  user ← find_one user_id
  found ← find_one_by_user user.row.id
  security ← or_throw found crash
  pure (record { user = user; security = security })

-- The settings data that `confirm2fa` stores after a valid code.
abbrev pub confirmed_data : Subject → Option TwoFactorType → Option TwoFactorData
confirmed_data x (some totp) = elim (stored_secret x.security.two_factor_data) [
  | none ↦ x.security.two_factor_data
  | some s ↦ some (totp_confirmed s)
]
confirmed_data x (some email) = some (otps_confirmed otp_email x.user.row.email)
confirmed_data x _ = x.security.two_factor_data

-- `if (!valid && code) valid = await ...useCode(userId, { code })`
abbrev pub or_recovery_code : ℕ → String → Bool → Action Bool
or_recovery_code user_id given true = pure true
or_recovery_code user_id given false = if is_empty given then pure false else use_code user_id given

-- What `verify2fa` does after a wrong code.
unfoldable pub refuse_code : Request → String → Action SignIn
refuse_code req address = do
  record_failure address req.ip
  create_audit (audit_row login_failed none req)
  throw (http invalid_password)

module _ (env : Env) where
  -- `TotpService.enableTotp`, less the picture
  unfoldable pub enable_totp : UserSecurity → Action (Unit {0})
  enable_totp s = do
    seed ← draw
    save_security (record s {
      two_factor_enabled = false;
      two_factor_type = some totp;
      two_factor_data = some (totp_pending (env.totp_secret seed));
    })

  -- The `switch` of `enable2fa`.
  abbrev pub begin_enabling : Subject → Option TwoFactorType → Action (Unit {0})
  begin_enabling x (some totp) = enable_totp x.security
  begin_enabling x (some sms) = throw (http two_factor_sms_disabled)
  begin_enabling x (some email) = do
    code ← enable_otps env x.user.row.id x.security
    not_awaited (send_mail x.user.row.email "auth-2fa-otp" (some code))
  begin_enabling x (some fido2) = throw (http two_factor_type_invalid)
  begin_enabling x none = throw (http two_factor_type_invalid)

  -- `enable2fa`
  unfoldable pub enable_2fa : ℕ → String → Action (Unit {0})
  enable_2fa user_id two_factor_type = do
    x ← load_subject user_id
    throw_if x.security.two_factor_enabled two_factor_already_enabled
    begin_enabling x (parse_two_factor_type two_factor_type)

  -- `totpService.verifyToken(userSecurity.twoFactorData.secret.base32, code)`
  abbrev pub check_totp : Option TwoFactorData → String → Action Bool
  check_totp stored given = do
    secret ← or_throw (stored_secret stored) crash
    now ← gets (λ w. w.now)
    pure (env.totp_verify secret given now)

  -- The `switch` of `verify2fa`, and the first half of that of `confirm2fa`.
  abbrev pub check_code : Subject → Option TwoFactorType → String → Action Bool
  check_code x (some totp) given = check_totp x.security.two_factor_data given
  check_code x (some email) given = verify_otps env x.user.row.id otp_email given
  check_code x (some sms) given = pure false
  check_code x (some fido2) given = pure false
  check_code x none given = pure false

  -- `confirm2fa`: the recovery codes.
  unfoldable pub confirm_2fa : Request → ℕ → String → Action (List UserSecurityRecoveryCodes)
  confirm_2fa req user_id given = do
    x ← load_subject user_id
    valid ← check_code x x.security.two_factor_type given
    throw_if (not valid) two_factor_code_invalid
    now ← gets (λ w. w.now)
    save_security (record x.security {
      two_factor_enabled = true;
      two_factor_data = confirmed_data x x.security.two_factor_type;
      last_changed_at = some now;
    })
    create_audit (audit_row mfa_enabled (some user_id) req)
    generate env user_id

  -- `verify2fa`
  unfoldable pub verify_2fa : Request → ℕ → String → String → Action SignIn
  verify_2fa req user_id given device_id = do
    x ← load_subject user_id
    by_factor ← check_code x x.security.two_factor_type given
    valid ← or_recovery_code user_id given by_factor
    if valid
        then generated_token_and_refresh_token env req x.user device_id
        else refuse_code req x.user.row.email

-- `disable2fa`; where nothing is enabled it answers nothing.
unfoldable pub disable_2fa : Request → ℕ → Action (Unit {0})
disable_2fa req user_id = do
  x ← load_subject user_id
  now ← gets (λ w. w.now)
  if x.security.two_factor_enabled
      then save_security (record x.security {
        two_factor_enabled = false;
        two_factor_type = none;
        two_factor_data = none;
        last_changed_at = some now;
      })
        >> create_audit (audit_row mfa_disabled (some user_id) req)
      else pure tt
