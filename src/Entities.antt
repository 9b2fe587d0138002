-- ===== src/Entities.antt =====
-- The rows of the tables: src/modules/auth/entities/*.ts, src/modules/users/entities/*.ts and
-- src/modules/roles/entities/role.entity.ts. A relation is the id of the row that it refers to;
-- `Date` is a number of milliseconds; creation and update dates that no code reads are left out.
use nestjs_auth_backend.Base.{ℕ, Bool, String, Option, true, false}

-- src/common/enum/user-status.enum.ts
pub data UserStatus : Type 0 where
  active inactive suspended pending : UserStatus

-- src/common/enum/two-factor-type.enum.ts
pub data TwoFactorType : Type 0 where
  totp sms email fido2 : TwoFactorType

-- src/common/enum/two-factor-otps.enum.ts
pub data TwoFactorOtpsType : Type 0 where
  otp_sms otp_email : TwoFactorOtpsType

abbrev pub otps_type_eq : TwoFactorOtpsType → TwoFactorOtpsType → Bool
otps_type_eq otp_sms otp_sms = true
otps_type_eq otp_email otp_email = true
otps_type_eq _ _ = false

-- src/common/enum/user-token.enum.ts
pub data UserTokenType : Type 0 where
  email_verification password_reset : UserTokenType

-- src/common/enum/user-oauth-providers.enum.ts
pub data OAuthProvider : Type 0 where
  google facebook github : OAuthProvider

abbrev pub provider_eq : OAuthProvider → OAuthProvider → Bool
provider_eq google google = true
provider_eq facebook facebook = true
provider_eq github github = true
provider_eq _ _ = false

-- src/common/enum/audit-event.enum.ts
pub data AuditEvent : Type 0 where
  login_success login_failed password_changed mfa_enabled mfa_disabled : AuditEvent
  refresh_token_revoked change_role_user : AuditEvent

pub record Role : Type 0 where
  pub id : ℕ
  pub name : String
  -- a text column: an array is written there as the driver prints it
  pub permissions : String

pub record IdentityType : Type 0 where
  pub id : ℕ
  pub name : String
  pub abrev : String

pub record User : Type 0 where
  pub id : ℕ
  pub avatar : Option String
  pub name : String
  pub lastname : Option String
  pub identity_type : Option ℕ
  pub document : Option String
  pub email : String
  pub role : ℕ
  pub status : UserStatus
  pub user_secret : String
  pub created_at : ℕ
  pub deleted_at : Option ℕ

pub record UserAccountCredentials : Type 0 where
  pub id : ℕ
  pub user : ℕ
  pub password : String
  pub is_active : Bool

pub record UserAccountOAuth : Type 0 where
  pub id : ℕ
  pub user : ℕ
  pub provider : OAuthProvider
  pub provider_id : String
  pub avatar : Option String
  pub is_active : Bool

pub record UserToken : Type 0 where
  pub id : ℕ
  pub user : ℕ
  pub token : String
  pub token_type : UserTokenType
  pub expires_at : ℕ
  pub is_used : Bool

-- `twoFactorData`, a JSON column: what each kind of second factor stores there.
pub data TwoFactorData : Type 0 where
  totp_pending : String → TwoFactorData
  totp_confirmed : String → TwoFactorData
  otps_confirmed : TwoFactorOtpsType → String → TwoFactorData

pub record UserSecurity : Type 0 where
  pub id : ℕ
  pub user : ℕ
  pub two_factor_enabled : Bool
  pub two_factor_type : Option TwoFactorType
  pub two_factor_data : Option TwoFactorData
  pub last_changed_at : Option ℕ

pub record UserSecurityTwoFactorOtps : Type 0 where
  pub id : ℕ
  pub user : ℕ
  pub otps_type : TwoFactorOtpsType
  pub code : String
  pub expires_at : ℕ
  pub used : Bool
  pub failed_attempts : ℕ
  pub created_at : ℕ

pub record UserSecurityRecoveryCodes : Type 0 where
  pub id : ℕ
  pub user_security : ℕ
  pub code : String
  pub used : Bool

pub record UserSession : Type 0 where
  pub id : ℕ
  pub user : ℕ
  pub ip : String
  pub device : String
  pub user_agent : String
  pub expires_at : ℕ

pub record UserEmailChangeRequest : Type 0 where
  pub id : ℕ
  pub user : ℕ
  pub old_email : String
  pub new_email : String
  pub token_hash : String
  pub expires_at : ℕ
  pub used : Bool

pub record UserEmailChangeLog : Type 0 where
  pub id : ℕ
  pub user : ℕ
  pub old_email : String
  pub new_email : String
  pub rollback_token : String
  pub expires_at : ℕ
  pub revoked : Bool

pub record AuthSession : Type 0 where
  pub id : ℕ
  pub user : ℕ
  pub device_id : String
  pub user_agent : String
  pub ip_address : String
  pub is_active : Bool
  pub expires_at : ℕ

pub record AuthRefreshToken : Type 0 where
  pub id : ℕ
  pub auth_session : ℕ
  pub token : String
  pub expires_at : ℕ
  pub revoked : Bool

pub record AuthAttempts : Type 0 where
  pub id : ℕ
  pub email : String
  pub ip_address : String
  pub attempts : ℕ
  pub blocked_until : Option ℕ

pub record AuthReAuthToken : Type 0 where
  pub id : ℕ
  pub user : ℕ
  pub token : String
  pub expires_at : ℕ
  pub revoked : Bool

pub record AuthPasswordPolicy : Type 0 where
  pub min_length : ℕ
  pub max_length : ℕ
  pub require_uppercase : Bool
  pub require_lowercase : Bool
  pub require_numbers : Bool
  pub require_special : Bool
  pub is_active : Bool

pub record AuditLog : Type 0 where
  pub event : AuditEvent
  pub actor_id : Option ℕ
  pub ip : String
  pub user_agent : Option String
  pub after : Option ℕ
  pub before : Option ℕ
