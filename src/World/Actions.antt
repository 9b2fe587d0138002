-- ===== src/World/Actions.antt =====
-- The database with its transactions, the outbox, the clock, and the calls that can fail.
use nestjs_auth_backend.Base.{
  ℕ, suc, Bool, ◌||◌, Option, none, some, String, List, [], ◌∷◌, ◌++◌, if◌then◌else◌,
}
use nestjs_auth_backend.Entities.{
  Role, IdentityType, User, UserAccountCredentials, UserAccountOAuth, UserToken, UserSecurity,
  UserSecurityTwoFactorOtps, UserSecurityRecoveryCodes, UserSession, UserEmailChangeRequest,
  UserEmailChangeLog, AuthSession, AuthRefreshToken, AuthAttempts, AuthReAuthToken, AuditLog,
  AuthPasswordPolicy,
}
use nestjs_auth_backend.Errors.{ErrorCode, Error, http, crash, internal_error}

pub record Db : Type 0 where
  pub roles : List Role
  pub identity_types : List IdentityType
  pub users : List User
  pub credentials : List UserAccountCredentials
  pub oauths : List UserAccountOAuth
  pub tokens : List UserToken
  pub securities : List UserSecurity
  pub otps : List UserSecurityTwoFactorOtps
  pub recovery_codes : List UserSecurityRecoveryCodes
  pub user_sessions : List UserSession
  pub email_requests : List UserEmailChangeRequest
  pub email_logs : List UserEmailChangeLog
  pub sessions : List AuthSession
  pub refresh_tokens : List AuthRefreshToken
  pub attempts : List AuthAttempts
  pub reauth_tokens : List AuthReAuthToken
  pub audit : List AuditLog
  pub password_policies : List AuthPasswordPolicy

pub record Mail : Type 0 where
  pub to : String
  pub template : String
  -- the token or code that the mail carries, if it carries one
  pub secret : Option String

-- `db` is what is committed, `work` what the open transaction sees; outside a transaction both
-- are the same. `faults` says of each coming external call whether it fails; past its end none
-- does. `serial` numbers the ids, uuids and random codes that are drawn.
pub record World : Type 0 where
  pub db : Db
  pub work : Db
  pub faults : List Bool
  pub serial : ℕ
  pub now : ℕ
  pub outbox : List Mail

pub data Result (A : Type 0) : Type 0 where
  ok : A → Result A
  err : Error → Result A

abbrev pub Action : Type 0 → Type 0
Action A = World → Result A × World

module _ {A : Type 0} where
  abbrev pub pure : A → Action A
  pure a w = (ok a, w)

  abbrev pub throw : Error → Action A
  throw e w = (err e, w)

  abbrev pub gets : (World → A) → Action A
  gets f w = (ok (f w), w)

infixl 5 ◌>>=◌ ◌>>◌
abbrev pub ◌>>=◌ : {A B : Type 0} → Action A → (A → Action B) → Action B
◌>>=◌ m f w = elim ((m w).0) [ ok a ↦ f a ((m w).1) | err e ↦ (err e, (m w).1) ]

abbrev pub ◌>>◌ : {A B : Type 0} → Action A → Action B → Action B
m >> k = m >>= λ _. k

-- `if (test) throw`
abbrev pub throw_if : Bool → ErrorCode → Action (Unit {0})
throw_if c code w = (if c then err (http code) else ok tt, w)

-- The value, or the error of code that reads through `null`.
abbrev pub or_throw : {A : Type 0} → Option A → Error → Action A
or_throw none e = throw e
or_throw (some a) e = pure a

-- `try { m } catch (error) { internalServerError(...) }`
abbrev pub try_catch : {A : Type 0} → Action A → Action A
try_catch m w = elim ((m w).0) [
  | ok a ↦ (ok a, (m w).1)
  | err _ ↦ (err (http internal_error), (m w).1)
]

-- A promise that nobody awaits: what it throws does not reach the caller.
abbrev pub not_awaited : {A : Type 0} → Action A → Action (Unit {0})
not_awaited m w = (ok tt, (m w).1)

-- One call of the database or of the mail server.
abbrev pub external : Action (Unit {0})
external w = elim w.faults [
  | [] ↦ (ok tt, w)
  | f ∷ rest ↦ (if f then err crash else ok tt, record w { faults = rest })
]

-- Whether a repository is the service's own or comes from the transaction's `EntityManager`.
pub data Conn : Type 0 where
  direct manager : Conn

abbrev pub view : Conn → World → Db
view direct w = w.db
view manager w = w.work

abbrev pub alter : Conn → (Db → Db) → World → World
alter direct f w = record w { db = f w.db; work = f w.work }
alter manager f w = record w { work = f w.work }

abbrev pub query : {A : Type 0} → Conn → (Db → A) → Action A
query c f = external >> λ w. (ok (f (view c w)), w)

abbrev pub execute : Conn → (Db → Db) → Action (Unit {0})
execute c f = external >> λ w. (ok tt, alter c f w)

-- Whether a unique index refuses: it counts the rows of an open transaction too.
abbrev pub refused : Conn → (Db → Bool) → World → Bool
refused direct clash w = clash w.db || clash w.work
refused manager clash w = clash w.work

-- A write under a unique index, through either connection.
abbrev pub execute_unique : Conn → (Db → Bool) → (Db → Db) → Action (Unit {0})
execute_unique c clash f =
    external >> λ w. (if refused c clash w then (err crash, w) else (ok tt, alter c f w))

-- The same for a write that stands outside any transaction.
abbrev pub execute_unless : Conn → (Db → Bool) → (Db → Db) → Action (Unit {0})
execute_unless c clash f =
    external >> λ w. (if clash (view c w) then (err crash, w) else (ok tt, alter c f w))

-- The next number of a sequence, or the seed of a uuid or a random code.
abbrev pub draw : Action ℕ
draw w = (ok w.serial, record w { serial = suc w.serial })

abbrev pub settle : {A : Type 0} → Result A → World → Result A × World
settle (ok a) w = (ok a, record w { db = w.work })
settle (err e) w = (err e, record w { work = w.db })

-- `dataSource.transaction(async (manager) => ...)`: the manager's writes are kept together or not
-- at all; those of a service's own repository are kept in any case.
abbrev pub transaction : {A : Type 0} → Action A → Action A
transaction m w =
    let body = (m >>= λ a. external >> pure a) (record w { work = w.db }) in settle body.0 body.1

-- src/mails/mail.service.ts
unfoldable pub send_mail : String → String → Option String → Action (Unit {0})
send_mail to template secret = try_catch (external >> deliver)
  where
    deliver : Action (Unit {0})
    deliver w = (
      ok tt,
      record w {
        outbox = w.outbox ++ record { to = to; template = template; secret = secret } ∷ [];
      },
    )

-- JWT payloads: `{ sub, sessionId, email, role }`.
pub record Payload : Type 0 where
  pub sub : ℕ
  pub session_id : ℕ
  pub email : String
  pub role_name : String
  pub permissions : List String

-- `OAuthStatePayload` (src/modules/auth/oauth/oauth.service.ts); `other_flow` is any other text.
pub data OAuthFlow : Type 0 where
  login_flow link_flow other_flow : OAuthFlow

pub record StatePayload : Type 0 where
  pub flow : OAuthFlow
  pub user_id : Option ℕ

-- What the services call and src/ does not hold: crypto, bcrypt, uuid, JWT, speakeasy, and the
-- process environment.
pub record Env : Type 0 where
  pub sha256 : String → String
  pub bcrypt_hash : String → ℕ → String
  pub bcrypt_compare : String → String → Bool
  pub uuidv7 : ℕ → String
  pub random_hex : ℕ → String
  -- payload, secret, time of issue, seconds of validity
  pub jwt_sign : Payload → String → ℕ → ℕ → String
  -- token, secret, time
  pub jwt_verify : String → String → ℕ → Option Payload
  pub jwt_decode : String → Option Payload
  -- the state of the OAuth redirect, signed for five minutes, and its check
  pub state_sign : StatePayload → ℕ → String
  pub state_verify : String → ℕ → Option StatePayload
  -- the type of the device that ua-parser-js reads off a user agent
  pub device_type : String → Option String
  -- a secret in base32, and `speakeasy.totp.verify` with window 1
  pub totp_secret : ℕ → String
  pub totp_verify : String → String → ℕ → Bool
  -- how the driver writes an array into the text column `permissions`
  pub pg_array : List String → String
  pub rol_permission_default : String
  pub jwt_secret : String
  pub jwt_refresh_secret : String
  pub rol_user_default : String
