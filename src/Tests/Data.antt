-- ===== src/Tests/Data.antt =====
-- A small database, a world without failing calls, and toy functions for the libraries.
use Prim.Native.String.{◌++◌ as str_append}
use nestjs_auth_backend.Base.{
  ℕ, true, false, none, some, String, [], ◌∷◌, arith, str_eq, eq_iff, ◌≡◌, ◌≢◌, if◌then◌else◌,
}
use nestjs_auth_backend.Entities.{
  User, UserStatus, active, suspended, Role, UserAccountCredentials, UserAccountOAuth, google,
  UserToken, password_reset, UserSecurity, UserSecurityTwoFactorOtps, otp_email,
  UserSecurityRecoveryCodes, AuthSession, AuthRefreshToken, AuthAttempts, AuthReAuthToken,
}
use nestjs_auth_backend.World.{World, Db, Env, Payload, StatePayload, link_flow}
use nestjs_auth_backend.OAuth.{OAuthProfile}
use nestjs_auth_backend.Auth.SignIn.{Request}
use nestjs_auth_backend.Users.Accounts.{UserDto}
use nestjs_auth_backend.Guards.{Http}

abbrev pub user_role : Role
user_role = record { id = 1; name = "user"; permissions = "{read}" }

abbrev pub account : ℕ → String → UserStatus → User
account id email status = record {
  id = id;
  avatar = none;
  name = "Ana";
  lastname = none;
  identity_type = none;
  document = none;
  email = email;
  role = 1;
  status = status;
  user_secret = "s";
  created_at = 0;
  deleted_at = none;
}

abbrev pub ana : User
ana = account 1 "ana@x.org" active

abbrev pub bob : User
bob = account 2 "bob@x.org" suspended

abbrev pub ana_credentials : UserAccountCredentials
ana_credentials = record { id = 1; user = 1; password = "pw"; is_active = true }

abbrev pub bob_google : UserAccountOAuth
bob_google = record {
  id = 3;
  user = 2;
  provider = google;
  provider_id = "g2";
  avatar = none;
  is_active = true;
}

abbrev pub reset_mail : UserToken
reset_mail = record {
  id = 4;
  user = 2;
  token = "reset";
  token_type = password_reset;
  expires_at = 9_000;
  is_used = false;
}

abbrev pub bob_security : UserSecurity
bob_security = record {
  id = 6;
  user = 2;
  two_factor_enabled = true;
  two_factor_type = none;
  two_factor_data = none;
  last_changed_at = none;
}

abbrev pub ana_otp : UserSecurityTwoFactorOtps
ana_otp = record {
  id = 8;
  user = 1;
  otps_type = otp_email;
  code = "#123456";
  expires_at = 9_000;
  used = false;
  failed_attempts = 0;
  created_at = 500;
}

abbrev pub bob_code : UserSecurityRecoveryCodes
bob_code = record { id = 9; user_security = 6; code = "aabb"; used = false }

abbrev pub ana_session : AuthSession
ana_session = record {
  id = 5;
  user = 1;
  device_id = "dev";
  user_agent = "ua";
  ip_address = "::1";
  is_active = true;
  expires_at = 9_000;
}

abbrev pub stored_token : ℕ → String → AuthRefreshToken
stored_token id token = record {
  id = id;
  auth_session = 5;
  token = token;
  expires_at = 9_000;
  revoked = false;
}

abbrev pub ana_attempts : AuthAttempts
ana_attempts = record {
  id = 11;
  email = "ana@x.org";
  ip_address = "::1";
  attempts = 4;
  blocked_until = none;
}

abbrev pub bob_attempts : AuthAttempts
bob_attempts = record {
  id = 12;
  email = "bob@x.org";
  ip_address = "::1";
  attempts = 5;
  blocked_until = some 5_000;
}

abbrev pub ana_reauth : AuthReAuthToken
ana_reauth = record { id = 13; user = 1; token = "#re"; expires_at = 9_000; revoked = false }

abbrev pub store : Db
store = record {
  roles = user_role ∷ [];
  identity_types = record { id = 1; name = "Passport"; abrev = "PA" } ∷ [];
  users = ana ∷ bob ∷ [];
  credentials = ana_credentials ∷ [];
  oauths = bob_google ∷ [];
  tokens = reset_mail ∷ [];
  securities = bob_security ∷ [];
  otps = ana_otp ∷ [];
  recovery_codes = bob_code ∷ [];
  user_sessions = [];
  email_requests = [];
  email_logs = [];
  sessions = ana_session ∷ [];
  refresh_tokens = stored_token 7 "#jwt" ∷ stored_token 10 "#forged" ∷ [];
  attempts = ana_attempts ∷ bob_attempts ∷ [];
  reauth_tokens = ana_reauth ∷ [];
  audit = [];
  password_policies = [];
}

abbrev pub world : World
world = record { db = store; work = store; faults = []; serial = 100; now = 1_000; outbox = [] }

-- The same with a database that is out of reach for the first call.
abbrev pub faulty_world : World
faulty_world = record {
  db = store;
  work = store;
  faults = true ∷ [];
  serial = 100;
  now = 1_000;
  outbox = [];
}

abbrev pub claims : Payload
claims = record {
  sub = 1;
  session_id = 5;
  email = "ana@x.org";
  role_name = "user";
  permissions = "read" ∷ [];
}

-- "none" is the state of a link without a token; "bob" that of a link for the first user.
abbrev pub toy_state : String → StatePayload
toy_state state = record {
  flow = link_flow;
  user_id = if str_eq state "none" then none else some 1;
}

abbrev pub toy : Env
toy = record {
  sha256 = λ s. str_append "#" s;
  bcrypt_hash = λ password salt. password;
  bcrypt_compare = λ password hash. str_eq password hash;
  uuidv7 = λ n. "uuid";
  random_hex = λ n. "c0de";
  jwt_sign = λ p secret now seconds. "signed";
  jwt_verify = λ token secret now. if str_eq token "jwt" then some claims else none;
  jwt_decode = λ token. some claims;
  state_sign = λ p now. "state";
  state_verify = λ state now. some (toy_state state);
  device_type = λ agent. none;
  totp_secret = λ n. "BASE32";
  totp_verify = λ secret code now. str_eq code "123456";
  pg_array = λ xs. "{}";
  rol_permission_default = "read";
  jwt_secret = "k";
  jwt_refresh_secret = "r";
  rol_user_default = "user";
}

abbrev pub request : Request
request = record {
  ip = "::1";
  user_agent = none;
  client = record { ip = "::1"; user_agent = "ua"; device = "pc" };
}

abbrev pub http_request : Http
http_request = record {
  bearer = some "jwt";
  access_token_cookie = none;
  reauth_header = some "re";
  param_id = none;
  body_email = some "bob@x.org";
}

-- The profile of an account that is linked to nobody, and of the one that is linked to Bob.
abbrev pub profile : String → OAuthProfile
profile provider_id = record {
  provider = google;
  provider_id = provider_id;
  email = "ana@x.org";
  name = "Ana";
  lastname = none;
  avatar = none;
  is_active = true;
}

abbrev pub eve_dto : UserDto
eve_dto = record {
  name = some "Eve";
  lastname = none;
  document_type_id = some 1;
  document = some "D1";
  email = some "eve@x.org";
}

-- A world whose eleventh call fails.
abbrev pub late_fault_world : World
late_fault_world = record {
  db = store;
  work = store;
  faults =
      false ∷ false ∷ false ∷ false ∷ false ∷ false ∷ false ∷ false ∷ false ∷ false ∷ true ∷ [];
  serial = 100;
  now = 1_000;
  outbox = [];
}

-- Texts that the test tells apart are different.
pub apart : (a b : String) → str_eq a b ≡ false → a ≢ b
apart a b differ e = ground (arith, eq_iff a b, differ, e)
