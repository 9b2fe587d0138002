-- ===== src/Auth/SignIn/Success.antt =====
-- `login` of src/modules/auth/auth.service.ts with the right password.
use Prim.Native.String.{◌++◌ as str_append}
use nestjs_auth_backend.Base.{
  ◌+◌, ◌≡◌, true, false, none, some, String, [], arith, insert_row, find-delete_where,
}
use nestjs_auth_backend.Permissions.{parse_permissions}
use nestjs_auth_backend.Entities.{
  User, Role, active, UserSecurity, UserAccountCredentials, AuthSession, AuthRefreshToken,
}
use nestjs_auth_backend.World.{World, ok, Env, send_mail}
use nestjs_auth_backend.Attempts.{attempt_of, has_email, reset}
use nestjs_auth_backend.AuditLog.{create_audit}
use nestjs_auth_backend.UserSessions.{create_user_session}
use nestjs_auth_backend.Sessions.{create_auth_session, session_of_device, session_term}
use nestjs_auth_backend.RefreshTokens.{create_refresh_token, refresh_token_term}
use nestjs_auth_backend.Security.{security_of, find_one_by_user}
use nestjs_auth_backend.Credentials.{credentials_of}
use nestjs_auth_backend.Users.Lookup.{
  user_by_id, user_by_email, role_by_id, find_one, find_one_by_email,
}
use nestjs_auth_backend.Auth.SignIn.{
  Request, signed_in, login, validate_2fa_user, second_factor, payload_of,
  generated_token_and_refresh_token, open_user_session, refresh_seconds, access_seconds,
}

-- The session that a sign-in opens on a device without one.
abbrev pub new_session : Request → String → User → World → AuthSession
new_session req device_id u w = record {
  id = w.serial + 1;
  user = u.id;
  device_id = device_id;
  user_agent = req.client.user_agent;
  ip_address = req.client.ip;
  is_active = true;
  expires_at = w.now + session_term;
}

abbrev pub refresh_jwt : Env → User → Role → World → String
refresh_jwt env u r w =
    env.jwt_sign (payload_of u r (w.serial + 1)) env.jwt_refresh_secret w.now refresh_seconds

abbrev pub new_token : Env → User → Role → World → AuthRefreshToken
new_token env u r w = record {
  id = w.serial + 2;
  auth_session = w.serial + 1;
  token = env.sha256 (refresh_jwt env u r w);
  expires_at = w.now + refresh_token_term;
  revoked = false;
}

module _ (env : Env) (req : Request) (device_id : String) (w : World) (u : User) (r : Role) where
  open_user_session_new :
      w.faults ≡ []
      → user_by_id u.id w.db ≡ some u
      → session_of_device device_id u.id w.db ≡ none
      → let out = open_user_session env req (record { row = u; role = some r }) device_id w in
        (out.0 ≡ ok (refresh_jwt env u r w, payload_of u r (w.serial + 1)))
        × (out.1.db.sessions ≡ insert_row (new_session req device_id u w) w.db.sessions)
        × (out.1.db.refresh_tokens ≡ insert_row (new_token env u r w) w.db.refresh_tokens)
        × (out.1.faults ≡ [])
        × (out.1.now ≡ w.now)
        × (out.1.db.users ≡ w.db.users)
        × (out.1.db.roles ≡ w.db.roles)
  unfolding open_user_session create_user_session find_one create_auth_session create_refresh_token
  open_user_session_new calm user fresh = ground arith

  generated_lem :
      w.faults ≡ []
      → user_by_id u.id w.db ≡ some u
      → session_of_device device_id u.id w.db ≡ none
      → let out =
          generated_token_and_refresh_token env req
            (record { row = u; role = some r })
            device_id
            w in
        (out.0
          ≡ ok (
              signed_in (record {
                access_token =
                    env.jwt_sign
                      (payload_of u r (w.serial + 1))
                      (str_append env.jwt_secret u.user_secret)
                      w.now
                      access_seconds;
                refresh_token = refresh_jwt env u r w;
                email = u.email;
                permissions = parse_permissions r.permissions;
              })))
        × (out.1.db.sessions ≡ insert_row (new_session req device_id u w) w.db.sessions)
        × (out.1.db.refresh_tokens ≡ insert_row (new_token env u r w) w.db.refresh_tokens)
        × (attempt_of u.email out.1.db ≡ none)
        × (out.1.db.users ≡ w.db.users)
        × (out.1.db.roles ≡ w.db.roles)
  unfolding generated_token_and_refresh_token send_mail reset create_audit
  generated_lem calm user fresh =
      let opened = open_user_session_new calm user fresh in
      let w' = (open_user_session env req (record { row = u; role = some r }) device_id w).1 in
      ground (
        arith,
        opened.0,
        opened.1,
        opened.2,
        opened.3,
        opened.4,
        opened.5,
        opened.6,
        find-delete_where (has_email u.email) w'.db.attempts,
      )

  validated_lem :
      (s : UserSecurity)
      → w.faults ≡ []
      → u.status ≡ active
      → security_of u.id w.db ≡ some s
      → s.two_factor_enabled ≡ false
      → validate_2fa_user env req (record { row = u; role = some r }) device_id w
        ≡ generated_token_and_refresh_token env req (record { row = u; role = some r }) device_id w
  unfolding validate_2fa_user second_factor find_one_by_user
  validated_lem s calm standing settings off = ground arith

-- Where no external call fails: for the email of a user who is not removed and is active, with a
-- role, the password that the stored hash accepts, settings that ask for no second factor, and a
-- device on which the user has no session, `login` signs the user in. It answers an access token
-- signed with the user's own secret and a refresh token; it opens a session for the device, stores
-- the hash of the refresh token for that session, forgets the failures of the email, and changes
-- neither users nor roles.
pub login_succeeds :
    (env : Env) (req : Request) (address password device_id : String) (w : World) (u : User)
    (r : Role) (c : UserAccountCredentials) (s : UserSecurity)
    → w.faults ≡ []
    → user_by_email address w.db ≡ some u
    → user_by_id u.id w.db ≡ some u
    → role_by_id u.role w.db ≡ some r
    → credentials_of u.id w.db ≡ some c
    → env.bcrypt_compare password c.password ≡ true
    → u.status ≡ active
    → security_of u.id w.db ≡ some s
    → s.two_factor_enabled ≡ false
    → session_of_device device_id u.id w.db ≡ none
    → let out = login env req address password device_id w in
      (out.0
        ≡ ok (
            signed_in (record {
              access_token =
                  env.jwt_sign
                    (payload_of u r (w.serial + 1))
                    (str_append env.jwt_secret u.user_secret)
                    w.now
                    access_seconds;
              refresh_token = refresh_jwt env u r w;
              email = u.email;
              permissions = parse_permissions r.permissions;
            })))
      × (out.1.db.sessions ≡ insert_row (new_session req device_id u w) w.db.sessions)
      × (out.1.db.refresh_tokens ≡ insert_row (new_token env u r w) w.db.refresh_tokens)
      × (attempt_of u.email out.1.db ≡ none)
      × (out.1.db.users ≡ w.db.users)
      × (out.1.db.roles ≡ w.db.roles)
unfolding login find_one_by_email
login_succeeds env req address password device_id w u r c s calm found user role stored right
      standing settings off fresh =
    let same : login env req address password device_id w
        ≡ generated_token_and_refresh_token env req (record { row = u; role = some r }) device_id
            w =
      ground (arith, validated_lem env req device_id w u r s calm standing settings off) in
    rw same (generated_lem env req device_id w u r calm user fresh)
