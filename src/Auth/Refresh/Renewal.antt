-- ===== src/Auth/Refresh/Renewal.antt =====
-- A sign-in and the refresh of its token: `login` and `refreshToken` of
-- src/modules/auth/auth.service.ts, one after the other.
use Prim.Native.String.{◌++◌ as str_append}
use nestjs_auth_backend.Base.{
  ℕ, ◌+◌, ◌≤◌, ◌≡◌, refl, ap, ◌∙◌, ◌&&◌, ◌==◌, not, is_some, find, str_eq, true, false, none, some,
  String, [], ==_refl, eq_refl, find-insert_row_new,
}
use nestjs_auth_backend.Permissions.{is_empty}
use nestjs_auth_backend.Entities.{User, Role, active, UserSecurity, UserAccountCredentials}
use nestjs_auth_backend.World.{World, ok, Env, Payload}
use nestjs_auth_backend.RefreshTokens.{session_by_id, refresh_token_term}
use nestjs_auth_backend.RefreshTokens.Rotation.{row_of_hash}
use nestjs_auth_backend.Sessions.{session_of_device}
use nestjs_auth_backend.Security.{security_of}
use nestjs_auth_backend.Credentials.{credentials_of}
use nestjs_auth_backend.Users.Lookup.{user_by_id, user_by_email, role_by_id}
use nestjs_auth_backend.Auth.SignIn.{Request, login, payload_of, refresh_seconds}
use nestjs_auth_backend.Auth.SignIn.Success.{new_session, new_token, refresh_jwt, login_succeeds}
use nestjs_auth_backend.Auth.Refresh.{refresh_token, refreshed_access_seconds}
use nestjs_auth_backend.Auth.Refresh.Laws.{refresh_token_rotates}

-- The world in which a later request is served.
abbrev pub later_than : ℕ → World → World
later_than now w = record w { now = now; faults = [] }

-- Whoever has signed in can refresh. Where `login_succeeds` applies, the id of the new session and
-- the hash of the new token are not in use, and the refresh token is not empty, verifies at the
-- later time and decodes to what was signed: a `refreshToken` with it, served at a time up to
-- seven days after the sign-in and with no failing external call, answers a new access token for
-- the same session, signed with the user's own secret, and a new refresh token.
pub refresh_token-login :
    (env : Env) (req : Request) (address password device_id : String) (w : World) (u : User)
    (r : Role) (c : UserAccountCredentials) (s : UserSecurity) (later : ℕ) (req' : Request)
    (q : Payload)
    → w.faults ≡ []
    → user_by_email address w.db ≡ some u
    → user_by_id u.id w.db ≡ some u
    → role_by_id u.role w.db ≡ some r
    → credentials_of u.id w.db ≡ some c
    → env.bcrypt_compare password c.password ≡ true
    → u.status ≡ active
    → security_of u.id w.db ≡ some s
    → s.two_factor_enabled ≡ false
    → session_of_device device_id u.id w.db ≡ none
    → session_by_id (w.serial + 1) w.db ≡ none
    → row_of_hash (env.sha256 (refresh_jwt env u r w)) w.db ≡ none
    → is_empty (refresh_jwt env u r w) ≡ false
    → env.jwt_verify (refresh_jwt env u r w) env.jwt_refresh_secret later ≡ some q
    → env.jwt_decode (refresh_jwt env u r w) ≡ some (payload_of u r (w.serial + 1))
    → later ≤ w.now + refresh_token_term
    → (refresh_token env req'
        (refresh_jwt env u r w)
        (later_than later (login env req address password device_id w).1)).0
      ≡ ok (record {
        access_token =
            env.jwt_sign
              (payload_of u r (w.serial + 1))
              (str_append env.jwt_secret u.user_secret)
              later
              refreshed_access_seconds;
        refresh_token =
            env.jwt_sign
              (payload_of u r (w.serial + 1))
              env.jwt_refresh_secret
              later
              refresh_seconds;
      })
refresh_token-login env req address password device_id w u r c s later req' q calm found user role
      stored right standing settings off fresh no_session no_token given signed decoded soon =
    let in_ =
      login_succeeds env req address password device_id w u r c s calm found user role stored right
        standing settings off fresh in
    let w' = later_than later (login env req address password device_id w).1 in
    let token_row : row_of_hash (env.sha256 (refresh_jwt env u r w)) w'.db
        ≡ some (new_token env u r w) =
      ap (find (λ t. str_eq t.token (env.sha256 (refresh_jwt env u r w)))) in_.2
      ∙ find-insert_row_new _ (new_token env u r w) w.db.refresh_tokens no_token
          (eq_refl (env.sha256 (refresh_jwt env u r w))) in
    let session : session_by_id (w.serial + 1) w'.db ≡ some (new_session req device_id u w) =
      ap (find (λ x. x.id == (w.serial + 1))) in_.1
      ∙ find-insert_row_new _ (new_session req device_id u w) w.db.sessions no_session
          (==_refl (w.serial + 1)) in
    let user' : user_by_id u.id w'.db ≡ some u =
      ap (find (λ x. x.id == u.id && not (is_some x.deleted_at))) in_.4 ∙ user in
    let role' : role_by_id u.role w'.db ≡ some r = ap (find (λ x. x.id == u.role)) in_.5 ∙ role in
    (refresh_token_rotates env req' (refresh_jwt env u r w) w' (new_token env u r w)
      (new_session req device_id u w) u r (payload_of u r (w.serial + 1)) q refl given token_row
      (soon, refl) session signed decoded user' role').0
