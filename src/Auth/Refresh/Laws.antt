-- ===== src/Auth/Refresh/Laws.antt =====
-- `refreshToken` of src/modules/auth/auth.service.ts: the rotation of the pair of tokens.
use Prim.Native.String.{◌++◌ as str_append}
use nestjs_auth_backend.Base.{
  ◌+◌, ◌≤◌, ◌≡◌, refl, ap, ◌∙◌, true, false, none, some, String, List, [], arith, ◌==◌, ==_refl,
  le→ltb-false, str_eq, find, insert_row, update_where, find-update_where, find-insert_row_old,
}
use nestjs_auth_backend.Permissions.{is_empty}
use nestjs_auth_backend.Errors.{token_revoked, internal_error, http}
use nestjs_auth_backend.Entities.{User, Role, AuthSession, AuthRefreshToken}
use nestjs_auth_backend.World.{World, Db, ok, err, Env, Payload}
use nestjs_auth_backend.RefreshTokens.{
  session_by_id, revoke_rows, create_refresh_token, refresh_token_term,
}
use nestjs_auth_backend.RefreshTokens.Rotation.{row_of_hash, revoke_live, revoke_revoked}
use nestjs_auth_backend.AuditLog.{create_audit}
use nestjs_auth_backend.Users.Lookup.{user_by_id, role_by_id, find_one}
use nestjs_auth_backend.Auth.SignIn.{Request, payload_of, refresh_seconds}
use nestjs_auth_backend.Auth.Refresh.{refresh_token, refreshed_access_seconds}

-- The rows after the token of row `t` was revoked.
abbrev revoked_rows : AuthRefreshToken → Db → List AuthRefreshToken
revoked_rows t d = (revoke_rows (λ r. r.id == t.id) d).refresh_tokens

-- A row that may be redeemed at the time of `w`.
abbrev pub IsLive : World → AuthRefreshToken → Type 0
IsLive w t = (w.now ≤ t.expires_at) × (t.revoked ≡ false)

module _ (env : Env) (req : Request) (token : String) (w : World) where
  refresh_revoked :
      (t : AuthRefreshToken)
      → w.faults ≡ []
      → is_empty token ≡ false
      → row_of_hash (env.sha256 token) w.db ≡ some t
      → w.now ≤ t.expires_at
      → t.revoked ≡ true
      → (refresh_token env req token w).0 ≡ err (http token_revoked)
  unfolding refresh_token
  refresh_revoked t calm given e live r =
      ground (arith, revoke_revoked env token w calm t e (le→ltb-false _ _ live) r)

  refresh_unsigned :
      (t : AuthRefreshToken)
      → w.faults ≡ []
      → is_empty token ≡ false
      → row_of_hash (env.sha256 token) w.db ≡ some t
      → IsLive w t
      → env.jwt_verify token env.jwt_refresh_secret w.now ≡ none
      → refresh_token env req token w ≡ (
        err (http internal_error),
        record w {
          db = revoke_rows (λ r. r.id == t.id) w.db;
          work = revoke_rows (λ r. r.id == t.id) w.work;
        },
      )
  unfolding refresh_token
  refresh_unsigned t calm given e live forged =
      ground (arith, revoke_live env token w calm t e (le→ltb-false _ _ live.0) live.1)

  module _ (t : AuthRefreshToken) (s : AuthSession) (u : User) (r : Role) (p q : Payload) where
    refresh_live :
        w.faults ≡ []
        → is_empty token ≡ false
        → row_of_hash (env.sha256 token) w.db ≡ some t
        → IsLive w t
        → session_by_id t.auth_session w.db ≡ some s
        → env.jwt_verify token env.jwt_refresh_secret w.now ≡ some q
        → env.jwt_decode token ≡ some p
        → user_by_id p.sub w.db ≡ some u
        → role_by_id u.role w.db ≡ some r
        → ((refresh_token env req token w).0
            ≡ ok (record {
              access_token =
                  env.jwt_sign
                    (payload_of u r s.id)
                    (str_append env.jwt_secret u.user_secret)
                    w.now
                    refreshed_access_seconds;
              refresh_token =
                  env.jwt_sign (payload_of u r s.id) env.jwt_refresh_secret w.now refresh_seconds;
            }))
          × ((refresh_token env req token w).1.db.refresh_tokens
              ≡ insert_row
                  (record {
                    id = w.serial;
                    auth_session = s.id;
                    token = env.sha256 (
                        env.jwt_sign
                          (payload_of u r s.id)
                          env.jwt_refresh_secret
                          w.now
                          refresh_seconds);
                    expires_at = w.now + refresh_token_term;
                    revoked = false;
                  })
                  (revoked_rows t w.db))
          × ((refresh_token env req token w).1.faults ≡ [])
          × ((refresh_token env req token w).1.now ≡ w.now)
    unfolding refresh_token find_one create_refresh_token create_audit
    refresh_live calm given e live session signed decoded user role =
        ground (arith, revoke_live env token w calm t e (le→ltb-false _ _ live.0) live.1)

-- The row of the token stays the one that its hash finds, whatever is appended.
row_after :
    (hash : String) (d : Db) (t x : AuthRefreshToken)
    → row_of_hash hash d ≡ some t
    → find (λ r. str_eq r.token hash) (insert_row x (revoked_rows t d))
      ≡ some (record t { revoked = true })
row_after hash d t x e =
    let found =
      find-update_where (λ r. str_eq r.token hash) (λ r. r.id == t.id)
        (λ r. record r { revoked = true }) d.refresh_tokens t (λ r. refl) e in
    find-insert_row_old _ x _ (revoked_rows t d) (rw (==_refl t.id) at found)

-- Where no external call fails: for a refresh token whose stored row is neither expired nor
-- revoked and whose JWT is valid, with its session, the user of its payload and that user's role
-- present, `refreshToken` answers an access token for that session signed with the user's own
-- secret and a new refresh token, whose hash is stored for the session; the old row is revoked,
-- and a second `refreshToken` with the old token is refused with `TOKEN_REVOKED`.
pub refresh_token_rotates :
    (env : Env) (req : Request) (token : String) (w : World) (t : AuthRefreshToken)
    (s : AuthSession) (u : User) (r : Role) (p q : Payload)
    → w.faults ≡ []
    → is_empty token ≡ false
    → row_of_hash (env.sha256 token) w.db ≡ some t
    → IsLive w t
    → session_by_id t.auth_session w.db ≡ some s
    → env.jwt_verify token env.jwt_refresh_secret w.now ≡ some q
    → env.jwt_decode token ≡ some p
    → user_by_id p.sub w.db ≡ some u
    → role_by_id u.role w.db ≡ some r
    → let renewed =
        env.jwt_sign (payload_of u r s.id) env.jwt_refresh_secret w.now refresh_seconds in
      ((refresh_token env req token w).0
        ≡ ok (record {
          access_token =
              env.jwt_sign
                (payload_of u r s.id)
                (str_append env.jwt_secret u.user_secret)
                w.now
                refreshed_access_seconds;
          refresh_token = renewed;
        }))
      × ((refresh_token env req token w).1.db.refresh_tokens
          ≡ insert_row
              (record {
                id = w.serial;
                auth_session = s.id;
                token = env.sha256 renewed;
                expires_at = w.now + refresh_token_term;
                revoked = false;
              })
              (update_where
                (λ x. x.id == t.id)
                (λ x. record x { revoked = true })
                w.db.refresh_tokens))
      × ((refresh_token env req token (refresh_token env req token w).1).0
          ≡ err (http token_revoked))
refresh_token_rotates env req token w t s u r p q calm given e live session signed decoded user
      role =
    let first =
      refresh_live env req token w t s u r p q calm given e live session signed decoded user role in
    let after = (refresh_token env req token w).1 in
    let row : row_of_hash (env.sha256 token) after.db ≡ some (record t { revoked = true }) =
      ap (find (λ x. str_eq x.token (env.sha256 token))) first.1
      ∙ row_after (env.sha256 token) w.db t _ e in
    (
      first.0,
      first.1,
      refresh_revoked env req token after (record t { revoked = true }) first.2 given row
          (rw (first.3) (live.0)) refl,
    )

-- Where no external call fails: a refresh token whose stored row is live but whose JWT is not
-- valid is answered with `INTERNAL_ERROR` and is revoked by the attempt: the same token is refused
-- with `TOKEN_REVOKED` the second time.
pub refresh_token_burned :
    (env : Env) (req : Request) (token : String) (w : World) (t : AuthRefreshToken)
    → w.faults ≡ []
    → is_empty token ≡ false
    → row_of_hash (env.sha256 token) w.db ≡ some t
    → IsLive w t
    → env.jwt_verify token env.jwt_refresh_secret w.now ≡ none
    → ((refresh_token env req token w).0 ≡ err (http internal_error))
      × ((refresh_token env req token (refresh_token env req token w).1).0
          ≡ err (http token_revoked))
refresh_token_burned env req token w t calm given e live forged =
    let first = refresh_unsigned env req token w t calm given e live forged in
    let found =
      find-update_where (λ r. str_eq r.token (env.sha256 token)) (λ r. r.id == t.id)
        (λ r. record r { revoked = true }) w.db.refresh_tokens t (λ r. refl) e in
    (
      ap (λ x. x.0) first,
      rw first (
          refresh_revoked env req token _ (record t { revoked = true }) calm given
            (rw (==_refl t.id) at found) live.0 refl),
    )
