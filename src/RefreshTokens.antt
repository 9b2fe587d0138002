-- ===== src/RefreshTokens.antt =====
-- src/modules/auth/refresh-tokens/refresh-tokens.service.ts: refresh tokens are kept as hashes.
pub mod Rotation
use nestjs_auth_backend.Base.{
  ℕ, ◌+◌, Bool, true, false, ◌&&◌, ◌||◌, not, Option, none, some, String, List, [], ◌∷◌,
  if◌then◌else◌, ltb, ◌==◌, str_eq, is_some, when_some, find, select, any, insert_row, update_where,
}
use nestjs_auth_backend.Errors.{token_not_found, token_revoked, crash}
use nestjs_auth_backend.Entities.{AuthRefreshToken, AuthSession}
use nestjs_auth_backend.Users.Lookup.{is_live_user}
use nestjs_auth_backend.World.{
  World, Db, Action, ◌>>=◌, ◌>>◌, pure, gets, query, execute, draw, try_catch, throw_if, or_throw,
  direct, manager, Conn, Env,
}

abbrev pub session_by_id : ℕ → Db → Option AuthSession
session_by_id id d = find (λ s. s.id == id) d.sessions

-- A row with its eagerly loaded session.
pub record LoadedToken : Type 0 where
  pub row : AuthRefreshToken
  pub session : Option AuthSession

abbrev pub load_token : Db → Option AuthRefreshToken → Option LoadedToken
load_token d none = none
load_token d (some t) = some (record { row = t; session = session_by_id t.auth_session d })

abbrev pub token_by_hash : String → Db → Option LoadedToken
token_by_hash hash d = load_token d (find (λ t. str_eq t.token hash) d.refresh_tokens)

abbrev pub revoke_rows : (AuthRefreshToken → Bool) → Db → Db
revoke_rows p d = record d {
  refresh_tokens = update_where p (λ t. record t { revoked = true }) d.refresh_tokens;
}

-- Whose the session of a token is, by its column.
abbrev pub owned_by : ℕ → Db → AuthRefreshToken → Bool
owned_by user_id d t = when_some (session_by_id t.auth_session d) (λ s. s.user == user_id)

-- `authSession: { user: { id: userId } }`: a join with the users that are not removed.
abbrev pub token_of_user : ℕ → Db → AuthRefreshToken → Bool
token_of_user user_id d t = owned_by user_id d t && is_live_user user_id d

abbrev pub live_tokens_of_user : ℕ → Db → List AuthRefreshToken
live_tokens_of_user user_id d =
    select (λ t. not t.revoked && token_of_user user_id d t) d.refresh_tokens

-- Seven days.
abbrev pub refresh_token_term : ℕ
refresh_token_term = 604_800_000

module _ (env : Env) where
  -- `createRefreshToken`
  unfoldable pub create_refresh_token : Conn → ℕ → String → Action (Unit {0})
  create_refresh_token repo auth_session refresh_token = do
    now ← gets (λ w. w.now)
    id ← draw
    try_catch (
        execute repo (λ d. record d {
          refresh_tokens =
              insert_row
                (record {
                  id = id;
                  auth_session = auth_session;
                  token = env.sha256 refresh_token;
                  expires_at = now + refresh_token_term;
                  revoked = false;
                })
                d.refresh_tokens;
        }))

  -- `revokeRefreshToken`: the session of the token.
  unfoldable pub revoke_refresh_token : String → Action (Option AuthSession)
  revoke_refresh_token refresh_token = do
    found ← try_catch (query direct (token_by_hash (env.sha256 refresh_token)))
    now ← gets (λ w. w.now)
    throw_if (not (when_some found (λ t. not (ltb t.row.expires_at now)))) token_not_found
    t ← or_throw found crash
    throw_if t.row.revoked token_revoked
    try_catch (do execute direct (revoke_rows (λ r. r.id == t.row.id)); pure t.session)

-- `revokeTokenWithSessionId`
unfoldable pub revoke_token_with_session_id : Conn → ℕ → Action (Unit {0})
revoke_token_with_session_id repo session_id =
    try_catch (execute repo (revoke_rows (λ t. t.auth_session == session_id)))

-- `repo.save(tokens)` after `revoked = true` on each; nothing is written for an empty list.
abbrev pub save_revoked : Conn → List AuthRefreshToken → Action (Unit {0})
save_revoked repo [] = pure tt
save_revoked repo (t ∷ ts) = execute repo (revoke_rows (λ r. any (λ x. x.id == r.id) (t ∷ ts)))

-- `revokeTokenWithUserId`: the rows are read from the service's own repository.
unfoldable pub revoke_token_with_user_id : Conn → ℕ → Action (Unit {0})
revoke_token_with_user_id repo user_id =
    try_catch (do rows ← query direct (live_tokens_of_user user_id); save_revoked repo rows)
