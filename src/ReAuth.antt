-- ===== src/ReAuth.antt =====
-- src/modules/auth/re-auth/re-auth.service.ts: short-lived tokens for sensitive operations.
pub mod Tokens
use nestjs_auth_backend.Base.{
  ℕ, ◌+◌, Bool, true, false, ◌&&◌, ◌||◌, not, Option, none, some, String, List, [], ◌∷◌,
  if◌then◌else◌, ltb, ◌==◌, str_eq, when_some, find, select, any, insert_row, update_where,
}
use nestjs_auth_backend.Errors.{invalid_password, invalid_reauth_token, crash}
use nestjs_auth_backend.Entities.{AuthReAuthToken}
use nestjs_auth_backend.World.{
  World, Db, Action, ◌>>=◌, ◌>>◌, pure, gets, query, execute, draw, try_catch, throw_if, or_throw,
  direct, Conn, Env,
}
use nestjs_auth_backend.Credentials.{validate_reauth_password}

-- `user: { id: userId }` in a `where`: TypeORM leaves a condition on an undefined value out.
abbrev pub of_user : Option ℕ → AuthReAuthToken → Bool
of_user none t = true
of_user (some id) t = t.user == id

abbrev pub revoke_reauth : (AuthReAuthToken → Bool) → Db → Db
revoke_reauth p d = record d {
  reauth_tokens = update_where p (λ t. record t { revoked = true }) d.reauth_tokens;
}

abbrev pub reauth_term : ℕ
reauth_term = 300_000

abbrev pub live_reauth : Option ℕ → Db → List AuthReAuthToken
live_reauth user_id d = select (λ t. of_user user_id t && not t.revoked) d.reauth_tokens

-- `repo.save(reauthTokens)` after `revoked = true` on each.
abbrev pub save_revoked_reauth : Conn → List AuthReAuthToken → Action (Unit {0})
save_revoked_reauth repo [] = pure tt
save_revoked_reauth repo (t ∷ ts) =
    execute repo (revoke_reauth (λ r. any (λ x. x.id == r.id) (t ∷ ts)))

module _ (env : Env) where
  -- `reauthenticate`: the new token, which revokes the user's earlier ones.
  unfoldable pub reauthenticate : ℕ → String → Action String
  reauthenticate user_id password = do
    is_valid ← try_catch (validate_reauth_password env user_id password)
    throw_if (not is_valid) invalid_password
    seed ← draw
    try_catch (execute direct (revoke_reauth (of_user (some user_id))))
    now ← gets (λ w. w.now)
    id ← draw
    try_catch (
        execute direct (λ d. record d {
          reauth_tokens =
              insert_row
                (record {
                  id = id;
                  user = user_id;
                  token = env.sha256 (env.uuidv7 seed);
                  expires_at = now + reauth_term;
                  revoked = false;
                })
                d.reauth_tokens;
        }))
    pure (env.uuidv7 seed)

  abbrev pub reauth_by_token : Option ℕ → String → Db → Option AuthReAuthToken
  reauth_by_token user_id token d =
      find (λ t. of_user user_id t && (str_eq t.token (env.sha256 token) && not t.revoked))
        d.reauth_tokens

  -- `consumeToken`; the user id is undefined where the caller passes a missing property.
  unfoldable pub consume_token : Conn → Option ℕ → String → Action (Unit {0})
  consume_token repo user_id token = do
    found ← try_catch (query direct (reauth_by_token user_id token))
    now ← gets (λ w. w.now)
    throw_if (not (when_some found (λ t. not (ltb t.expires_at now) && not t.revoked)))
        invalid_reauth_token
    t ← or_throw found crash
    throw_if (not (str_eq (env.sha256 token) t.token)) invalid_reauth_token
    try_catch (do rows ← query direct (live_reauth user_id); save_revoked_reauth repo rows)

  -- `validate`
  unfoldable pub validate : Option ℕ → String → Action Bool
  unfolding consume_token
  validate user_id token = consume_token direct user_id token >> pure true
