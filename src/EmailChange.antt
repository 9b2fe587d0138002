-- ===== src/EmailChange.antt =====
-- The change of an email address in two steps, and its rollback:
-- src/modules/users/email-change-request/email-change-request.service.ts and
-- src/modules/users/email-log-changes/email-log-changes.service.ts.
pub mod Laws
pub mod RoundTrip
use nestjs_auth_backend.Base.{
  ℕ, ◌+◌, Bool, true, false, ◌&&◌, ◌||◌, not, Option, some, String, ◌==◌, str_eq, find, any,
  insert_row, update_where, ltb,
}
use nestjs_auth_backend.Errors.{token_not_found, token_expired, crash, http}
use nestjs_auth_backend.Entities.{UserEmailChangeRequest, UserEmailChangeLog, User}
use nestjs_auth_backend.World.{
  Db, Action, ◌>>=◌, ◌>>◌, pure, gets, query, execute, execute_unique, draw, try_catch, throw_if,
  or_throw, transaction, send_mail, direct, manager, Conn, Env,
}
use nestjs_auth_backend.Users.Lookup.{user_by_id, find_one}

abbrev pub one_day : ℕ
one_day = 86_400_000

-- The unique index on `users.email`, removed users included.
abbrev pub email_taken : ℕ → String → Db → Bool
email_taken id email d = any (λ u. str_eq u.email email && not (u.id == id)) d.users

abbrev pub set_email : ℕ → String → Db → Db
set_email id email d = record d {
  users = update_where (λ u. u.id == id) (λ u. record u { email = email }) d.users;
}

-- `UsersService.updateEmail` (src/modules/users/users.service.ts)
unfoldable pub update_email : Conn → ℕ → String → Action (Unit {0})
update_email repo id email =
    try_catch (execute_unique repo (email_taken id email) (set_email id email))

module _ (env : Env) where
  -- `EmailChangeRequestService.create`
  unfoldable pub create_request : Conn → ℕ → String → String → Action (Unit {0})
  create_request repo user_id old_email new_email = do
    now ← gets (λ w. w.now)
    seed ← draw
    id ← draw
    try_catch (do
      execute repo (λ d. record d {
        email_requests =
            insert_row
              (record {
                id = id;
                user = user_id;
                old_email = old_email;
                new_email = new_email;
                token_hash = env.sha256 (env.uuidv7 seed);
                expires_at = now + one_day;
                used = false;
              })
              d.email_requests;
      })
      send_mail old_email "user-change-email-request" (some (env.uuidv7 seed)))

  -- `EmailLogChangesService.changeEmail`: the rollback token.
  unfoldable pub log_change : Conn → ℕ → String → String → Action String
  unfolding find_one
  log_change repo user_id old_email new_email = do
    user ← find_one user_id
    seed ← draw
    now ← gets (λ w. w.now)
    id ← draw
    try_catch (
        execute repo (λ d. record d {
          email_logs =
              insert_row
                (record {
                  id = id;
                  user = user.row.id;
                  old_email = old_email;
                  new_email = new_email;
                  rollback_token = env.uuidv7 seed;
                  expires_at = now + one_day;
                  revoked = false;
                })
                d.email_logs;
        })
        >> pure (env.uuidv7 seed))

  abbrev pub request_by_token : String → Db → Option UserEmailChangeRequest
  request_by_token token d = find (λ r. str_eq r.token_hash (env.sha256 token)) d.email_requests

  -- The transaction of `changeEmail`.
  abbrev pub apply_request : UserEmailChangeRequest → User → Action String
  apply_request r user = transaction (do
    rollback_token ← log_change manager user.id r.old_email r.new_email
    update_email manager user.id r.new_email
    execute manager (λ d. record d {
      email_requests =
          update_where (λ x. x.id == r.id) (λ x. record x { used = true }) d.email_requests;
    })
    pure rollback_token)

  -- `EmailChangeRequestService.changeEmail`
  unfoldable pub change_email : String → Action (Unit {0})
  unfolding log_change update_email
  change_email token = do
    found ← query direct (request_by_token token)
    r ← or_throw found (http token_not_found)
    now ← gets (λ w. w.now)
    throw_if (ltb r.expires_at now || r.used) token_expired
    owner ← gets (λ w. user_by_id r.user w.db)
    user ← or_throw owner crash
    rollback_token ← apply_request r user
    send_mail r.old_email "auth-email-update" (some rollback_token)

-- The transaction of `rollbackEmail`.
abbrev pub restore_email : UserEmailChangeLog → Action (Unit {0})
restore_email l = transaction (do
  execute manager (λ d. record d {
    email_logs = update_where (λ x. x.id == l.id) (λ x. record x { revoked = true }) d.email_logs;
  })
  execute_unique manager (email_taken l.user l.old_email) (set_email l.user l.old_email))

-- `EmailLogChangesService.rollbackEmail`
unfoldable pub rollback_email : String → Action (Unit {0})
rollback_email token = do
  found ← query direct (λ d. find (λ l. str_eq l.rollback_token token) d.email_logs)
  l ← or_throw found (http token_not_found)
  now ← gets (λ w. w.now)
  throw_if (ltb l.expires_at now || l.revoked) token_expired
  owner ← gets (λ w. user_by_id l.user w.db)
  user ← or_throw owner crash
  try_catch (restore_email l)
