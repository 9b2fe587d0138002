-- ===== src/Credentials.antt =====
-- src/modules/users/credentials/credentials.service.ts: password hashes.
use nestjs_auth_backend.Base.{
  ℕ, Bool, true, not, Option, none, some, String, ◌==◌, str_eq, is_some, when_some, find,
  insert_row, update_where,
}
use nestjs_auth_backend.Errors.{user_has_credentials, passwords_does_not_match, crash}
use nestjs_auth_backend.Entities.{UserAccountCredentials}
use nestjs_auth_backend.World.{
  Db, Action, ◌>>=◌, ◌>>◌, pure, query, execute, draw, try_catch, throw_if, or_throw, direct, Conn,
  Env,
}
use nestjs_auth_backend.Users.Lookup.{user_by_id, find_user_by_email}

abbrev pub credentials_of : ℕ → Db → Option UserAccountCredentials
credentials_of user_id d = find (λ c. c.user == user_id) d.credentials

-- `findOneBy({ user: { email } })`: a join with the users that are not removed.
abbrev pub credentials_by_email : String → Db → Option UserAccountCredentials
credentials_by_email email d =
    find (λ c. when_some (user_by_id c.user d) (λ u. str_eq u.email email)) d.credentials

module _ (env : Env) where
  -- `create`
  unfoldable pub create_credentials : Conn → ℕ → String → Action UserAccountCredentials
  create_credentials repo user_id password = do
    salt ← draw
    exists ← query direct (credentials_of user_id)
    throw_if (is_some exists) user_has_credentials
    id ← draw
    let row : UserAccountCredentials = record {
      id = id;
      user = user_id;
      password = env.bcrypt_hash password salt;
      is_active = true;
    }
    try_catch
        (execute repo (λ d. record d { credentials = insert_row row d.credentials }) >> pure row)

  -- The row that `updatePassword` writes to: the one found, or a new one for the email's user.
  abbrev pub ensure_credentials :
      Conn → String → String → Option UserAccountCredentials → Action UserAccountCredentials
  ensure_credentials repo email password (some c) = pure c
  ensure_credentials repo email password none = do
    found ← find_user_by_email email
    user ← or_throw found crash
    create_credentials repo user.id password

  -- `updatePassword`
  unfoldable pub update_credentials : Conn → String → String → String → Action (Unit {0})
  unfolding create_credentials
  update_credentials repo email password password_confirm = do
    found ← query direct (credentials_by_email email)
    credential ← ensure_credentials repo email password found
    throw_if (not (str_eq password password_confirm)) passwords_does_not_match
    salt ← draw
    try_catch (
        execute repo (λ d. record d {
          credentials =
              update_where (λ c. c.id == credential.id)
                (λ c. record c { password = env.bcrypt_hash password salt }) d.credentials;
        }))

  -- The decision of `validateReathPassword`.
  abbrev pub judge_reauth : String → Option UserAccountCredentials → Bool
  judge_reauth password none = str_eq password ""
  judge_reauth password (some c) = env.bcrypt_compare password c.password

  -- `validateReathPassword`
  unfoldable pub validate_reauth_password : ℕ → String → Action Bool
  validate_reauth_password user_id password = do
    found ← try_catch (query direct (credentials_of user_id))
    pure (judge_reauth password found)
