-- ===== src/Users/Profile.antt =====
-- `verifyEmail`, `validateOAuthUser`, `changeRole` and `me` of src/modules/users/users.service.ts.
use nestjs_auth_backend.Base.{ℕ, Option, none, some, String, List, insert_row}
use nestjs_auth_backend.Errors.{crash}
use nestjs_auth_backend.Entities.{User, UserAccountOAuth, active, change_role_user}
use nestjs_auth_backend.World.{
  Action, ◌>>=◌, ◌>>◌, pure, gets, execute, execute_unique, draw, try_catch, or_throw, direct, Conn,
  Env,
}
use nestjs_auth_backend.Tokens.{find_one_by_token, update_token_is_used}
use nestjs_auth_backend.OAuth.{OAuthProfile, get_user_with_provider, find_all_oauth_with_user}
use nestjs_auth_backend.Roles.{get_name_role_or_create, find_role}
use nestjs_auth_backend.AuditLog.{create_audit}
use nestjs_auth_backend.Users.Lookup.{LoadedUser, find_one, find_user_by_email}
use nestjs_auth_backend.Users.Accounts.{update_user, violates_unique}

-- What the audit log keeps of a request.
pub record RequestInfo : Type 0 where
  pub ip : String
  pub user_agent : Option String

-- `verifyEmail`: the email of the token's user, who becomes active.
unfoldable pub verify_email : String → Action String
unfolding find_one_by_token update_token_is_used
verify_email token = do
  user_token ← find_one_by_token token
  user ← or_throw user_token.user crash
  try_catch (execute direct (update_user user.id (λ u. record u { status = active })))
  update_token_is_used direct token
  pure user.email

module _ (env : Env) where
  -- The user that `__ValidateProviderUser` looks up by email, where no account is linked.
  abbrev pub or_by_email : String → Option User → Action (Option User)
  or_by_email email (some u) = pure (some u)
  or_by_email email none = find_user_by_email email

  -- The active user that `validateOAuthUser` makes of a profile, where none is found.
  abbrev pub or_new_user : Conn → OAuthProfile → Option User → Action User
  or_new_user repo profile (some u) = pure u
  or_new_user repo profile none = do
    role ← get_name_role_or_create env env.rol_user_default
    seed ← draw
    now ← gets (λ w. w.now)
    id ← draw
    let row : User = record {
      id = id;
      avatar = profile.avatar;
      name = profile.name;
      lastname = profile.lastname;
      identity_type = none;
      document = none;
      email = profile.email;
      role = role.id;
      status = active;
      user_secret = env.uuidv7 seed;
      created_at = now;
      deleted_at = none;
    }
    execute_unique repo (violates_unique row) (λ d. record d { users = insert_row row d.users })
    pure row

  -- `validateOAuthUser`, `__ValidateProviderUser` included; its `save` stands outside any `try`.
  unfoldable pub validate_oauth_user : Conn → OAuthProfile → Action User
  unfolding get_name_role_or_create
  validate_oauth_user repo profile =
      get_user_with_provider profile.provider_id profile.provider
      >>= or_by_email profile.email
      >>= or_new_user repo profile

-- `changeRole`; the audit row calls the old role `after` and the new one `before`.
unfoldable pub change_role : RequestInfo → ℕ → ℕ → ℕ → Action (Unit {0})
unfolding find_one find_role create_audit
change_role req user_logged user_id role_id = do
  user ← find_one user_id
  role ← find_role role_id
  try_catch (do
    execute direct (update_user user_id (λ u. record u { role = role.id }))
    create_audit (record {
      event = change_role_user;
      actor_id = some user_logged;
      ip = req.ip;
      user_agent = req.user_agent;
      after = some user.row.role;
      before = some role.id;
    }))

-- `me`
unfoldable pub me : ℕ → Action (LoadedUser × List UserAccountOAuth)
unfolding find_one find_all_oauth_with_user
me sub = do user ← find_one sub; oauths ← find_all_oauth_with_user sub; pure (user, oauths)
