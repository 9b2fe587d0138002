-- ===== src/Lists.antt =====
-- The lists in pages: `UsersController.findAll` (src/modules/users/users.controller.ts) and
-- `SessionController.findByUserId` (src/modules/users/session/session.controller.ts). The tables
-- are read through TypeORM's repositories, which are parameters.
use nestjs_auth_backend.Base.{ℕ, ◌≡◌, refl, false, true, not, none, some, List, arith}
use nestjs_auth_backend.Errors.{bad_request}
use nestjs_auth_backend.Entities.{User, UserSession}
use nestjs_auth_backend.World.{World, ok, Action, ◌>>◌, throw_if, Env, Payload}
use nestjs_auth_backend.World.Outcomes.{bind-ok}
use nestjs_auth_backend.DynamicQuery.{Repository}
use nestjs_auth_backend.Users.Listing.{DynamicQueryDto, UserPage, find_all, find_by_user_id}
use nestjs_auth_backend.Guards.{AuthOptions, auth, required_permissions}
use nestjs_auth_backend.Guards.Decisions.{IsPermitted}
use nestjs_auth_backend.Requests.{Incoming}
use nestjs_auth_backend.System.Entrance.{auth_passes}

abbrev list_users_options : AuthOptions
list_users_options = record {
  permission = some "users:read";
  allow_self = false;
  superadmin_only = true;
  reauth = false;
}

abbrev list_sessions_options : AuthOptions
list_sessions_options = record {
  permission = none;
  allow_self = false;
  superadmin_only = false;
  reauth = false;
}

module _ (env : Env) (r : Incoming) (q : DynamicQueryDto) where
  -- `GET /users`
  unfoldable pub handle_list_users : Repository User → Action UserPage
  handle_list_users repo = do
    auth env list_users_options r.http
    throw_if (not r.is_valid) bad_request
    find_all repo q

  -- `GET /sessions/:userId`
  unfoldable pub handle_list_sessions : Repository UserSession → ℕ → Action (List UserSession × ℕ)
  handle_list_sessions repo id = do
    auth env list_sessions_options r.http
    throw_if (not r.is_valid) bad_request
    find_by_user_id repo q id

  -- Only a super admin with the permission gets a page of the users.
  handle_list_users_sound :
      (repo : Repository User) (w : World) {page : UserPage}
      → (handle_list_users repo w).0 ≡ ok page
      → (p : Payload) × IsPermitted (required_permissions (some "users:read")) p
        × (p.role_name ≡ "super_admin")
  unfolding handle_list_users
  handle_list_users_sound repo w done =
      let rest = λ (p : Payload). throw_if (not r.is_valid) bad_request >> find_all repo q in
      let first = bind-ok (auth env list_users_options r.http) rest w done in
      let has = auth_passes env list_users_options r.http w first.1 in (first.0, has.1, has.2 refl)

  -- Every signed-in user gets the sessions of any user: the id of the path decides alone.
  handle_list_sessions_any :
      (repo : Repository UserSession) (w : World) (p : Payload) (id : ℕ)
      → (auth env list_sessions_options r.http w).0 ≡ ok p
      → r.is_valid ≡ true
      → (handle_list_sessions repo id w).0
        ≡ (find_by_user_id repo q id (auth env list_sessions_options r.http w).1).0
  unfolding handle_list_sessions
  handle_list_sessions_any repo w p id passed valid = ground arith
