-- ===== src/Roles.antt =====
-- src/modules/roles/roles.service.ts.
use nestjs_auth_backend.Base.{
  ℕ, Option, none, some, String, List, str_eq, is_some, find, insert_row,
}
use nestjs_auth_backend.Permissions.{normalize_permissions}
use nestjs_auth_backend.Errors.{rol_not_found, http}
use nestjs_auth_backend.Entities.{Role}
use nestjs_auth_backend.World.{
  Db, Action, ◌>>=◌, ◌>>◌, pure, query, execute_unique, draw, try_catch, or_throw, direct, Env,
}
use nestjs_auth_backend.Users.Lookup.{role_by_id}

-- `findAll`, the rows and their number
unfoldable pub find_all_roles : Action (List Role)
find_all_roles = try_catch (query direct (λ d. d.roles))

-- `findOne`
unfoldable pub find_role : ℕ → Action Role
find_role id = do
  found ← try_catch (query direct (role_by_id id))
  or_throw found (http rol_not_found)

abbrev pub role_by_name : String → Db → Option Role
role_by_name name d = find (λ r. str_eq r.name name) d.roles

module _ (env : Env) where
  abbrev pub create_role : String → Option Role → Action Role
  create_role name (some r) = pure r
  create_role name none = do
    id ← draw
    let row : Role = record {
      id = id;
      name = name;
      permissions = env.pg_array (normalize_permissions env.rol_permission_default);
    }
    try_catch (
        execute_unique direct (λ d. is_some (role_by_name name d))
          (λ d. record d { roles = insert_row row d.roles })
        >> pure row)

  -- `getNameRoleOrCreate`
  unfoldable pub get_name_role_or_create : String → Action Role
  get_name_role_or_create name = try_catch (query direct (role_by_name name)) >>= create_role name
