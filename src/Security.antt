-- ===== src/Security.antt =====
-- src/modules/users/security/security.service.ts: the second-factor settings of a user.
use nestjs_auth_backend.Base.{ℕ, false, Option, none, some, ◌==◌, find, insert_row, update_where}
use nestjs_auth_backend.Entities.{UserSecurity}
use nestjs_auth_backend.World.{
  Db, Action, ◌>>=◌, ◌>>◌, pure, query, execute, draw, try_catch, direct, Conn,
}

abbrev pub security_of : ℕ → Db → Option UserSecurity
security_of user_id d = find (λ s. s.user == user_id) d.securities

-- The `save` of `create`, for a user that has no row; `undefined` for one that has.
abbrev pub insert_security : Conn → ℕ → Option UserSecurity → Action (Option UserSecurity)
insert_security repo user_id (some s) = pure none
insert_security repo user_id none = do
  id ← draw
  let row : UserSecurity = record {
    id = id;
    user = user_id;
    two_factor_enabled = false;
    two_factor_type = none;
    two_factor_data = none;
    last_changed_at = none;
  }
  try_catch
      (execute repo (λ d. record d { securities = insert_row row d.securities }) >> pure (some row))

-- `create`; its lookup stands outside the `try`.
unfoldable pub create_security : Conn → ℕ → Action (Option UserSecurity)
create_security repo user_id = query direct (security_of user_id) >>= insert_security repo user_id

abbrev pub or_create : ℕ → Option UserSecurity → Action (Option UserSecurity)
or_create user_id (some s) = pure (some s)
or_create user_id none = create_security Conn.direct user_id

-- `findOneByUser`
unfoldable pub find_one_by_user : ℕ → Action (Option UserSecurity)
unfolding create_security
find_one_by_user user_id = try_catch (query direct (security_of user_id)) >>= or_create user_id

-- `save` of a row that was loaded
unfoldable pub save_security : UserSecurity → Action (Unit {0})
save_security s = try_catch (
    execute direct
      (λ d. record d { securities = update_where (λ r. r.id == s.id) (λ _. s) d.securities }))
