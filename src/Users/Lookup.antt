-- ===== src/Users/Lookup.antt =====
-- The lookups of src/modules/users/users.service.ts. Rows with a deletion date are no results.
use nestjs_auth_backend.Base.{
  ℕ, Bool, true, false, ◌&&◌, not, Option, none, some, String, ◌==◌, str_eq, is_some, find,
}
use nestjs_auth_backend.Errors.{user_not_found, crash, http}
use nestjs_auth_backend.Entities.{User, Role, UserStatus, active, UserAccountCredentials}
use nestjs_auth_backend.World.{Db, Action, ◌>>=◌, pure, query, try_catch, or_throw, direct}

abbrev pub live_user : (User → Bool) → Db → Option User
live_user p d = find (λ u. p u && not (is_some u.deleted_at)) d.users

abbrev pub user_by_id : ℕ → Db → Option User
user_by_id id = live_user (λ u. u.id == id)

-- What a join with `users` finds: the user is there and not removed.
abbrev pub is_live_user : ℕ → Db → Bool
is_live_user id d = is_some (user_by_id id d)

abbrev pub user_by_email : String → Db → Option User
user_by_email email = live_user (λ u. str_eq u.email email)

abbrev pub role_by_id : ℕ → Db → Option Role
role_by_id id d = find (λ r. r.id == id) d.roles

-- A user with its eagerly loaded role.
pub record LoadedUser : Type 0 where
  pub row : User
  pub role : Option Role

abbrev pub load_user : Db → Option User → Option LoadedUser
load_user d none = none
load_user d (some u) = some (record { row = u; role = role_by_id u.role d })

-- `findOne`, and `findById` with it
unfoldable pub find_one : ℕ → Action LoadedUser
find_one id = do
  found ← try_catch (query direct (λ d. load_user d (user_by_id id d)))
  or_throw found (http user_not_found)

-- `findOne` of an id that may be undefined: without the condition it is the first user.
unfoldable pub find_one_or_first : Option ℕ → Action LoadedUser
unfolding find_one
find_one_or_first (some id) = find_one id
find_one_or_first none = do
  found ← try_catch (query direct (λ d. load_user d (live_user (λ _. true) d)))
  or_throw found (http user_not_found)

-- `__findOneByEmail`
unfoldable pub find_user_by_email : String → Action (Option User)
find_user_by_email email = try_catch (query direct (user_by_email email))

-- What `findOneByEmail` returns: the user with the role and the password hash.
pub record Account : Type 0 where
  pub user : LoadedUser
  pub password : String

-- The row that its query joins: no credentials where the user has none.
pub record JoinedUser : Type 0 where
  pub user : LoadedUser
  pub user_account_credentials : Option UserAccountCredentials

abbrev pub join_user : Db → Option User → Option JoinedUser
join_user d none = none
join_user d (some u) = some (record {
  user = record { row = u; role = role_by_id u.role d };
  user_account_credentials = find (λ c. c.user == u.id) d.credentials;
})

-- `findOneByEmail`; without credentials `userAccountCredentials.password` is a `TypeError`.
unfoldable pub find_one_by_email : String → Action Account
find_one_by_email email = do
  found ← try_catch (query direct (λ d. join_user d (user_by_email email d)))
  joined ← or_throw found (http user_not_found)
  credentials ← or_throw joined.user_account_credentials crash
  pure (record { user = joined.user; password = credentials.password })

abbrev pub is_active_status : UserStatus → Bool
is_active_status active = true
is_active_status _ = false

-- `getUserSecret`: destructuring a missing row throws inside the `try`.
unfoldable pub get_user_secret : ℕ → Action String
get_user_secret id = try_catch (do
  found ← query direct (live_user (λ u. u.id == id && is_active_status u.status))
  user ← or_throw found crash
  pure user.user_secret)
