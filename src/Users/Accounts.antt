-- ===== src/Users/Accounts.antt =====
-- Creating and updating accounts: `create`, `update`, `__ValidateAndCreateUser`,
-- `__ValidateChangeEmail`, `updatePassword` and `remove` of src/modules/users/users.service.ts.
use nestjs_auth_backend.Base.{
  List, ℕ, Bool, true, false, ◌&&◌, ◌||◌, not, Option, none, some, String, ◌==◌, str_eq, when_some,
  find, any, insert_row, update_where, if◌then◌else◌,
}
use nestjs_auth_backend.Errors.{
  email_already_exists, document_exists, identity_type_not_found, internal_error, http,
}
use nestjs_auth_backend.Entities.{User, IdentityType, pending}
use nestjs_auth_backend.World.{
  Db, Action, ◌>>=◌, ◌>>◌, pure, throw, gets, query, execute, execute_unique, draw, try_catch,
  not_awaited, throw_if, or_throw, transaction, direct, manager, Conn, Env,
}
use nestjs_auth_backend.Roles.{get_name_role_or_create}
use nestjs_auth_backend.EmailChange.{create_request}
use nestjs_auth_backend.Users.Lookup.{live_user, find_one}

-- `CreateUserDto` and `UpdateUserDto` without the password; a missing property is `none`.
pub record UserDto : Type 0 where
  pub name : Option String
  pub lastname : Option String
  pub document_type_id : Option ℕ
  pub document : Option String
  pub email : Option String

-- A condition of a `where`: on an undefined value there is none.
abbrev pub asks_text : Option String → Option String → Bool
asks_text none column = true
asks_text (some v) column = when_some column (λ c. str_eq c v)

abbrev pub asks_id : Option ℕ → ℕ → Bool
asks_id none column = true
asks_id (some v) column = column == v

-- `IdentityTypesService.findAll`, the rows and their number
unfoldable pub find_all_identity_types : Action (List IdentityType)
find_all_identity_types = try_catch (query direct (λ d. d.identity_types))

-- `IdentityTypesService.findOne`
unfoldable pub find_identity_type : Option ℕ → Action IdentityType
find_identity_type id = do
  found ← try_catch (query direct (λ d. find (λ t. asks_id id t.id) d.identity_types))
  or_throw found (http identity_type_not_found)

abbrev pub user_asked_email : Option String → Db → Option User
user_asked_email email = live_user (λ u. asks_text email (some u.email))

abbrev pub user_asked_document : Option String → Db → Option User
user_asked_document document = live_user (λ u. asks_text document u.document)

-- `user && (!id || user.id !== id)`
abbrev pub is_other : Option ℕ → Option User → Bool
is_other id none = false
is_other none (some u) = true
is_other (some id) (some u) = not (u.id == id)

-- `if (id) this.findOne(id, i18n);`, not awaited
abbrev pub touch : Option ℕ → Action (Unit {0})
touch none = pure tt
touch (some id) = not_awaited (find_one id)

-- `__ValidateAndCreateUser`: the identity type; the rest of its result is the dto.
unfoldable pub validate_and_create_user : UserDto → Option ℕ → Action IdentityType
unfolding find_one find_identity_type
validate_and_create_user dto id = do
  touch id
  identity_type ← find_identity_type dto.document_type_id
  same_email ← query direct (user_asked_email dto.email)
  throw_if (is_other id same_email) email_already_exists
  same_document ← query direct (user_asked_document dto.document)
  throw_if (is_other id same_document) document_exists
  pure identity_type

abbrev pub same_text : Option String → Option String → Bool
same_text (some a) (some b) = str_eq a b
same_text _ _ = false

-- The unique indices of `users`, which removed users occupy too.
abbrev pub violates_unique : User → Db → Bool
violates_unique n d =
    any
      (λ u.
        not (u.id == n.id)
        && (str_eq u.email n.email
            || (same_text u.document n.document || str_eq u.user_secret n.user_secret)))
      d.users

-- What a missing property leaves as it was.
abbrev pub or_keep {ℓ} : {A : Type ℓ} → Option A → A → A
or_keep none old = old
or_keep (some new) old = new

abbrev pub keep_or_some {ℓ} : {A : Type ℓ} → Option A → Option A → Option A
keep_or_some none old = old
keep_or_some (some new) old = some new

-- The columns of an update: the email only where `email` is given.
abbrev pub apply_update : UserDto → IdentityType → Option String → User → User
apply_update dto t email u = record u {
  name = or_keep dto.name u.name;
  lastname = keep_or_some dto.lastname u.lastname;
  identity_type = some t.id;
  document = keep_or_some dto.document u.document;
  email = or_keep email u.email;
}

abbrev pub update_user : ℕ → (User → User) → Db → Db
update_user id f d = record d { users = update_where (λ u. u.id == id) f d.users }

abbrev pub update_clashes : ℕ → (User → User) → Db → Bool
update_clashes id f d = when_some (find (λ u. u.id == id) d.users) (λ u. violates_unique (f u) d)

-- `__ValidateChangeEmail`: the old email if the update changes it.
abbrev pub validate_change_email : User → Option String → ℕ → Action (Option String)
validate_change_email user new_email id = do
  found ← query direct (user_asked_email new_email)
  throw_if (is_other (some id) found) email_already_exists
  pure (if same_text (some user.email) new_email then none else some user.email)

module _ (env : Env) where
  -- `create`
  unfoldable pub create_user : Conn → UserDto → Action User
  unfolding validate_and_create_user get_name_role_or_create
  create_user repo dto = do
    identity_type ← validate_and_create_user dto none
    seed ← draw
    role ← get_name_role_or_create env env.rol_user_default
    name ← or_throw dto.name (http internal_error)
    email ← or_throw dto.email (http internal_error)
    now ← gets (λ w. w.now)
    id ← draw
    let row : User = record {
      id = id;
      avatar = none;
      name = name;
      lastname = dto.lastname;
      identity_type = some identity_type.id;
      document = dto.document;
      email = email;
      role = role.id;
      status = pending;
      user_secret = env.uuidv7 seed;
      created_at = now;
      deleted_at = none;
    }
    try_catch (
        execute_unique repo (violates_unique row) (λ d. record d { users = insert_row row d.users })
        >> pure row)

  -- The request of the transaction in `update`; a null `newEmail` is refused by its column.
  abbrev pub request_change : ℕ → String → Option String → Action (Unit {0})
  request_change user_id old_email none = throw (http internal_error)
  request_change user_id old_email (some email) = create_request env manager user_id old_email email

  -- The `try` of `update`.
  abbrev pub save_update : ℕ → UserDto → IdentityType → Option String → Action (Unit {0})
  save_update id dto t none =
      execute_unique direct (update_clashes id (apply_update dto t dto.email))
        (update_user id (apply_update dto t dto.email))
  save_update id dto t (some old_email) = transaction (do
    execute_unique manager (update_clashes id (apply_update dto t none))
        (update_user id (apply_update dto t none))
    query manager (live_user (λ u. u.id == id))
    request_change id old_email dto.email)

  -- `update`
  unfoldable pub update : ℕ → UserDto → Action (Unit {0})
  unfolding validate_and_create_user find_one create_request
  update id dto = do
    identity_type ← validate_and_create_user dto (some id)
    user ← find_one id
    change ← validate_change_email user.row dto.email id
    try_catch (save_update id dto identity_type change)

  -- `updatePassword`: a new secret, which every access token of the user is signed with.
  unfoldable pub update_password : Conn → ℕ → Action (Unit {0})
  update_password repo id = do
    seed ← draw
    try_catch (execute repo (update_user id (λ u. record u { user_secret = env.uuidv7 seed })))

-- `remove`, as long as the process runs: its call of `findOne` is not awaited, and its rejection is
-- one that nothing handles. `softDelete` writes the rows that are removed already, too.
unfoldable pub remove : ℕ → Action (Unit {0})
unfolding find_one
remove id = do
  not_awaited (find_one id)
  now ← gets (λ w. w.now)
  try_catch (
      execute direct (λ d. record d {
        users = update_where (λ u. u.id == id) (λ u. record u { deleted_at = some now }) d.users;
      }))
