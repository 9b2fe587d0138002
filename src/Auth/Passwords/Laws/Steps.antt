-- ===== src/Auth/Passwords/Laws/Steps.antt =====
-- What the steps of the two transactions leave alone while they write through the manager.
use nestjs_auth_backend.Base.{ℕ, Option, none, some, String, []}
use nestjs_auth_backend.Entities.{User, Role, UserAccountCredentials, UserSecurity}
use nestjs_auth_backend.World.{Db, manager, Env}
use nestjs_auth_backend.World.Rules.{Leaves, leaves_rules, Leaves-execute_unique}
use nestjs_auth_backend.Credentials.{create_credentials, ensure_credentials, update_credentials}
use nestjs_auth_backend.Roles.{get_name_role_or_create, create_role}
use nestjs_auth_backend.Security.{create_security, insert_security}
use nestjs_auth_backend.Tokens.{update_token_is_used, create_token_email_verification}
use nestjs_auth_backend.Users.Lookup.{find_user_by_email, find_one}
use nestjs_auth_backend.Users.Accounts.{
  UserDto, find_identity_type, touch, validate_and_create_user, create_user, update_password,
}

abbrev pub whole : Db → Db
whole d = d

-- Every table but the roles.
abbrev pub except_roles : Db → Db
except_roles d = record d { roles = [] }

module _ {B : Type 0} (part : Db → B) where
  find_user_by_email-Leaves : (address : String) → Leaves part (find_user_by_email address)
  unfolding find_user_by_email
  find_user_by_email-Leaves address = search leaves_rules depth 20

  find_one-Leaves : (id : ℕ) → Leaves part (find_one id)
  unfolding find_one
  find_one-Leaves id = search leaves_rules depth 20

  find_identity_type-Leaves : (id : Option ℕ) → Leaves part (find_identity_type id)
  unfolding find_identity_type
  find_identity_type-Leaves id = search leaves_rules depth 20

  touch-Leaves : (id : Option ℕ) → Leaves part (touch id)
  touch-Leaves none = search leaves_rules depth 20
  touch-Leaves (some id) = search (leaves_rules, find_one-Leaves) depth 20

  validate_and_create_user-Leaves :
      (dto : UserDto) (id : Option ℕ) → Leaves part (validate_and_create_user dto id)
  unfolding validate_and_create_user
  validate_and_create_user-Leaves dto id =
      search (leaves_rules, touch-Leaves, find_identity_type-Leaves) depth 20

  pub update_token_is_used-Leaves :
      (token : String) → Leaves part (update_token_is_used manager token)
  unfolding update_token_is_used
  update_token_is_used-Leaves token = search leaves_rules depth 20

  insert_security-Leaves :
      (user_id : ℕ) (found : Option UserSecurity)
      → Leaves part (insert_security manager user_id found)
  insert_security-Leaves user_id none = search leaves_rules depth 20
  insert_security-Leaves user_id (some s) = search leaves_rules depth 20

  pub create_security-Leaves : (user_id : ℕ) → Leaves part (create_security manager user_id)
  unfolding create_security
  create_security-Leaves user_id = search (leaves_rules, insert_security-Leaves) depth 20

module _ {B : Type 0} (part : Db → B) (env : Env) where
  pub create_credentials-Leaves :
      (user_id : ℕ) (password : String)
      → Leaves part (create_credentials env manager user_id password)
  unfolding create_credentials
  create_credentials-Leaves user_id password = search leaves_rules depth 20

  ensure_credentials-Leaves :
      (address password : String) (found : Option UserAccountCredentials)
      → Leaves part (ensure_credentials env manager address password found)
  ensure_credentials-Leaves address password none =
      search (leaves_rules, find_user_by_email-Leaves, create_credentials-Leaves) depth 20
  ensure_credentials-Leaves address password (some c) = search leaves_rules depth 20

  pub update_credentials-Leaves :
      (address password password_confirm : String)
      → Leaves part (update_credentials env manager address password password_confirm)
  unfolding update_credentials
  update_credentials-Leaves address password password_confirm =
      search (leaves_rules, ensure_credentials-Leaves) depth 20

  pub update_password-Leaves : (id : ℕ) → Leaves part (update_password env manager id)
  unfolding update_password
  update_password-Leaves id = search leaves_rules depth 20

  pub create_token-Leaves :
      (user : User) → Leaves part (create_token_email_verification env manager user)
  unfolding create_token_email_verification
  create_token-Leaves user = search leaves_rules depth 20

module _ (env : Env) where
  create_role-Leaves :
      (name : String) (found : Option Role) → Leaves except_roles (create_role env name found)
  create_role-Leaves name none = search (leaves_rules, Leaves-execute_unique) depth 20
  create_role-Leaves name (some r) = search leaves_rules depth 20

  role-Leaves : (name : String) → Leaves except_roles (get_name_role_or_create env name)
  unfolding get_name_role_or_create
  role-Leaves name = search (leaves_rules, create_role-Leaves) depth 20

  pub create_user-Leaves : (dto : UserDto) → Leaves except_roles (create_user env manager dto)
  unfolding create_user
  create_user-Leaves dto =
      search (leaves_rules, validate_and_create_user-Leaves, role-Leaves) depth 20
