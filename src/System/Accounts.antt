-- ===== src/System/Accounts.antt =====
-- `UsersService` and the change of an email address.
use nestjs_auth_backend.Base.{ℕ, String, Option, none, some}
use nestjs_auth_backend.Entities.{User, IdentityType}
use nestjs_auth_backend.World.{Db, Conn, Env}
use nestjs_auth_backend.World.Invariants.{Keeps, keeps_rules}
use nestjs_auth_backend.System.Stable.{Stable, StableRoles}
use nestjs_auth_backend.OAuth.{OAuthProfile}
use nestjs_auth_backend.Users.Accounts.{
  UserDto, find_identity_type, find_all_identity_types, touch, validate_and_create_user,
  create_user, request_change, save_update, update, update_password, remove,
}
use nestjs_auth_backend.Users.Profile.{
  RequestInfo, verify_email, or_by_email, or_new_user, validate_oauth_user, change_role, me,
}
use nestjs_auth_backend.EmailChange.{
  create_request, log_change, update_email, change_email, rollback_email,
}
use nestjs_auth_backend.System.Services.{create_audit-Keeps}
use nestjs_auth_backend.System.Tables.{
  find_one-Keeps, find_user_by_email-Keeps, update_token_is_used-Keeps, find_one_by_token-Keeps,
  get_user_with_provider-Keeps, find_all_oauth_with_user-Keeps, find_role-Keeps,
  get_name_role_or_create-Keeps,
}

module _ (P : Db → Type 0) (s : Stable P) where
  pub find_identity_type-Keeps : (id : Option ℕ) → Keeps P (find_identity_type id)
  unfolding find_identity_type
  find_identity_type-Keeps id = search keeps_rules depth 30

  pub find_all_identity_types-Keeps : Keeps P find_all_identity_types
  unfolding find_all_identity_types
  find_all_identity_types-Keeps = search keeps_rules depth 30

  touch-Keeps : (id : Option ℕ) → Keeps P (touch id)
  touch-Keeps none = search keeps_rules depth 30
  touch-Keeps (some n) = search (keeps_rules, find_one-Keeps P s) depth 30

  pub validate_and_create_user-Keeps :
      (dto : UserDto) (id : Option ℕ) → Keeps P (validate_and_create_user dto id)
  unfolding validate_and_create_user
  validate_and_create_user-Keeps dto id =
      search (keeps_rules, touch-Keeps, find_identity_type-Keeps) depth 30

  pub create_user-Keeps :
      (env : Env) (repo : Conn) (dto : UserDto) → Keeps P (create_user env repo dto)
  unfolding create_user
  create_user-Keeps env repo dto =
      search
        (
          keeps_rules,
          validate_and_create_user-Keeps,
          get_name_role_or_create-Keeps P s,
          s.user_added,
        )
        depth 30

  pub create_request-Keeps :
      (env : Env) (repo : Conn) (user_id : ℕ) (old_email new_email : String)
      → Keeps P (create_request env repo user_id old_email new_email)
  unfolding create_request
  create_request-Keeps env repo user_id old_email new_email =
      search (keeps_rules, s.request_added) depth 30

  request_change-Keeps :
      (env : Env) (user_id : ℕ) (old_email : String) (new_email : Option String)
      → Keeps P (request_change env user_id old_email new_email)
  request_change-Keeps env user_id old_email none = search keeps_rules depth 30
  request_change-Keeps env user_id old_email (some x) =
      search (keeps_rules, create_request-Keeps) depth 30

  save_update-Keeps :
      (env : Env) (id : ℕ) (dto : UserDto) (type : IdentityType) (change : Option String)
      → Keeps P (save_update env id dto type change)
  save_update-Keeps env id dto type none = search (keeps_rules, s.user_updated) depth 30
  save_update-Keeps env id dto type (some x) =
      search (keeps_rules, request_change-Keeps, s.user_updated) depth 30

  pub update-Keeps : (env : Env) (id : ℕ) (dto : UserDto) → Keeps P (update env id dto)
  unfolding update
  update-Keeps env id dto =
      search (keeps_rules, validate_and_create_user-Keeps, find_one-Keeps P s, save_update-Keeps)
        depth 30

  pub update_password-Keeps :
      (env : Env) (repo : Conn) (id : ℕ) → Keeps P (update_password env repo id)
  unfolding update_password
  update_password-Keeps env repo id = search (keeps_rules, s.user_saved) depth 30

  pub remove-Keeps : (id : ℕ) → Keeps P (remove id)
  unfolding remove
  remove-Keeps id = search (keeps_rules, find_one-Keeps P s, s.user_saved) depth 30

  pub verify_email-Keeps : (token : String) → Keeps P (verify_email token)
  unfolding verify_email
  verify_email-Keeps token =
      search
        (keeps_rules, find_one_by_token-Keeps P s, update_token_is_used-Keeps P s, s.user_saved)
        depth 30

  or_by_email-Keeps :
      (env : Env) (address : String) (found : Option User) → Keeps P (or_by_email env address found)
  or_by_email-Keeps env address none = search (keeps_rules, find_user_by_email-Keeps P s) depth 30
  or_by_email-Keeps env address (some x) = search keeps_rules depth 30

  or_new_user-Keeps :
      (env : Env) (repo : Conn) (profile : OAuthProfile) (found : Option User)
      → Keeps P (or_new_user env repo profile found)
  or_new_user-Keeps env repo profile none =
      search (keeps_rules, get_name_role_or_create-Keeps P s, s.user_added) depth 30
  or_new_user-Keeps env repo profile (some x) = search keeps_rules depth 30

  pub validate_oauth_user-Keeps :
      (env : Env) (repo : Conn) (profile : OAuthProfile)
      → Keeps P (validate_oauth_user env repo profile)
  unfolding validate_oauth_user
  validate_oauth_user-Keeps env repo profile =
      search (keeps_rules, get_user_with_provider-Keeps P s, or_by_email-Keeps, or_new_user-Keeps)
        depth 30

  pub change_role-Keeps :
      (roles : StableRoles P) (req : RequestInfo) (admin user_id role_id : ℕ)
      → Keeps P (change_role req admin user_id role_id)
  unfolding change_role
  change_role-Keeps roles req admin user_id role_id =
      search
        (
          keeps_rules,
          find_one-Keeps P s,
          find_role-Keeps P s,
          create_audit-Keeps P s,
          roles.role_set,
        )
        depth 30

  pub me-Keeps : (sub : ℕ) → Keeps P (me sub)
  unfolding me
  me-Keeps sub =
      search (keeps_rules, find_one-Keeps P s, find_all_oauth_with_user-Keeps P s) depth 30

  pub update_email-Keeps :
      (repo : Conn) (id : ℕ) (address : String) → Keeps P (update_email repo id address)
  unfolding update_email
  update_email-Keeps repo id address = search (keeps_rules, s.user_moved) depth 30

  pub log_change-Keeps :
      (env : Env) (repo : Conn) (user_id : ℕ) (old_email new_email : String)
      → Keeps P (log_change env repo user_id old_email new_email)
  unfolding log_change
  log_change-Keeps env repo user_id old_email new_email =
      search (keeps_rules, find_one-Keeps P s, s.log_added) depth 30

  pub change_email-Keeps : (env : Env) (token : String) → Keeps P (change_email env token)
  unfolding change_email
  change_email-Keeps env token =
      search (keeps_rules, log_change-Keeps, update_email-Keeps, s.requests_used) depth 30

  pub rollback_email-Keeps : (token : String) → Keeps P (rollback_email token)
  unfolding rollback_email
  rollback_email-Keeps token = search (keeps_rules, s.logs_revoked, s.user_moved) depth 30
