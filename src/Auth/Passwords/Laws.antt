-- ===== src/Auth/Passwords/Laws.antt =====
-- The transactions of `register` and `resetPasswordToken` of src/modules/auth/auth.service.ts.
pub mod Steps
use nestjs_auth_backend.Base.{ℕ, ◌≡◌, String, [], ◌||◌, not, is_some, ltb, Option, none, some, ◌⊎◌}
use nestjs_auth_backend.Errors.{Error}
use nestjs_auth_backend.Entities.{User}
use nestjs_auth_backend.World.{World, Db, Result, ok, err, Env}
use nestjs_auth_backend.World.Rules.{Leaves, leaves_rules, transaction_rolls_back}
use nestjs_auth_backend.Users.Accounts.{UserDto}
use nestjs_auth_backend.Auth.Passwords.{replace_steps, replace_password, register_steps, register}
use Steps.{
  whole, except_roles, create_credentials-Leaves, update_credentials-Leaves, update_password-Leaves,
  update_token_is_used-Leaves, create_user-Leaves, create_token-Leaves, create_security-Leaves,
}

module _ (env : Env) where
  replace_steps-Leaves :
      (user : User) (token password password_confirm : String)
      → Leaves whole (replace_steps env user token password password_confirm)
  unfolding replace_steps
  replace_steps-Leaves user token password password_confirm =
      search
        (
          leaves_rules, update_credentials-Leaves, update_password-Leaves,
          update_token_is_used-Leaves,
        )
        depth 20

  -- If the transaction of `resetPasswordToken` fails, at whatever step and for whatever reason,
  -- nothing of it is committed: not the password, not the new user secret, not the use of the
  -- token.
  pub replace_password_atomic :
      (user : User) (token password password_confirm : String) (w : World) {e : Error}
      → (replace_password env user token password password_confirm w).0 ≡ err e
      → (replace_password env user token password password_confirm w).1.db ≡ w.db
  unfolding replace_password
  replace_password_atomic user token password password_confirm w failed =
      transaction_rolls_back whole _ (replace_steps-Leaves user token password password_confirm) w
        failed

  register_steps-Leaves :
      (dto : UserDto) (password : String) → Leaves except_roles (register_steps env dto password)
  unfolding register_steps
  register_steps-Leaves dto password =
      search
        (
          leaves_rules, create_user-Leaves, create_credentials-Leaves, create_token-Leaves,
          create_security-Leaves,
        )
        depth 20

  -- If `register` fails, at whatever step and for whatever reason, it has committed nothing
  -- outside the table of roles: no user, no credentials, no token and no security settings.
  pub register_atomic :
      (dto : UserDto) (password : String) (w : World) {e : Error}
      → (register env dto password w).0 ≡ err e
      → except_roles (register env dto password w).1.db ≡ except_roles w.db
  unfolding register
  register_atomic dto password w failed =
      transaction_rolls_back except_roles _ (register_steps-Leaves dto password) w failed
