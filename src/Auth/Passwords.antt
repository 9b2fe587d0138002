-- ===== src/Auth/Passwords.antt =====
-- `register`, `verifyEmail`, `resetPassword`, `resetPasswordToken` and `resetPasswordLogged` of
-- src/modules/auth/auth.service.ts.
pub mod Laws
use nestjs_auth_backend.Base.{ℕ, Bool, not, Option, none, some, String, str_eq}
use nestjs_auth_backend.Errors.{passwords_does_not_match, crash}
use nestjs_auth_backend.Entities.{User, password_changed}
use nestjs_auth_backend.World.{
  Action, ◌>>=◌, ◌>>◌, pure, throw_if, or_throw, transaction, send_mail, manager, Env,
}
use nestjs_auth_backend.Tokens.{
  create_token_email_verification, create_token_password_reset, find_one_by_token,
  update_token_is_used,
}
use nestjs_auth_backend.Credentials.{create_credentials, update_credentials}
use nestjs_auth_backend.Security.{create_security}
use nestjs_auth_backend.AuditLog.{create_audit}
use nestjs_auth_backend.Users.Accounts.{UserDto, create_user, update_password}
use nestjs_auth_backend.Users.Profile
use nestjs_auth_backend.Auth.SignIn.{Request, audit_row}
use nestjs_auth_backend.Auth.Logout.{logout_all}

module _ (env : Env) where
  -- The callback that `register` runs in a transaction: when the user was created.
  unfoldable pub register_steps : UserDto → String → Action ℕ
  register_steps dto password = do
    user ← create_user env manager dto
    create_credentials env manager user.id password
    create_token_email_verification env manager user
    create_security manager user.id
    pure user.created_at

  -- `register`
  unfoldable pub register : UserDto → String → Action ℕ
  register dto password = transaction (register_steps dto password)

  -- `resetPassword`
  unfoldable pub reset_password : String → Action (Unit {0})
  reset_password address = create_token_password_reset env address

  -- The callback that `resetPasswordToken` runs in a transaction.
  unfoldable pub replace_steps : User → String → String → String → Action (Unit {0})
  replace_steps user token password password_confirm = do
    update_credentials env manager user.email password password_confirm
    update_password env manager user.id
    update_token_is_used manager token

  -- The transaction of `resetPasswordToken`.
  unfoldable pub replace_password : User → String → String → String → Action (Unit {0})
  replace_password user token password password_confirm =
      transaction (replace_steps user token password password_confirm)

  -- `resetPasswordToken`
  unfoldable pub reset_password_token : Request → String → String → String → Action (Unit {0})
  reset_password_token req token password password_confirm = do
    user_token ← find_one_by_token token
    user ← or_throw user_token.user crash
    replace_password user token password password_confirm
    send_mail user.email "auth-password-success" none
    logout_all user.id none
    create_audit (audit_row password_changed (some user.id) req)

  -- The transaction of `resetPasswordLogged`.
  unfoldable pub change_password : ℕ → String → String → String → Action (Unit {0})
  change_password user_id address password password_confirm = transaction (do
    update_credentials env manager address password password_confirm
    update_password env manager user_id)

  -- `resetPasswordLogged`, with the claims `sub`, `sessionId` and `email` of the access token
  unfoldable pub reset_password_logged :
      Request → ℕ → ℕ → String → String → String → Action (Unit {0})
  reset_password_logged req user_id session_id address password password_confirm = do
    throw_if (not (str_eq password password_confirm)) passwords_does_not_match
    change_password user_id address password password_confirm
    send_mail address "auth-password-success" none
    logout_all user_id (some session_id)
    create_audit (audit_row password_changed (some user_id) req)

-- `verifyEmail`
unfoldable pub verify_email : String → Action (Unit {0})
verify_email token = do
  address ← Profile.verify_email token
  send_mail address "auth-activation-success" none
