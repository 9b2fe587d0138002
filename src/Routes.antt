-- ===== src/Routes.antt =====
-- The endpoints: src/modules/auth/auth.controller.ts, src/modules/users/users.controller.ts and
-- the smaller controllers beside the services. Guards run before the validation pipe, and the pipe
-- before the handler.
pub mod Handlers
unfoldable pub use Handlers.*
use nestjs_auth_backend.Base.{ℕ, true, false, not, Option, none, some, String, List, [], ◌∷◌}
use Handlers.{
  Reply, done, registered, sign_in_reply, tokens_reply, callback_reply, codes_reply, token_reply,
  user_reply, answer_roles, answer_role, answer_identity_types, answer_identity_type, answer_audit,
  answer_reauthenticate, answer_generate, answer_change_email, answer_rollback_email,
}
use nestjs_auth_backend.Permissions.{trim}
use nestjs_auth_backend.Errors.{bad_request}
use nestjs_auth_backend.Entities.{
  Role, UserAccountOAuth, OAuthProvider, UserSecurityRecoveryCodes, AuditLog, IdentityType,
}
use nestjs_auth_backend.World.{Action, ◌>>=◌, ◌>>◌, pure, throw_if, Env, Payload}
use nestjs_auth_backend.AuditLog.{find_audit}
use nestjs_auth_backend.Roles.{find_all_roles, find_role}
use nestjs_auth_backend.ReAuth.{reauthenticate}
use nestjs_auth_backend.RecoveryCodes.{generate}
use nestjs_auth_backend.OAuth.{OAuthProfile}
use nestjs_auth_backend.EmailChange.{change_email, rollback_email}
use nestjs_auth_backend.Users.Lookup.{LoadedUser, find_one}
use nestjs_auth_backend.Users.Accounts.{
  UserDto, update, remove, find_identity_type, find_all_identity_types,
}
use nestjs_auth_backend.Users.Profile.{RequestInfo, change_role, me}
use nestjs_auth_backend.Auth.SignIn.{Request, SignIn, login}
use nestjs_auth_backend.Auth.Passwords
use nestjs_auth_backend.Auth.Passwords.{
  register, reset_password, reset_password_token, reset_password_logged,
}
use nestjs_auth_backend.Auth.Logout.{logout, logout_device, logout_all}
use nestjs_auth_backend.Auth.Refresh.{Refreshed, refresh_token}
use nestjs_auth_backend.Auth.TwoFactor.{enable_2fa, confirm_2fa, verify_2fa, disable_2fa}
use nestjs_auth_backend.Auth.External.{Callback, handle_oauth_callback, unlink_provider}
use nestjs_auth_backend.Guards.{AuthOptions, auth, brute_force_guard}
use nestjs_auth_backend.Requests.{Incoming, request_of, ensure_device_id, login_email, user_email}

-- A request that needs no token, with what its path and body carry.
pub data Open : Type 0 where
  register_user : UserDto → String → Open
  verify_address : String → Open
  ask_reset : String → Open
  reset_by_token : String → String → String → Open
  sign_in : String → String → Open
  refresh : String → Open
  oauth_callback : OAuthProfile → String → Open
  verify_code : String → ℕ → Open
  verify_email_change : String → Open
  revoke_email_change : String → Open
  list_roles : Open
  show_role : ℕ → Open
  list_identity_types : Open
  show_identity_type : ℕ → Open

-- A request behind the decorator `Auth`, less the two lists in pages (Lists) and the start of a link
-- with GitHub, which redirects.
pub data Protected : Type 0 where
  change_own_password : String → String → Protected
  log_out : Protected
  log_out_device : String → Protected
  log_out_all : Protected
  enable_factor : String → Protected
  confirm_factor : String → Protected
  disable_factor : Protected
  unlink : OAuthProvider → Protected
  reauthenticate_with : String → Protected
  generate_codes : Protected
  show_user : ℕ → Protected
  update_account : ℕ → UserDto → Protected
  remove_user : ℕ → Protected
  change_role_of : ℕ → ℕ → Protected
  show_me : Protected
  show_audit : ℕ → Protected

abbrev pub plain : AuthOptions
plain = record { permission = none; allow_self = false; superadmin_only = false; reauth = false }

abbrev with_reauth : AuthOptions
with_reauth = record plain { reauth = true }

abbrev for_superadmin : String → AuthOptions
for_superadmin permission = record plain { permission = some permission; superadmin_only = true }

abbrev for_self : String → AuthOptions
for_self permission = record plain { permission = some permission; allow_self = true }

-- The arguments of `@Auth` on each handler.
abbrev pub auth_options : Protected → AuthOptions
auth_options (change_own_password p q) = with_reauth
auth_options log_out = plain
auth_options (log_out_device id) = plain
auth_options log_out_all = plain
auth_options (enable_factor type) = with_reauth
auth_options (confirm_factor given) = plain
auth_options disable_factor = plain
auth_options (unlink provider) = plain
auth_options (reauthenticate_with p) = plain
auth_options generate_codes = plain
auth_options (show_user id) = for_superadmin "users:read:id"
auth_options (update_account id dto) = for_self "users:update:id"
auth_options (remove_user id) = for_self "users:delete:id"
auth_options (change_role_of id role_id) = for_superadmin "users:update:id:role"
auth_options show_me = plain
auth_options (show_audit id) = for_superadmin "audit-log:read"

-- `params.id` of the paths that have it.
abbrev pub param_id : Protected → Option ℕ
param_id (show_user id) = some id
param_id (update_account id dto) = some id
param_id (remove_user id) = some id
param_id _ = none

-- The body's email, which the transform puts in place before the handler.
abbrev pub transformed : UserDto → UserDto
transformed dto = record dto { email = lowered dto.email }
  where
    lowered : Option String → Option String
    lowered none = none
    lowered (some s) = some (user_email s)

-- The request without the client's description, as `changeRole` reads it.
abbrev info_of : Request → RequestInfo
info_of req = record { ip = req.ip; user_agent = req.user_agent }

module _ (env : Env) (r : Incoming) where
  -- The handler behind the guards and the pipe.
  abbrev pub run_protected : Payload → Protected → Action Reply
  run_protected user (change_own_password p q) =
      reset_password_logged env (request_of env r) user.sub user.session_id user.email (trim p)
        (trim q)
      >> pure done
  run_protected user log_out = logout user.session_id >> pure done
  run_protected user (log_out_device id) = logout_device id >> pure done
  run_protected user log_out_all = logout_all user.sub (some user.session_id) >> pure done
  run_protected user (enable_factor type) = enable_2fa env user.sub type >> pure done
  run_protected user (confirm_factor given) =
      confirm_2fa env (request_of env r) user.sub given >>= λ codes. pure (codes_reply codes)
  run_protected user disable_factor = disable_2fa (request_of env r) user.sub >> pure done
  run_protected user (unlink provider) = unlink_provider user.sub provider >> pure done
  run_protected user (reauthenticate_with p) = answer_reauthenticate env user p
  run_protected user generate_codes = answer_generate env user
  run_protected user (show_user id) = find_one id >>= λ u. pure (user_reply u [])
  run_protected user (update_account id dto) = update env id (transformed dto) >> pure done
  run_protected user (remove_user id) = remove id >> pure done
  run_protected user (change_role_of id role_id) =
      change_role (info_of (request_of env r)) user.sub id role_id >> pure done
  run_protected user show_me = me user.sub >>= λ out. pure (user_reply out.0 out.1)
  run_protected user (show_audit id) = answer_audit id

  -- A protected request: the guards of `Auth`, the pipe, the handler.
  unfoldable pub handle_protected : Protected → Action Reply
  handle_protected call = do
    user ← auth env (auth_options call) (record r.http { param_id = param_id call })
    throw_if (not r.is_valid) bad_request
    run_protected user call

  -- The sign-in: `BruteForceGuard` reads the body as it was sent.
  unfoldable pub handle_sign_in : String → String → Action Reply
  handle_sign_in address password = do
    brute_force_guard (record r.http { body_email = some address })
    throw_if (not r.is_valid) bad_request
    device_id ← ensure_device_id env r
    out ← login env (request_of env r) (login_email address) (trim password) device_id
    pure (sign_in_reply out)

  abbrev pub run_open : Open → Action Reply
  run_open (register_user dto password) =
      register env (transformed dto) (trim password) >>= λ at. pure (registered at)
  run_open (verify_address token) = Passwords.verify_email token >> pure done
  run_open (ask_reset address) = reset_password env address >> pure done
  run_open (reset_by_token token p q) =
      reset_password_token env (request_of env r) token (trim p) (trim q) >> pure done
  run_open (sign_in address password) = handle_sign_in address password
  run_open (refresh token) =
      refresh_token env (request_of env r) token >>= λ out. pure (tokens_reply out)
  run_open (oauth_callback profile state) = do
    device_id ← ensure_device_id env r
    out ← handle_oauth_callback env (request_of env r) profile state device_id
    pure (callback_reply out)
  run_open (verify_code given user_id) = do
    device_id ← ensure_device_id env r
    out ← verify_2fa env (request_of env r) user_id given device_id
    pure (sign_in_reply out)
  run_open (verify_email_change token) = answer_change_email env token
  run_open (revoke_email_change token) = answer_rollback_email token
  run_open list_roles = answer_roles
  run_open (show_role id) = answer_role id
  run_open list_identity_types = answer_identity_types
  run_open (show_identity_type id) = answer_identity_type id

  -- An open request: the pipe, then the handler; the sign-in has a guard before its pipe.
  abbrev pub check_body : Open → Action (Unit {0})
  check_body (sign_in address password) = pure tt
  check_body call = throw_if (not r.is_valid) bad_request

  unfoldable pub handle_open : Open → Action Reply
  handle_open call = check_body call >> run_open call
