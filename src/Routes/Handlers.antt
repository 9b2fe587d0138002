-- ===== src/Routes/Handlers.antt =====
-- What the smaller controllers answer: those beside the services of src/modules/roles,
-- src/modules/audit-log, src/modules/auth/re-auth and src/modules/users.
use nestjs_auth_backend.Base.{ℕ, some, String, List, [], ◌∷◌}
use nestjs_auth_backend.Entities.{
  Role, UserAccountOAuth, UserSecurityRecoveryCodes, AuditLog, IdentityType,
}
use nestjs_auth_backend.World.{Action, ◌>>=◌, ◌>>◌, pure, Env, Payload}
use nestjs_auth_backend.AuditLog.{find_audit}
use nestjs_auth_backend.Roles.{find_all_roles, find_role}
use nestjs_auth_backend.ReAuth.{reauthenticate}
use nestjs_auth_backend.RecoveryCodes.{generate}
use nestjs_auth_backend.EmailChange.{change_email, rollback_email}
use nestjs_auth_backend.Users.Lookup.{LoadedUser}
use nestjs_auth_backend.Users.Accounts.{find_identity_type, find_all_identity_types}
use nestjs_auth_backend.Auth.SignIn.{SignIn}
use nestjs_auth_backend.Auth.Refresh.{Refreshed}
use nestjs_auth_backend.Auth.External.{Callback}

-- What the client gets.
pub data Reply : Type 0 where
  done : Reply
  registered : ℕ → Reply
  sign_in_reply : SignIn → Reply
  tokens_reply : Refreshed → Reply
  callback_reply : Callback → Reply
  codes_reply : List UserSecurityRecoveryCodes → Reply
  token_reply : String → Reply
  user_reply : LoadedUser → List UserAccountOAuth → Reply
  roles_reply : List Role → Reply
  identity_types_reply : List IdentityType → Reply
  audit_reply : List AuditLog → Reply

-- `RolesController`
abbrev pub answer_roles : Action Reply
answer_roles = find_all_roles >>= λ roles. pure (roles_reply roles)

abbrev pub answer_role : ℕ → Action Reply
answer_role id = find_role id >>= λ role. pure (roles_reply (role ∷ []))

-- `IdentityTypesController`
abbrev pub answer_identity_types : Action Reply
answer_identity_types = find_all_identity_types >>= λ types. pure (identity_types_reply types)

abbrev pub answer_identity_type : ℕ → Action Reply
answer_identity_type id = find_identity_type (some id) >>= λ t. pure (identity_types_reply (t ∷ []))

-- `AuditLogController.findOne`
abbrev pub answer_audit : ℕ → Action Reply
answer_audit id = find_audit id >>= λ rows. pure (audit_reply rows)

-- `ReAuthController.reauthenticate`
abbrev pub answer_reauthenticate : Env → Payload → String → Action Reply
answer_reauthenticate env user password =
    reauthenticate env user.sub password >>= λ token. pure (token_reply token)

-- `SecurityRecoveryCodesController.generate`
abbrev pub answer_generate : Env → Payload → Action Reply
answer_generate env user = generate env user.sub >>= λ codes. pure (codes_reply codes)

-- `EmailChangeRequestController.verify`
abbrev pub answer_change_email : Env → String → Action Reply
answer_change_email env token = change_email env token >> pure done

-- `EmailLogChangesController.changeEmail`
abbrev pub answer_rollback_email : String → Action Reply
answer_rollback_email token = rollback_email token >> pure done
