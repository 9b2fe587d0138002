-- ===== src/System/Access.antt =====
-- The guards.
use nestjs_auth_backend.Base.{ℕ, String, Option, none, some, Bool, true, false, List, [], ◌∷◌}
use nestjs_auth_backend.Entities.{AuthAttempts}
use nestjs_auth_backend.World.{Db, Env, Action, Payload}
use nestjs_auth_backend.World.Invariants.{Keeps, keeps_rules}
use nestjs_auth_backend.System.Stable.{Stable}
use nestjs_auth_backend.Attempts.{find_email}
use nestjs_auth_backend.AuditLog.{find_audit}
use nestjs_auth_backend.Roles.{find_all_roles}
use nestjs_auth_backend.Guards.{
  Http, auth_guard, permission_guard, superadmin_guard, user_self_or_admin_guard, re_auth_guard,
  guard_if, AuthOptions, auth, check_block, check_email, brute_force_guard,
}
use nestjs_auth_backend.System.Services.{validate-Keeps}
use nestjs_auth_backend.System.Tables.{get_user_secret-Keeps}

module _ (P : Db → Type 0) (s : Stable P) where
  pub find_audit-Keeps : (user_id : ℕ) → Keeps P (find_audit user_id)
  unfolding find_audit
  find_audit-Keeps user_id = search keeps_rules depth 30

  pub find_all_roles-Keeps : Keeps P (find_all_roles)
  unfolding find_all_roles
  find_all_roles-Keeps = search keeps_rules depth 30

  auth_guard-Keeps : (env : Env) (h : Http) → Keeps P (auth_guard env h)
  unfolding auth_guard
  auth_guard-Keeps env h = search (keeps_rules, get_user_secret-Keeps P s) depth 30

  permission_guard-Keeps :
      (required : List String) (user : Option Payload) → Keeps P (permission_guard required user)
  unfolding permission_guard
  permission_guard-Keeps [] user = search keeps_rules depth 30
  permission_guard-Keeps (p ∷ rest) none = search keeps_rules depth 30
  permission_guard-Keeps (p ∷ rest) (some u) = search keeps_rules depth 30

  superadmin_guard-Keeps : (user : Option Payload) → Keeps P (superadmin_guard user)
  unfolding superadmin_guard
  superadmin_guard-Keeps none = search keeps_rules depth 30
  superadmin_guard-Keeps (some u) = search keeps_rules depth 30

  self_guard-Keeps : (env : Env) (h : Http) → Keeps P (user_self_or_admin_guard env h)
  unfolding user_self_or_admin_guard
  self_guard-Keeps env h = search keeps_rules depth 30

  re_auth_guard-Keeps :
      (env : Env) (b : Bool) (user : Option Payload) (h : Http)
      → Keeps P (re_auth_guard env b user h)
  unfolding re_auth_guard
  re_auth_guard-Keeps env false user h = search keeps_rules depth 30
  re_auth_guard-Keeps env true none h = search keeps_rules depth 30
  re_auth_guard-Keeps env true (some u) h = search (keeps_rules, validate-Keeps P s) depth 30

  guard_if-Keeps : (b : Bool) {m : Action Bool} (k : Keeps P m) → Keeps P (guard_if b m)
  guard_if-Keeps true k = k
  guard_if-Keeps false k = search keeps_rules depth 30

  pub auth-Keeps : (env : Env) (options : AuthOptions) (h : Http) → Keeps P (auth env options h)
  unfolding auth
  auth-Keeps env options h =
      search
        (
          keeps_rules, auth_guard-Keeps, re_auth_guard-Keeps, permission_guard-Keeps,
          guard_if-Keeps, self_guard-Keeps, superadmin_guard-Keeps,
        )
        depth 30

  check_block-Keeps : (found : Option AuthAttempts) → Keeps P (check_block found)
  check_block-Keeps none = search keeps_rules depth 30
  check_block-Keeps (some x) = search keeps_rules depth 30

  check_email-Keeps : (address : Option String) → Keeps P (check_email address)
  unfolding find_email
  check_email-Keeps none = search keeps_rules depth 30
  check_email-Keeps (some x) = search (keeps_rules, check_block-Keeps) depth 30

  pub brute_force_guard-Keeps : (h : Http) → Keeps P (brute_force_guard h)
  unfolding brute_force_guard
  brute_force_guard-Keeps h = search (keeps_rules, check_email-Keeps) depth 30
