-- ===== src/Guards.antt =====
-- The guards of src/modules/auth/guards, and the decorator that puts them together
-- (src/modules/auth/decorators/auth.decorator.ts).
pub mod Decisions
pub mod Access
use Prim.Native.String.{◌++◌ as str_append}
use nestjs_auth_backend.Base.{
  ℕ, Bool, true, false, ◌&&◌, ◌||◌, not, Option, none, some, String, List, [], ◌∷◌, ◌++◌,
  if◌then◌else◌, ltb, ◌==◌, str_eq, is_some, when_some, any, all,
}
use nestjs_auth_backend.Permissions.{is_empty}
use nestjs_auth_backend.Errors.{
  token_not_found, invalid_token, user_not_found, unauthorized, insuficient_permissions,
  reauth_token_not_found, invalid_reauth_token, brute_force_blocked, crash, http,
}
use nestjs_auth_backend.Entities.{AuthAttempts}
use nestjs_auth_backend.World.{
  World, Action, ◌>>=◌, ◌>>◌, pure, throw, gets, throw_if, or_throw, Env, Payload,
}
use nestjs_auth_backend.Attempts.{find_email}
use nestjs_auth_backend.ReAuth.{validate}
use nestjs_auth_backend.Users.Lookup.{get_user_secret}

-- What the guards read of an HTTP request.
pub record Http : Type 0 where
  -- the token behind `Bearer` in the `authorization` header
  pub bearer : Option String
  pub access_token_cookie : Option String
  pub reauth_header : Option String
  -- `params.id`, a number
  pub param_id : Option ℕ
  -- `body.email`, as the client sent it
  pub body_email : Option String

-- A text that is there and is not empty.
abbrev pub present : Option String → Option String
present none = none
present (some s) = if is_empty s then none else some s

-- `AuthGuard.extractTokenFromHeader`
abbrev pub extract_token : Http → Option String
extract_token r = elim r.bearer [ some t ↦ some t | none ↦ present r.access_token_cookie ]

abbrev pub contains : List String → String → Bool
contains xs s = any (λ x. str_eq x s) xs

-- The test of `PermissionGuard` behind the lookup of the user.
unfoldable pub has_permissions : List String → String → List String → Bool
has_permissions required role_name permissions =
    str_eq role_name "super_admin"
    || (contains permissions "all" || all (contains permissions) required)

-- `PermissionGuard`, for a user that `AuthGuard` put on the request
unfoldable pub permission_guard : List String → Option Payload → Action Bool
permission_guard [] user = pure true
permission_guard (p ∷ required) none = throw (http unauthorized)
permission_guard (p ∷ required) (some user) = do
  throw_if (not (has_permissions (p ∷ required) user.role_name user.permissions))
      insuficient_permissions
  pure true

-- `SuperadminGuard`
unfoldable pub superadmin_guard : Option Payload → Action Bool
superadmin_guard none = throw (http unauthorized)
superadmin_guard (some user) = do
  throw_if (not (str_eq user.role_name "super_admin")) insuficient_permissions
  pure true

-- Whether the block of an email is still on: `blockedUntil && blockedUntil > new Date()`.
abbrev pub is_blocked : ℕ → AuthAttempts → Bool
is_blocked now a = when_some a.blocked_until (λ t. ltb now t)

abbrev pub check_block : Option AuthAttempts → Action Bool
check_block none = pure true
check_block (some a) = do
  now ← gets (λ w. w.now)
  throw_if (is_blocked now a) brute_force_blocked
  pure true

abbrev pub check_email : Option String → Action Bool
check_email none = pure true
check_email (some address) = find_email address >>= check_block

-- `BruteForceGuard`
unfoldable pub brute_force_guard : Http → Action Bool
brute_force_guard r = check_email (present r.body_email)

module _ (env : Env) where
  -- `AuthGuard`: the payload that it puts on the request.
  unfoldable pub auth_guard : Http → Action Payload
  auth_guard r = do
    token ← or_throw (present (extract_token r)) (http token_not_found)
    decoded ← or_throw (env.jwt_decode token) (http invalid_token)
    throw_if (decoded.sub == 0) invalid_token
    user_secret ← get_user_secret decoded.sub
    throw_if (is_empty user_secret) user_not_found
    now ← gets (λ w. w.now)
    or_throw (env.jwt_verify token (str_append env.jwt_secret user_secret) now) (http invalid_token)

  -- `UserSelfOrAdminGuard`; `user.role` is an object, and never equal to 'super_admin'.
  unfoldable pub user_self_or_admin_guard : Http → Action Bool
  user_self_or_admin_guard r = do
    token ← or_throw (present r.bearer) (http token_not_found)
    user ← or_throw (env.jwt_decode token) (http invalid_token)
    throw_if (user.sub == 0) invalid_token
    throw_if (not (when_some r.param_id (λ id. user.sub == id) || contains user.permissions "all"))
        unauthorized
    pure true

  -- `ReAuthGuard`: the payload has no property `id`, so the id that it passes is undefined.
  unfoldable pub re_auth_guard : Bool → Option Payload → Http → Action Bool
  re_auth_guard false user r = pure true
  re_auth_guard true none r = throw (http unauthorized)
  re_auth_guard true (some user) r = do
    token ← or_throw (present r.reauth_header) (http reauth_token_not_found)
    valid ← validate env none token
    throw_if (not valid) invalid_reauth_token
    pure true

-- A guard that is pushed under a condition.
abbrev pub guard_if : Bool → Action Bool → Action Bool
guard_if true m = m
guard_if false m = pure true

-- The arguments of the decorator `Auth`: the permission, and `AuthOptions`
-- (src/common/interfaces/auth-option.interface.ts).
pub record AuthOptions : Type 0 where
  pub permission : Option String
  pub allow_self : Bool
  pub superadmin_only : Bool
  pub reauth : Bool

abbrev pub required_permissions : Option String → List String
required_permissions none = []
required_permissions (some p) = p ∷ []

-- `Auth`: the guards in the order in which they are pushed; all of them must pass.
unfoldable pub auth : Env → AuthOptions → Http → Action Payload
auth env options r = do
  user ← auth_guard env r
  re_auth_guard env options.reauth (some user) r
  permission_guard (required_permissions options.permission) (some user)
  guard_if options.allow_self (user_self_or_admin_guard env r)
  guard_if options.superadmin_only (superadmin_guard (some user))
  pure user
