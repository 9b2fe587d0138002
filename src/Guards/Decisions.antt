-- ===== src/Guards/Decisions.antt =====
-- The decisions of `PermissionGuard` (src/modules/auth/guards/permission.guard.ts).
use nestjs_auth_backend.Base.{
  ◌≡◌, ◌↔◌, ◌⊎◌, refl, inl, inr, Bool, true, some, String, List, [], ◌∷◌, arith, str_eq, eq_iff,
  all, All, Bool-cases,
}
use nestjs_auth_backend.Errors.{
  Error, http, response_status, insuficient_permissions, insufficient_permissions,
}
use nestjs_auth_backend.World.{World, ok, err, Payload}
use nestjs_auth_backend.Guards.{contains, has_permissions, permission_guard}

-- What the documentation of the guard promises: the role or the permission that opens everything,
-- or every permission that the handler requires.
abbrev pub IsPermitted : List String → Payload → Type 0
IsPermitted required user =
    (user.role_name ≡ "super_admin")
    ⊎ (contains user.permissions "all" ≡ true)
    ⊎ All (λ p. contains user.permissions p ≡ true) required

all-All : (f : String → Bool) (xs : List String) → all f xs ≡ true → All (λ x. f x ≡ true) xs
all-All f [] h = tt
all-All f (x ∷ xs) h = (ground arith, all-All f xs (ground arith))

All-all : (f : String → Bool) (xs : List String) → All (λ x. f x ≡ true) xs → all f xs ≡ true
All-all f [] h = refl
All-all f (x ∷ xs) h = ground (arith, h.0, All-all f xs h.1)

has_permissions_iff :
    (required : List String) (user : Payload)
    → (has_permissions required user.role_name user.permissions ≡ true) ↔ IsPermitted required user
unfolding has_permissions
has_permissions_iff required user = (to, from)
  where
    to : has_permissions required user.role_name user.permissions ≡ true → IsPermitted required user
    to h = elim (Bool-cases (str_eq user.role_name "super_admin")) [
      | inl e ↦ inl ((eq_iff user.role_name "super_admin").0 e)
      | inr e ↦ elim (Bool-cases (contains user.permissions "all")) [
        | inl a ↦ inr (inl a)
        | inr a ↦ inr (inr (all-All (contains user.permissions) required (rw (e, a) at h)))
      ]
    ]

    from :
        IsPermitted required user → has_permissions required user.role_name user.permissions ≡ true
    from (inl e) = rw ((eq_iff user.role_name "super_admin").1 e)
    from (inr (inl a)) = ground (arith, a)
    from (inr (inr h)) = ground (arith, All-all (contains user.permissions) required h)

-- For an authenticated user `PermissionGuard` passes exactly when the role is `super_admin`, or
-- the permission `all` is among the user's, or every required permission is.
pub permission_guard_iff :
    (required : List String) (user : Payload) (w : World)
    → ((permission_guard required (some user) w).0 ≡ ok true) ↔ IsPermitted required user
unfolding permission_guard
permission_guard_iff [] user w = (λ h. inr (inr tt), λ h. refl)
permission_guard_iff (p ∷ required) user w =
    elim (Bool-cases (has_permissions (p ∷ required) user.role_name user.permissions)) [
      | inl e ↦ (λ h. (has_permissions_iff (p ∷ required) user).0 e, λ h. rw e)
      | inr e ↦ (
        λ h. absurd (ground arith),
        λ h. absurd (ground (arith, (has_permissions_iff (p ∷ required) user).1 h)),
      )
    ]

-- A user without a required permission is refused by `PermissionGuard` with an error of status
-- 500, whose code `INSUFICIENT_PERMISSIONS` the map of statuses does not have; the code
-- `INSUFFICIENT_PERMISSIONS`, which it has, would be status 403.
pub denied_status :
    (required : List String) (user : Payload) (w : World)
    → ¬ IsPermitted required user
    → (e : Error) × ((permission_guard required (some user) w).0 ≡ err e)
      × (response_status e ≡ 500)
      × (response_status (http insufficient_permissions) ≡ 403)
unfolding permission_guard
denied_status [] user w h = absurd (h (inr (inr tt)))
denied_status (p ∷ required) user w h =
    elim (Bool-cases (has_permissions (p ∷ required) user.role_name user.permissions)) [
      | inl e ↦ absurd (h ((has_permissions_iff (p ∷ required) user).0 e))
      | inr e ↦ (http insuficient_permissions, rw e, refl, refl)
    ]
