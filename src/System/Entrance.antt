-- ===== src/System/Entrance.antt =====
-- Who gets through to the handlers of src/modules/auth/auth.controller.ts and the other controllers
-- behind the decorator `Auth`.
use Prim.Native.String.{◌++◌ as str_append}
use nestjs_auth_backend.Base.{
  ◌==◌, ◌&&◌, ◌≡◌, Bool, true, some, String, List, [], ◌∷◌, arith, inl, inr, eq_iff,
}
use nestjs_auth_backend.Errors.{Error}
use nestjs_auth_backend.Entities.{User}
use nestjs_auth_backend.World.{World, ok, err, Env, Payload}
use nestjs_auth_backend.World.Outcomes.{Result-cases}
use nestjs_auth_backend.World.Rules.{Leaves, leaves_rules}
use nestjs_auth_backend.Users.Lookup.{get_user_secret, live_user, is_active_status}
use nestjs_auth_backend.Guards.{
  Http, present, extract_token, AuthOptions, auth, auth_guard, re_auth_guard, permission_guard,
  superadmin_guard, user_self_or_admin_guard, guard_if, required_permissions,
}
use nestjs_auth_backend.Guards.Decisions.{IsPermitted, permission_guard_iff}
use nestjs_auth_backend.Guards.Access.{auth_guard_sound}
use nestjs_auth_backend.Requests.{Incoming}
use nestjs_auth_backend.Routes.{Protected, Reply, auth_options, param_id, handle_protected}

permission-passes :
    (required : List String) (user : Payload) (w : World) {b : Bool}
    → (permission_guard required (some user) w).0 ≡ ok b
    → IsPermitted required user
unfolding permission_guard
permission-passes [] user w h = inr (inr tt)
permission-passes (p ∷ required) user w h =
    (permission_guard_iff (p ∷ required) user w).0 (ground arith)

superadmin-passes :
    (user : Payload) (w : World) {b : Bool}
    → (guard_if true (superadmin_guard (some user)) w).0 ≡ ok b
    → user.role_name ≡ "super_admin"
unfolding superadmin_guard
superadmin-passes user w {b} h = (eq_iff user.role_name "super_admin").0 (ground arith)

-- The decorator `Auth` passes only the payload of `AuthGuard`, and only if it has what the options
-- ask for.
pub auth_passes :
    (env : Env) (options : AuthOptions) (h : Http) (w : World) {p : Payload}
    → (auth env options h w).0 ≡ ok p
    → ((auth_guard env h w).0 ≡ ok p)
      × IsPermitted (required_permissions options.permission) p
      × (options.superadmin_only ≡ true → p.role_name ≡ "super_admin")
unfolding auth
auth_passes env options h w {p} e =
    let w₁ = (auth_guard env h w).1 in
    elim (Result-cases (auth_guard env h w).0) [
      | inr (x, failed) ↦ absurd (ground arith)
      | inl (user, known) ↦
          let w₂ = (re_auth_guard env options.reauth (some user) h w₁).1 in
          let required = required_permissions options.permission in
          elim (Result-cases (re_auth_guard env options.reauth (some user) h w₁).0) [
            | inr (x, failed) ↦ absurd (ground arith)
            | inl (r, fresh) ↦ elim (Result-cases (permission_guard required (some user) w₂).0) [
              | inr (x, failed) ↦ absurd (ground arith)
              | inl (b, permitted) ↦
                  let w₃ = (permission_guard required (some user) w₂).1 in
                  let self = guard_if options.allow_self (user_self_or_admin_guard env h) in
                  elim (Result-cases (self w₃).0) [
                    | inr (x, failed) ↦ absurd (ground arith)
                    | inl (c, own) ↦
                        let last =
                          guard_if options.superadmin_only (superadmin_guard (some user)) in
                        elim (Result-cases (last (self w₃).1).0) [
                          | inr (x, failed) ↦ absurd (ground arith)
                          | inl (a, admin) ↦
                              let same : user ≡ p = ground arith in
                              rw (← same) (
                                known,
                                permission-passes required user w₂ permitted,
                                λ only. superadmin-passes user (self w₃).1 (rw only at admin),
                              )
                        ]
                  ]
            ]
          ]
    ]

-- `p` is what a valid access token of the request says of an active user who is not removed, and it
-- has what the route asks for.
abbrev pub Admitted : Env → Incoming → Protected → World → Payload → Type 0
Admitted env r call w p =
    ((token : String) × (claimed : Payload) × (u : User) × (present (extract_token r.http)
        ≡ some token)
      × (env.jwt_decode token ≡ some claimed)
      × (live_user (λ x. x.id == claimed.sub && is_active_status x.status) w.db ≡ some u)
      × (env.jwt_verify token (str_append env.jwt_secret u.user_secret) w.now ≡ some p))
    × IsPermitted (required_permissions (auth_options call).permission) p
    × ((auth_options call).superadmin_only ≡ true → p.role_name ≡ "super_admin")

-- Whichever external call fails, each endpoint of `Protected`, which are those behind `Auth` but
-- the two lists in pages and the start of a link with GitHub, succeeds only for a request whose
-- access token names a user who is active and not removed and verifies under that user's secret,
-- whose payload has the permission of the route, and the role `super_admin` where the route asks
-- for it, and whose body is valid.
pub handle_protected_sound :
    (env : Env) (r : Incoming) (call : Protected) (w : World) {out : Reply}
    → (handle_protected env r call w).0 ≡ ok out
    → ((p : Payload) × Admitted env r call w p) × (r.is_valid ≡ true)
unfolding handle_protected
handle_protected_sound env r call w {out} h =
    let http = record r.http { param_id = param_id call } in
    elim (Result-cases (auth env (auth_options call) http w).0) [
      | inr (x, failed) ↦ absurd (ground arith)
      | inl (p, passed) ↦
          let has = auth_passes env (auth_options call) http w passed in
          ((p, (auth_guard_sound env http w has.0, has.1, has.2)), ground arith)
    ]

auth_guard-Leaves : (env : Env) (h : Http) → Leaves (λ d. d) (auth_guard env h)
unfolding auth_guard get_user_secret
auth_guard-Leaves env h = search leaves_rules depth 30

-- Every protected endpoint answers a request that `AuthGuard` refuses with the error of the guard,
-- and commits nothing.
pub handle_protected_refused :
    (env : Env) (r : Incoming) (call : Protected) (w : World) {e : Error}
    → (auth_guard env (record r.http { param_id = param_id call }) w).0 ≡ err e
    → ((handle_protected env r call w).0 ≡ err e) × ((handle_protected env r call w).1.db ≡ w.db)
unfolding handle_protected auth
handle_protected_refused env r call w {e} refused =
    ground
      (arith, refused, (auth_guard-Leaves env (record r.http { param_id = param_id call })).apply w)
