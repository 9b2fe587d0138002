-- ===== src/System/Privileges.antt =====
-- Roles of users over all requests: only `changeRole` of src/modules/users/users.service.ts sets one,
-- and its endpoint asks for the role `super_admin`.
use Prim.Native.String.{◌++◌ as str_append}
use nestjs_auth_backend.Base.{
  All, ℕ, ◌≡◌, ◌≢◌, refl, ap, ◌∙◌, inl, inr, Bool, Option, none, some, String, List, arith, ◌==◌,
  find, Bool-cases, find-update_where, find-insert_row_old, update_where,
}
use nestjs_auth_backend.Entities.{User}
use nestjs_auth_backend.World.{World, Db, Env, Payload}
use nestjs_auth_backend.World.Outcomes.{Result-cases}
use nestjs_auth_backend.World.Invariants.{Keeps}
use nestjs_auth_backend.Guards.{auth, present, extract_token}
use nestjs_auth_backend.Guards.Access.{auth_guard_sound}
use nestjs_auth_backend.Requests.{Incoming}
use nestjs_auth_backend.Routes.{change_role_of, auth_options, handle_protected}
use nestjs_auth_backend.System.Stable.{Stable}
use nestjs_auth_backend.System.Access.{auth-Keeps}
use nestjs_auth_backend.System.Entrance.{auth_passes}
use nestjs_auth_backend.System.History.{Event, run_history, run_history-keeps}

-- The row of a user, removed or not.
abbrev pub user_row : ℕ → Db → Option User
user_row id d = find (λ x. x.id == id) d.users

abbrev pub HasRole : ℕ → ℕ → Db → Type 0
HasRole id role d = (u : User) × (user_row id d ≡ some u) × (u.role ≡ role)

HasRole-stable : (id role : ℕ) → Stable (HasRole id role)
HasRole-stable id role = record {
  roles = λ d xs h. h;
  user_added = λ d u fresh h. (h.0, find-insert_row_old _ u h.0 d.users h.1, h.2);
  user_saved = λ d p f same h. save d p f (λ u. ((same u).0, (same u).1)) h.0 h.1 h.2;
  user_moved = λ d id email free h. save d _ _ (λ u. (refl, refl)) h.0 h.1 h.2;
  user_updated = λ d id dto t email free h. save d _ _ (λ u. (refl, refl)) h.0 h.1 h.2;
  credentials = λ d xs h. h;
  oauths = λ d xs h. h;
  token_added = λ d t h. h;
  tokens_used = λ d p h. h;
  securities = λ d xs h. h;
  otps = λ d xs h. h;
  recovery_codes = λ d xs h. h;
  user_sessions = λ d xs h. h;
  request_added = λ d r h. h;
  requests_used = λ d p h. h;
  log_added = λ d l h. h;
  logs_revoked = λ d p h. h;
  sessions = λ d xs h. h;
  attempts = λ d xs h. h;
  reauth_tokens = λ d xs h. h;
  revoked = λ d p h. h;
  issued = λ d t h. h;
  audited = λ d a h. h;
}
  where
    save :
        (d : Db) (p : User → Bool) (f : User → User)
        → ((u : User) → ((f u).id ≡ u.id) × ((f u).role ≡ u.role))
        → (u : User) → user_row id d ≡ some u
        → u.role ≡ role
        → HasRole id role (record d { users = update_where p f d.users })
    save d p f same u e r =
        let found =
          find-update_where (λ x. x.id == id) p f d.users u (λ x. ap (λ n. n == id) (same x).0) e in
        elim (Bool-cases (p u)) [
          | inl c ↦ (f u, rw c at found, (same u).1 ∙ r)
          | inr c ↦ (u, rw c at found, r)
        ]

-- The token of the request, if it has one, is no access token of a super admin: what it verifies to
-- with the server's secret has another role.
abbrev pub NoSuperadmin : Env → Incoming → Type 0
NoSuperadmin env r =
    (token secret : String) (now : ℕ) (p : Payload)
    → present (extract_token r.http) ≡ some token
    → env.jwt_verify token (str_append env.jwt_secret secret) now ≡ some p
    → p.role_name ≢ "super_admin"

change_role_of-refused :
    (P : Db → Type 0) (s : Stable P) (env : Env) (r : Incoming)
    → NoSuperadmin env r
    → (id role_id : ℕ) → Keeps P (handle_protected env r (change_role_of id role_id))
unfolding handle_protected
change_role_of-refused P s env r nobody id role_id = record { apply = λ w h g. step w h g }
  where
    step :
        (w : World)
        → P w.db
        → P w.work
        → P (handle_protected env r (change_role_of id role_id) w).1.db
          × P (handle_protected env r (change_role_of id role_id) w).1.work
    step w h g =
        let options = auth_options (change_role_of id role_id) in
        let http = record r.http { param_id = none } in
        elim (Result-cases (auth env options http w).0) [
          | inl (p, passed) ↦
              let has = auth_passes env options http w passed in
              let valid = auth_guard_sound env http w has.0 in
              absurd (nobody valid.0 valid.2.user_secret _ p valid.3 valid.6 (has.2 refl))
          | inr (x, failed) ↦
              let same : (handle_protected env r (change_role_of id role_id) w).1
                  ≡ (auth env options http w).1 =
                ground arith in
              rw same ((auth-Keeps P s env options http).apply w h g)
        ]

-- No user's role changes without a super admin: through a run of requests of which none carries a
-- token that verifies, with the server's secret and whatever secret of a user, as one of a super
-- admin, every user that there is, removed or not, keeps the role, whatever the requests ask for
-- and whichever external calls fail. The run starts outside a transaction.
pub role_kept :
    (env : Env) (es : List Event) (w : World) (id : ℕ) (u : User)
    → All (λ x. NoSuperadmin env x.incoming) es
    → w.work ≡ w.db
    → user_row id w.db ≡ some u
    → (v : User) × (user_row id (run_history env es w).db ≡ some v) × (v.role ≡ u.role)
role_kept env es w id u nobody rest e =
    run_history-keeps (HasRole id u.role) (HasRole-stable id u.role) env (NoSuperadmin env)
      (change_role_of-refused _ (HasRole-stable id u.role) env) es w nobody rest (u, e, refl)
