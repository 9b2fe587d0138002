-- ===== src/System/History.antt =====
-- A run of the server: requests one after another, each with the time since the one before and the
-- external calls that fail while it is served.
use nestjs_auth_backend.Base.{ℕ, ◌+◌, Bool, List, [], ◌∷◌, All, ◌≡◌, subst, sym}
use nestjs_auth_backend.World.{World, Db, Result, Action, Env}
use nestjs_auth_backend.World.Invariants.{Keeps}
use nestjs_auth_backend.Requests.{Incoming}
use nestjs_auth_backend.Routes.{
  change_role_of, Open, Protected, Reply, handle_open, handle_protected,
}
use nestjs_auth_backend.System.Stable.{Stable, StableRoles}
use nestjs_auth_backend.System.Endpoints.{
  handle_open-Keeps, handle_protected-Keeps, change_role_of-Keeps,
}

pub data Call : Type 0 where
  open_call : Open → Call
  protected_call : Protected → Call

pub record Event : Type 0 where
  pub elapsed : ℕ
  pub outages : List Bool
  pub incoming : Incoming
  pub call : Call

abbrev pub handle : Env → Incoming → Call → Action Reply
handle env r (open_call call) = handle_open env r call
handle env r (protected_call call) = handle_protected env r call

-- One request: what the client gets, and the world after it.
abbrev pub serve : Env → Event → World → Result Reply × World
serve env e w =
    handle env e.incoming e.call (record w { now = w.now + e.elapsed; faults = e.outages })

abbrev pub run_history : Env → List Event → World → World
run_history env [] w = w
run_history env (e ∷ es) w = run_history env es (serve env e w).1

module _ (P : Db → Type 0) (s : Stable P) (env : Env) (Allowed : Incoming → Type 0)
    (change : (r : Incoming)
      → Allowed r
      → (id role_id : ℕ) → Keeps P (handle_protected env r (change_role_of id role_id))) where
  handle-Keeps : (r : Incoming) (call : Call) → Allowed r → Keeps P (handle env r call)
  handle-Keeps r (open_call call) allowed = handle_open-Keeps P s env r call
  handle-Keeps r (protected_call call) allowed =
      handle_protected-Keeps P s env r (change r allowed) call

  run_history-both :
      (es : List Event) (w : World)
      → All (λ e. Allowed e.incoming) es
      → P w.db
      → P w.work
      → P (run_history env es w).db × P (run_history env es w).work
  run_history-both [] w allowed h g = (h, g)
  run_history-both (e ∷ es) w allowed h g =
      let after =
        (handle-Keeps e.incoming e.call allowed.0).apply
          (record w { now = w.now + e.elapsed; faults = e.outages }) h g in
      run_history-both es (serve env e w).1 allowed.1 after.0 after.1

  -- What is stable and holds of a database at rest holds after any run.
  pub run_history-keeps :
      (es : List Event) (w : World)
      → All (λ e. Allowed e.incoming) es
      → w.work ≡ w.db
      → P w.db
      → P (run_history env es w).db
  run_history-keeps es w allowed rest h = (run_history-both es w allowed h (subst P (sym rest) h)).0

-- The same where changes of roles are stood too.
pub run_history-keeps_all :
    (P : Db → Type 0) (s : Stable P) (roles : StableRoles P) (env : Env) (es : List Event)
    (w : World)
    → w.work ≡ w.db
    → P w.db
    → P (run_history env es w).db
run_history-keeps_all P s roles env es w =
    run_history-keeps P s env (λ r. Unit)
      (λ r allowed id role_id. change_role_of-Keeps P s roles env r id role_id) es w (every es)
  where
    every : (es : List Event) → All (λ e. Unit {0}) es
    every [] = tt
    every (e ∷ es) = (tt, every es)
