-- ===== src/World/Outcomes.antt =====
-- What an action that writes through the manager leaves for the commit.
use nestjs_auth_backend.Base.{◌≡◌, refl, ◌∙◌, ◌⊎◌, inl, inr, arith}
use nestjs_auth_backend.Errors.{Error}
use nestjs_auth_backend.World.Actions.{Db, World, Result, ok, err, Action, ◌>>=◌, transaction}

pub Result-cases :
    {A : Type 0} (r : Result A) → ((a : A) × (r ≡ ok a)) ⊎ ((e : Error) × (r ≡ err e))
Result-cases (ok a) = inl (a, refl)
Result-cases (err e) = inr (e, refl)

-- A chain that succeeds has passed its first step, and gone on from there.
pub bind-ok :
    {A B : Type 0} (m : Action A) (k : A → Action B) (w : World) {b : B}
    → ((m >>= k) w).0 ≡ ok b
    → (a : A) × ((m w).0 ≡ ok a) × ((m >>= k) w ≡ k a (m w).1)
bind-ok m k w done = elim (Result-cases (m w).0) [
  | inl (a, e) ↦ (a, e, ground arith)
  | inr (x, e) ↦ absurd (ground arith)
]

-- A call that began in `w` has changed nothing that is committed; if it succeeded, the open
-- transaction sees `seen`.
abbrev pub Wrote : {A : Type 0} → Db → World → Result A × World → Type 0
Wrote seen w (ok _, w') = (w'.db ≡ w.db) × (w'.work ≡ seen)
Wrote seen w (err _, w') = w'.db ≡ w.db

-- A call that began with `before` committed `change` of it if it succeeded, and nothing if not.
abbrev pub AllOrNothing : {A : Type 0} → (Db → Db) → Db → Result A × World → Type 0
AllOrNothing change before (ok _, w) = w.db ≡ change before
AllOrNothing change before (err _, w) = w.db ≡ before

module _ {A B : Type 0} (seen later : Db) (w : World) where
  bind_result :
      (r : Result A) (w₁ : World) (k : A → Action B)
      → Wrote seen w (r, w₁)
      → ((a : A) (w' : World) → w'.db ≡ w.db → w'.work ≡ seen → Wrote later w' (k a w'))
      → Wrote later w (elim r as (λ _. Result B × World) [ ok a ↦ k a w₁ | err e ↦ (err e, w₁) ])
  bind_result (ok a) w₁ k h next = relay (k a w₁) (next a w₁ h.0 h.1)
    where
      relay : (r : Result B × World) → Wrote later w₁ r → Wrote later w r
      relay (ok b, w₂) g = (g.0 ∙ h.0, g.1)
      relay (err e, w₂) g = g ∙ h.0
  bind_result (err e) w₁ k h next = h

  pub Wrote-bind :
      (m : Action A) (k : A → Action B)
      → Wrote seen w (m w)
      → ((a : A) (w' : World) → w'.db ≡ w.db → w'.work ≡ seen → Wrote later w' (k a w'))
      → Wrote later w ((m >>= k) w)
  Wrote-bind m k h next = bind_result (m w).0 (m w).1 k h next

-- A transaction commits what its body wrote, or nothing.
pub transaction-AllOrNothing :
    {A : Type 0} (change : Db → Db) (m : Action A) (w : World)
    → Wrote (change w.db) (record w { work = w.db }) (m (record w { work = w.db }))
    → AllOrNothing change w.db (transaction m w)
transaction-AllOrNothing change m w h = ground arith
