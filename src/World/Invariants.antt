-- ===== src/World/Invariants.antt =====
-- Predicates of the database that every call of an action keeps, whatever fails on the way.
use nestjs_auth_backend.Base.{
  ◌≡◌, refl, inl, inr, Bool-cases, List, Bool, true, false, Option, none, some, String, arith,
  if◌then◌else◌,
}
use nestjs_auth_backend.Errors.{ErrorCode, Error}
use nestjs_auth_backend.World.Actions.{
  Db, World, Result, ok, err, Action, ◌>>=◌, pure, throw, gets, throw_if, or_throw, try_catch,
  not_awaited, Conn, direct, manager, query, execute, execute_unless, execute_unique, draw,
  transaction, send_mail,
}

-- What holds of the committed database and of what the open transaction sees holds of both after `m`.
pub record Keeps (P : Db → Type 0) {A : Type 0} (m : Action A) : Type 0 where
  pub apply : (w : World) → P w.db → P w.work → P (m w).1.db × P (m w).1.work

module _ (P : Db → Type 0) where
  pub Keeps-bind :
      {A C : Type 0} {m : Action A} {k : A → Action C}
      → Keeps P m
      → ((a : A) → Keeps P (k a))
      → Keeps P (m >>= k)
  Keeps-bind {A} {C} {m} {k} hm hk = record {
    apply = λ w h g. step (m w).0 (m w).1 (hm.apply w h g);
  }
    where
      step :
          (r : Result A) (w : World)
          → P w.db × P w.work
          → let out = elim r as (λ _. Result C × World) [ ok a ↦ k a w | err e ↦ (err e, w) ] in
            P out.1.db × P out.1.work
      step (ok a) w h = (hk a).apply w h.0 h.1
      step (err e) w h = h

  pub Keeps-pure : {A : Type 0} (a : A) → Keeps P (pure a)
  Keeps-pure a = record { apply = λ w h g. (h, g) }

  pub Keeps-gets : {A : Type 0} (f : World → A) → Keeps P (gets f)
  Keeps-gets f = record { apply = λ w h g. (h, g) }

  pub Keeps-throw : {A : Type 0} (e : Error) → Keeps P (throw {A = A} e)
  Keeps-throw e = record { apply = λ w h g. (h, g) }

  pub Keeps-throw_if : (b : Bool) (c : ErrorCode) → Keeps P (throw_if b c)
  Keeps-throw_if b c = record { apply = λ w h g. (h, g) }

  pub Keeps-or_throw : {A : Type 0} (o : Option A) (e : Error) → Keeps P (or_throw o e)
  Keeps-or_throw none e = record { apply = λ w h g. (h, g) }
  Keeps-or_throw (some a) e = record { apply = λ w h g. (h, g) }

  pub Keeps-draw : Keeps P draw
  Keeps-draw = record { apply = λ w h g. (h, g) }

  pub Keeps-query : {A : Type 0} (c : Conn) (f : Db → A) → Keeps P (query c f)
  Keeps-query c f = record { apply = λ w h g. ground arith }

  pub Keeps-execute : (c : Conn) (f : Db → Db) → ((d : Db) → P d → P (f d)) → Keeps P (execute c f)
  Keeps-execute direct f kept = record {
    apply = λ w h g. ground (arith, kept w.db h, kept w.work g);
  }
  Keeps-execute manager f kept = record { apply = λ w h g. ground (arith, kept w.work g) }

  pub Keeps-execute_unless :
      (c : Conn) (clash : Db → Bool) (f : Db → Db)
      → ((d : Db) → P d → P (f d))
      → Keeps P (execute_unless c clash f)
  Keeps-execute_unless direct clash f kept = record {
    apply = λ w h g. ground (arith, kept w.db h, kept w.work g);
  }
  Keeps-execute_unless manager clash f kept = record {
    apply = λ w h g. ground (arith, kept w.work g);
  }

  pub Keeps-execute_unique :
      (c : Conn) (clash : Db → Bool) (f : Db → Db)
      → ((d : Db) → clash d ≡ false → P d → P (f d))
      → Keeps P (execute_unique c clash f)
  Keeps-execute_unique c clash f kept = record { apply = λ w h g. outcome c w w.faults refl h g }
    where
      outcome :
          (c : Conn) (w : World) (faults : List Bool)
          → w.faults ≡ faults
          → P w.db
          → P w.work
          → P (execute_unique c clash f w).1.db × P (execute_unique c clash f w).1.work
      outcome direct w faults e h g = elim (Bool-cases (clash w.db)) [
        | inl t ↦ ground arith
        | inr t ↦ elim (Bool-cases (clash w.work)) [
          | inl s ↦ ground arith
          | inr s ↦ ground (arith, kept w.db t h, kept w.work s g)
        ]
      ]
      outcome manager w faults e h g = elim (Bool-cases (clash w.work)) [
        | inl s ↦ ground arith
        | inr s ↦ ground (arith, kept w.work s g)
      ]

  pub Keeps-try_catch : {A : Type 0} {m : Action A} → Keeps P m → Keeps P (try_catch m)
  Keeps-try_catch {A} {m} k = record { apply = λ w h g. ground (arith, k.apply w h g) }

  pub Keeps-not_awaited : {A : Type 0} {m : Action A} → Keeps P m → Keeps P (not_awaited m)
  Keeps-not_awaited k = record { apply = λ w h g. k.apply w h g }

  pub Keeps-send_mail :
      (to template : String) (secret : Option String) → Keeps P (send_mail to template secret)
  unfolding send_mail
  Keeps-send_mail to template secret = record { apply = λ w h g. ground arith }

  pub Keeps-if :
      {A : Type 0} (b : Bool) {m n : Action A}
      → Keeps P m
      → Keeps P n
      → Keeps P (if b then m else n)
  Keeps-if true hm hn = hm
  Keeps-if false hm hn = hn

  pub Keeps-transaction : {A : Type 0} {m : Action A} → Keeps P m → Keeps P (transaction m)
  Keeps-transaction {A} {m} k = record {
    apply = λ w h g. ground (arith, k.apply (record w { work = w.db }) h h);
  }

  pub ruleset keeps_rules = (
    Keeps-bind, Keeps-pure, Keeps-gets, Keeps-throw, Keeps-throw_if, Keeps-or_throw, Keeps-draw,
    Keeps-query, Keeps-execute, Keeps-execute_unless, Keeps-execute_unique, Keeps-try_catch,
    Keeps-not_awaited, Keeps-send_mail, Keeps-if, Keeps-transaction,
  )
