-- ===== src/World/Rules.antt =====
-- What an action leaves alone in the committed database, whatever fails on the way.
use nestjs_auth_backend.Base.{
  Bool, true, false, Option, none, some, String, ◌≡◌, refl, ◌∙◌, arith, if◌then◌else◌,
}
use nestjs_auth_backend.Errors.{ErrorCode, Error}
use nestjs_auth_backend.World.Actions.{
  Db, World, Result, ok, err, Action, ◌>>=◌, pure, throw, gets, throw_if, or_throw, try_catch,
  not_awaited, Conn, direct, manager, query, execute, execute_unless, execute_unique, draw,
  transaction, send_mail,
}

-- `m` leaves the part `part` of the committed database as it was.
pub record Leaves {B : Type 0} (part : Db → B) {A : Type 0} (m : Action A) : Type 0 where
  pub apply : (w : World) → part (m w).1.db ≡ part w.db

module _ {B : Type 0} (part : Db → B) where
  pub Leaves-bind :
      {A C : Type 0} {m : Action A} {k : A → Action C}
      → Leaves part m
      → ((a : A) → Leaves part (k a))
      → Leaves part (m >>= k)
  Leaves-bind {A} {C} {m} {k} hm hk = record { apply = λ w. step w (m w).0 }
    where
      step :
          (w : World) (r : Result A)
          → part
              (elim r as (λ _. Result C × World) [
                | ok a ↦ k a (m w).1
                | err e ↦ (err e, (m w).1)
              ]).1.db
            ≡ part w.db
      step w (ok a) = (hk a).apply (m w).1 ∙ hm.apply w
      step w (err e) = hm.apply w

  pub Leaves-pure : {A : Type 0} (a : A) → Leaves part (pure a)
  Leaves-pure a = record { apply = λ w. refl }

  pub Leaves-gets : {A : Type 0} (f : World → A) → Leaves part (gets f)
  Leaves-gets f = record { apply = λ w. refl }

  pub Leaves-throw : {A : Type 0} (e : Error) → Leaves part (throw {A = A} e)
  Leaves-throw e = record { apply = λ w. refl }

  pub Leaves-throw_if : (b : Bool) (c : ErrorCode) → Leaves part (throw_if b c)
  Leaves-throw_if b c = record { apply = λ w. refl }

  pub Leaves-or_throw : {A : Type 0} (o : Option A) (e : Error) → Leaves part (or_throw o e)
  Leaves-or_throw none e = record { apply = λ w. refl }
  Leaves-or_throw (some a) e = record { apply = λ w. refl }

  pub Leaves-draw : Leaves part draw
  Leaves-draw = record { apply = λ w. refl }

  pub Leaves-query : {A : Type 0} (c : Conn) (f : Db → A) → Leaves part (query c f)
  Leaves-query c f = record { apply = λ w. ground arith }

  pub Leaves-execute_manager : (f : Db → Db) → Leaves part (execute manager f)
  Leaves-execute_manager f = record { apply = λ w. ground arith }

  pub Leaves-execute :
      (c : Conn) (f : Db → Db) → ((d : Db) → part (f d) ≡ part d) → Leaves part (execute c f)
  Leaves-execute direct f same = record { apply = λ w. ground (arith, same w.db) }
  Leaves-execute manager f same = record { apply = λ w. ground arith }

  pub Leaves-execute_unless_manager :
      (clash : Db → Bool) (f : Db → Db) → Leaves part (execute_unless manager clash f)
  Leaves-execute_unless_manager clash f = record { apply = λ w. ground arith }

  pub Leaves-execute_unless :
      (c : Conn) (clash : Db → Bool) (f : Db → Db)
      → ((d : Db) → part (f d) ≡ part d)
      → Leaves part (execute_unless c clash f)
  Leaves-execute_unless direct clash f same = record { apply = λ w. ground (arith, same w.db) }
  Leaves-execute_unless manager clash f same = record { apply = λ w. ground arith }

  pub Leaves-execute_unique_manager :
      (clash : Db → Bool) (f : Db → Db) → Leaves part (execute_unique manager clash f)
  Leaves-execute_unique_manager clash f = record { apply = λ w. ground arith }

  pub Leaves-execute_unique :
      (c : Conn) (clash : Db → Bool) (f : Db → Db)
      → ((d : Db) → part (f d) ≡ part d)
      → Leaves part (execute_unique c clash f)
  Leaves-execute_unique direct clash f same = record { apply = λ w. ground (arith, same w.db) }
  Leaves-execute_unique manager clash f same = record { apply = λ w. ground arith }

  pub Leaves-try_catch : {A : Type 0} {m : Action A} → Leaves part m → Leaves part (try_catch m)
  Leaves-try_catch {A} {m} h = record { apply = λ w. ground (arith, h.apply w) }

  pub Leaves-not_awaited : {A : Type 0} {m : Action A} → Leaves part m → Leaves part (not_awaited m)
  Leaves-not_awaited h = record { apply = λ w. h.apply w }

  pub Leaves-send_mail :
      (to template : String) (secret : Option String) → Leaves part (send_mail to template secret)
  unfolding send_mail
  Leaves-send_mail to template secret = record { apply = λ w. ground arith }

  pub Leaves-if :
      {A : Type 0} (b : Bool) {m n : Action A}
      → Leaves part m
      → Leaves part n
      → Leaves part (if b then m else n)
  Leaves-if true hm hn = hm
  Leaves-if false hm hn = hn

  -- A transaction whose body leaves the part alone leaves it alone too where it fails.
  pub transaction_rolls_back :
      {A : Type 0} (m : Action A)
      → Leaves part m
      → (w : World) {e : Error} → (transaction m w).0 ≡ err e
      → part (transaction m w).1.db ≡ part w.db
  transaction_rolls_back m h w failed = ground (arith, h.apply (record w { work = w.db }))

  pub ruleset leaves_rules = (
    Leaves-bind, Leaves-pure, Leaves-gets, Leaves-throw, Leaves-throw_if, Leaves-or_throw,
    Leaves-draw, Leaves-query, Leaves-execute_manager, Leaves-execute_unless_manager,
    Leaves-execute_unique_manager, Leaves-try_catch, Leaves-not_awaited, Leaves-send_mail,
    Leaves-if,
  )
