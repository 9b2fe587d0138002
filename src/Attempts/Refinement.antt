-- ===== src/Attempts/Refinement.antt =====
-- The table of src/modules/auth/attempts/attempts.service.ts as a ledger: for each email the
-- failures since it was cleared, and the block that the last of them set.
use nestjs_auth_backend.Base.{
  ℕ, suc, ◌<◌, ◌≡◌, refl, ap, ◌∙◌, sym, subst, inl, inr, Bool, true, false, Option, none, some,
  String, List, [], ◌∷◌, arith, if◌then◌else◌, ◌==◌, str_eq, eq_iff, eq_refl, Bool-cases,
  Option-cases, All, All-map, All-insert_row, find, find-All, find-holds, insert_row, update_where,
  delete_where, ==_refl, ==_iff, find-delete_where,
}
use nestjs_auth_backend.Entities.{AuthAttempts}
use nestjs_auth_backend.World.{World, Db}
use nestjs_auth_backend.Attempts.{
  attempt_of, has_email, first_failure, next_failure, calculate_block, record_failure, reset,
}
use nestjs_auth_backend.Attempts.Lockout.{
  failures, blocked_until_of, record_failure_row, record_failure_counts, reset_clears,
}

-- A failed sign-in with an email from an address at a time, or a sign-in that clears the email.
pub data Attempt : Type 0 where
  failed : String → String → ℕ → Attempt
  cleared : String → Attempt

abbrev pub perform : Attempt → World → World
perform (failed email ip t) w = (record_failure email ip (record w { now = t })).1
perform (cleared email) w = (reset email w).1

abbrev pub perform_all : List Attempt → World → World
perform_all [] w = w
perform_all (a ∷ rest) w = perform_all rest (perform a w)

-- The abstract view: for each email the failures that count, and the block.
abbrev pub Ledger : Type 0
Ledger = String → ℕ × Option ℕ

abbrev pub ledger_of : Db → Ledger
ledger_of d email = (failures (attempt_of email d), blocked_until_of (attempt_of email d))

abbrev pub note : Attempt → Ledger → Ledger
note (failed email ip t) l other =
    if str_eq email other then (suc (l other).0, calculate_block t (suc (l other).0)) else l other
note (cleared email) l other = if str_eq email other then (0, none) else l other

abbrev pub note_all : List Attempt → Ledger → Ledger
note_all [] l = l
note_all (a ∷ rest) l = note_all rest (note a l)

-- No two rows share an id.
abbrev pub Distinct : List AuthAttempts → Type 0
Distinct [] = Unit
Distinct (x ∷ xs) = All (λ y. (y.id == x.id) ≡ false) xs × Distinct xs

-- No two rows share an id, and the next id is free.
abbrev pub IsTable : World → Type 0
IsTable w = Distinct w.db.attempts × All (λ x. x.id < w.serial) w.db.attempts

find-insert_row_ne :
    (p : AuthAttempts → Bool) (x : AuthAttempts) (xs : List AuthAttempts)
    → p x ≡ false
    → find p (insert_row x xs) ≡ find p xs
find-insert_row_ne p x [] e = rw e refl
find-insert_row_ne p x (y ∷ xs) e =
    ap (λ r. if p y then some y else r) (find-insert_row_ne p x xs e)

update_where-none :
    (p : AuthAttempts → Bool) (f : AuthAttempts → AuthAttempts) (xs : List AuthAttempts)
    → All (λ x. p x ≡ false) xs
    → update_where p f xs ≡ xs
update_where-none p f [] h = refl
update_where-none p f (x ∷ xs) h = rw (h.0) (ap (λ ys. x ∷ ys) (update_where-none p f xs h.1))

-- Saving the row that a test found does not change what another test finds, where neither the old
-- nor the new row passes the other test.
find-save_other :
    (p q : AuthAttempts → Bool) (new a : AuthAttempts) (xs : List AuthAttempts)
    → Distinct xs
    → find p xs ≡ some a
    → q a ≡ false
    → q new ≡ false
    → find q (update_where (λ r. r.id == a.id) (λ _. new) xs) ≡ find q xs
find-save_other p q new a [] distinct e old fresh = refl
find-save_other p q new a (x ∷ xs) distinct e old fresh = elim (Bool-cases (p x)) [
  | inl hit ↦
      let here : x ≡ a = ground arith in
      let rest : update_where (λ r. r.id == a.id) (λ _. new) xs ≡ xs =
        update_where-none (λ r. r.id == a.id) (λ _. new) xs
          (subst (λ y. All (λ r. (r.id == y.id) ≡ false) xs) here distinct.0) in
      let same : (x.id == a.id) ≡ true = rw here (==_refl a.id) in
      let missed : q x ≡ false = rw here old in rw same (rw fresh (rw missed (ap (find q) rest)))
  | inr miss ↦
      let later : find p xs ≡ some a = ground arith in
      let apart : (a.id == x.id) ≡ false = find-All _ p xs a distinct.0 later in
      let apart' : (x.id == a.id) ≡ false = ground arith in
      rw apart' (
        ap (λ r. if q x then some x else r)
          (find-save_other p q new a xs distinct.1 later old fresh))
]

record_failure_other :
    (address ip other : String) (w : World)
    → w.faults ≡ []
    → IsTable w
    → str_eq address other ≡ false
    → attempt_of other (record_failure address ip w).1.db ≡ attempt_of other w.db
unfolding record_failure
record_failure_other address ip other w calm table apart =
    elim (Option-cases (attempt_of address w.db)) [
      | inl e ↦ ground (
        arith,
        find-insert_row_ne (has_email other) (first_failure w.now w.serial address ip) w.db.attempts
            apart,
      )
      | inr (a, e) ↦
          let named : a.email ≡ address =
            (eq_iff a.email address).0 (find-holds (has_email address) w.db.attempts a e) in
          let differs : str_eq a.email other ≡ false = rw named apart in
          ground (
            arith,
            find-save_other (has_email address) (has_email other) (next_failure w.now a) a
                w.db.attempts table.0 e differs differs,
          )
    ]

Distinct-insert_row :
    (x : AuthAttempts) (xs : List AuthAttempts)
    → Distinct xs
    → All (λ y. y.id < x.id) xs
    → Distinct (insert_row x xs)
Distinct-insert_row x [] h small = (tt, tt)
Distinct-insert_row x (y ∷ xs) h small = (
  All-insert_row (λ z. (z.id == y.id) ≡ false) x xs (ground arith) h.0,
  Distinct-insert_row x xs h.1 small.1,
)

-- A row that is saved keeps its id, so what holds of the ids still does.
All-save {ℓ} :
    (R : ℕ → Type ℓ) (a new : AuthAttempts) (xs : List AuthAttempts)
    → new.id ≡ a.id
    → All (λ y. R y.id) xs
    → All (λ y. R y.id) (update_where (λ r. r.id == a.id) (λ _. new) xs)
All-save R a new [] e h = tt
All-save R a new (x ∷ xs) e h = elim (Bool-cases (x.id == a.id)) [
  | inl hit ↦
      let same : x.id ≡ new.id = (==_iff x.id a.id).0 hit ∙ sym e in
      rw hit (subst R same h.0, All-save R a new xs e h.1)
  | inr miss ↦ rw miss (h.0, All-save R a new xs e h.1)
]

Distinct-save :
    (a new : AuthAttempts) (xs : List AuthAttempts)
    → new.id ≡ a.id
    → Distinct xs
    → Distinct (update_where (λ r. r.id == a.id) (λ _. new) xs)
Distinct-save a new [] e h = tt
Distinct-save a new (x ∷ xs) e h = elim (Bool-cases (x.id == a.id)) [
  | inl hit ↦
      let same : x.id ≡ new.id = (==_iff x.id a.id).0 hit ∙ sym e in
      rw hit (
        All-save (λ n. (n == new.id) ≡ false) a new xs e
            (subst (λ k. All (λ y. (y.id == k) ≡ false) xs) same h.0),
        Distinct-save a new xs e h.1,
      )
  | inr miss ↦
      rw miss (All-save (λ n. (n == x.id) ≡ false) a new xs e h.0, Distinct-save a new xs e h.1)
]

All-delete_where {ℓ} :
    (P : AuthAttempts → Type ℓ) (p : AuthAttempts → Bool) (xs : List AuthAttempts)
    → All P xs
    → All P (delete_where p xs)
All-delete_where P p [] h = tt
All-delete_where P p (x ∷ xs) h = elim (Bool-cases (p x)) [
  | inl e ↦ rw e (All-delete_where P p xs h.1)
  | inr e ↦ rw e (h.0, All-delete_where P p xs h.1)
]

Distinct-delete_where :
    (p : AuthAttempts → Bool) (xs : List AuthAttempts) → Distinct xs → Distinct (delete_where p xs)
Distinct-delete_where p [] h = tt
Distinct-delete_where p (x ∷ xs) h = elim (Bool-cases (p x)) [
  | inl e ↦ rw e (Distinct-delete_where p xs h.1)
  | inr e ↦
      rw e (All-delete_where (λ y. (y.id == x.id) ≡ false) p xs h.0, Distinct-delete_where p xs h.1)
]

IsTable-record_failure :
    (address ip : String) (w : World)
    → w.faults ≡ []
    → IsTable w
    → IsTable (record_failure address ip w).1
unfolding record_failure
IsTable-record_failure address ip w calm table = elim (Option-cases (attempt_of address w.db)) [
  | inl e ↦
      let new = first_failure w.now w.serial address ip in
      let rows : (record_failure address ip w).1.db.attempts ≡ insert_row new w.db.attempts =
        ground arith in
      let next : (record_failure address ip w).1.serial ≡ suc w.serial = ground arith in
      rw (rows, next)
        (
          Distinct-insert_row new w.db.attempts table.0 table.1,
          All-insert_row (λ x. x.id < suc w.serial) new w.db.attempts (omega arith)
              (All-map _ _ w.db.attempts (λ x small. omega (arith, small)) table.1),
        )
  | inr (a, e) ↦
      let new = next_failure w.now a in
      let rows : (record_failure address ip w).1.db.attempts
          ≡ update_where (λ r. r.id == a.id) (λ _. new) w.db.attempts =
        ground arith in
      let next : (record_failure address ip w).1.serial ≡ w.serial = ground arith in
      rw (rows, next)
        (
          Distinct-save a new w.db.attempts refl table.0,
          All-save (λ n. n < w.serial) a new w.db.attempts refl table.1,
        )
]

IsTable-reset :
    (address : String) (w : World) → w.faults ≡ [] → IsTable w → IsTable (reset address w).1
unfolding reset
IsTable-reset address w calm table =
    let rows : (reset address w).1.db.attempts ≡ delete_where (has_email address) w.db.attempts =
      ground arith in
    let next : (reset address w).1.serial ≡ w.serial = ground arith in
    rw (rows, next)
      (
        Distinct-delete_where (has_email address) w.db.attempts table.0,
        All-delete_where (λ x. x.id < w.serial) (has_email address) w.db.attempts table.1,
      )

perform-note :
    (a : Attempt) (w : World) (other : String)
    → w.faults ≡ []
    → IsTable w
    → ledger_of (perform a w).db other ≡ note a (ledger_of w.db) other
unfolding reset
perform-note (failed email ip t) w other calm table = elim (Bool-cases (str_eq email other)) [
  | inl e ↦
      let named : email ≡ other = (eq_iff email other).0 e in
      ground (arith, named, record_failure_counts email ip (record w { now = t }) calm)
  | inr e ↦ ground (arith, record_failure_other email ip other (record w { now = t }) calm table e)
]
perform-note (cleared email) w other calm table = elim (Bool-cases (str_eq email other)) [
  | inl e ↦
      let named : email ≡ other = (eq_iff email other).0 e in
      ground (arith, named, find-delete_where (has_email email) w.db.attempts, calm)
  | inr e ↦ ground (arith, reset_clears email other w calm (λ q. absurd (cc (e, q, eq_refl email))))
]

perform-calm : (a : Attempt) (w : World) → w.faults ≡ [] → (perform a w).faults ≡ []
unfolding reset
perform-calm (failed email ip t) w calm =
    (record_failure_row email ip (record w { now = t }) calm).2
perform-calm (cleared email) w calm = ground arith

perform-IsTable : (a : Attempt) (w : World) → w.faults ≡ [] → IsTable w → IsTable (perform a w)
perform-IsTable (failed email ip t) w calm table =
    IsTable-record_failure email ip (record w { now = t }) calm table
perform-IsTable (cleared email) w calm table = IsTable-reset email w calm table

note-cong :
    (a : Attempt) {l m : Ledger} (other : String)
    → ((e : String) → l e ≡ m e)
    → note a l other ≡ note a m other
note-cong (failed email ip t) other same =
    ap (λ x. if str_eq email other then (suc x.0, calculate_block t (suc x.0)) else x) (same other)
note-cong (cleared email) other same =
    ap (λ x. if str_eq email other then (0, none) else x) (same other)

note_all-cong :
    (events : List Attempt) {l m : Ledger} (other : String)
    → ((e : String) → l e ≡ m e)
    → note_all events l other ≡ note_all events m other
note_all-cong [] other same = same other
note_all-cong (a ∷ rest) other same = note_all-cong rest other (λ e. note-cong a e same)

-- `Attempts` refines a ledger. Where no external call fails, after any sequence of failures, each
-- at a time of its own, and of clearings, of any emails in any order, the table holds for every
-- email exactly what the ledger says: the failures since it was cleared, and the block that the
-- last of them set. The table at the start has no repeated id, and the next id is free.
pub perform_all-note_all :
    (events : List Attempt) (w : World) (email : String)
    → w.faults ≡ []
    → IsTable w
    → ledger_of (perform_all events w).db email ≡ note_all events (ledger_of w.db) email
perform_all-note_all [] w email calm table = refl
perform_all-note_all (a ∷ rest) w email calm table =
    perform_all-note_all rest (perform a w) email (perform-calm a w calm)
      (perform-IsTable a w calm table)
    ∙ note_all-cong rest email (λ other. perform-note a w other calm table)
