-- ===== src/Attempts/Lockout.antt =====
-- Failed sign-ins of src/modules/auth/attempts/attempts.service.ts, one by one and in runs.
use nestjs_auth_backend.Base.{
  ℕ, ◌+◌, ◌≤◌, ◌≡◌, ◌≢◌, inl, inr, true, false, Option, none, some, String, List, [], ◌∷◌, arith,
  if◌then◌else◌, leb, ◌==◌, eq_iff, eq_refl, Option-cases, find-holds, find-save, find-insert_row,
  find-delete_where, find-delete_where_ne, length, ==_refl,
}
use nestjs_auth_backend.Entities.{AuthAttempts}
use nestjs_auth_backend.World.{World, ok}
use nestjs_auth_backend.Attempts.{
  attempt_of, has_email, first_failure, next_failure, calculate_block, record_failure, reset,
  one_day,
}

-- The failures counted for an email; no row is none.
abbrev pub failures : Option AuthAttempts → ℕ
failures none = 0
failures (some a) = a.attempts

abbrev pub blocked_until_of : Option AuthAttempts → Option ℕ
blocked_until_of none = none
blocked_until_of (some a) = a.blocked_until

-- The row of an email after one more failure.
abbrev counted : World → String → String → Option AuthAttempts → AuthAttempts
counted w address ip none = first_failure w.now w.serial address ip
counted w address ip (some a) = next_failure w.now a

pub record_failure_row :
    (address ip : String) (w : World)
    → w.faults ≡ []
    → ((record_failure address ip w).0 ≡ ok tt)
      × (attempt_of address (record_failure address ip w).1.db
          ≡ some (counted w address ip (attempt_of address w.db)))
      × ((record_failure address ip w).1.faults ≡ [])
unfolding record_failure
record_failure_row address ip w calm = elim (Option-cases (attempt_of address w.db)) [
  | inl e ↦ ground (
    arith,
    find-insert_row (has_email address) (first_failure w.now w.serial address ip) w.db.attempts e
        (eq_refl address),
  )
  | inr (a, e) ↦ ground (
    arith,
    find-save (has_email address) (λ r. r.id == a.id) (next_failure w.now a) w.db.attempts a
        (find-holds (has_email address) w.db.attempts a e) (==_refl a.id) e,
  )
]

-- Where no external call fails: `recordFailure` succeeds, raises the count of its email by one,
-- and sets the block that `calculateBlock` gives for the new count at the time of the failure.
pub record_failure_counts :
    (address ip : String) (w : World)
    → w.faults ≡ []
    → let before = failures (attempt_of address w.db) in
      let after = attempt_of address (record_failure address ip w).1.db in
      ((record_failure address ip w).0 ≡ ok tt)
      × (failures after ≡ before + 1)
      × (blocked_until_of after ≡ calculate_block w.now (before + 1))
record_failure_counts address ip w calm = ground (arith, record_failure_row address ip w calm)

-- A run of failures of one email, each at the time of its own.
abbrev pub fail_at : String → String → List ℕ → World → World
fail_at address ip [] w = w
fail_at address ip (t ∷ ts) w =
    fail_at address ip ts (record_failure address ip (record w { now = t })).1

fail_at-faults :
    (address ip : String) (ts : List ℕ) (w : World)
    → w.faults ≡ []
    → (fail_at address ip ts w).faults ≡ []
fail_at-faults address ip [] w calm = calm
fail_at-faults address ip (t ∷ ts) w calm =
    fail_at-faults address ip ts _ (record_failure_row address ip (record w { now = t }) calm).2

-- Where no external call fails: a run of failures of one email raises its count by the number of
-- the failures, however they are spread over time and over earlier blocks.
pub fail_at_counts :
    (address ip : String) (ts : List ℕ) (w : World)
    → w.faults ≡ []
    → failures (attempt_of address (fail_at address ip ts w).db)
      ≡ failures (attempt_of address w.db) + length ts
fail_at_counts address ip [] w calm = omega arith
fail_at_counts address ip (t ∷ ts) w calm =
    let first = record_failure_counts address ip (record w { now = t }) calm in
    let rest =
      fail_at_counts address ip ts (record_failure address ip (record w { now = t })).1
        (record_failure_row address ip (record w { now = t }) calm).2 in
    omega (arith, first.1, rest)

-- The block that is set at `now`, measured from `now`; no block is 0.
abbrev pub block_length : ℕ → ℕ
block_length attempts = elim (calculate_block 0 attempts) [ none ↦ 0 | some t ↦ t ]

-- Blocks start with the fifth failure, more failures never block for less time, no block is longer
-- than a day, and a block ends that much after the time of the failure.
pub calculate_block_lem :
    (now m n : ℕ)
    → m ≤ n
    → (block_length m ≤ block_length n)
      × (block_length n ≤ one_day)
      × (calculate_block now n ≡ (if leb 5 n then some (now + block_length n) else none))
unfolding calculate_block
calculate_block_lem now m n h = ground arith

-- Where no external call fails: `reset` forgets the failures of the email and leaves those of
-- every other email as they were.
pub reset_clears :
    (address other : String) (w : World)
    → w.faults ≡ []
    → other ≢ address
    → ((reset address w).0 ≡ ok tt)
      × (attempt_of address (reset address w).1.db ≡ none)
      × (attempt_of other (reset address w).1.db ≡ attempt_of other w.db)
unfolding reset
reset_clears address other w calm apart = ground (
  arith,
  find-delete_where (has_email address) w.db.attempts,
  find-delete_where_ne (has_email other) (has_email address) w.db.attempts apart_rows,
)
  where
    apart_rows : (x : AuthAttempts) → has_email address x ≡ true → has_email other x ≡ false
    apart_rows x e = ground (arith, eq_iff x.email address, eq_iff x.email other)
