-- ===== src/Attempts.antt =====
-- src/modules/auth/attempts/attempts.service.ts: failed sign-ins for each email, and how long they
-- block it.
pub mod Lockout
pub mod Refinement
use nestjs_auth_backend.Base.{
  ℕ, ◌+◌, Bool, Option, none, some, String, if◌then◌else◌, leb, ◌==◌, str_eq, is_some, find,
  insert_row, update_where, delete_where,
}
use nestjs_auth_backend.Entities.{AuthAttempts}
use nestjs_auth_backend.World.{
  World, Db, Action, ◌>>=◌, ◌>>◌, gets, query, execute, execute_unless, draw, try_catch, direct,
}

abbrev pub five_minutes : ℕ
five_minutes = 300_000

abbrev pub thirty_minutes : ℕ
thirty_minutes = 1_800_000

abbrev pub one_day : ℕ
one_day = 86_400_000

-- `calculateBlock`: until when so many failures block, counted from now.
unfoldable pub calculate_block : ℕ → ℕ → Option ℕ
calculate_block now attempts =
    if leb 15 attempts
    then some (now + one_day)
    else if leb 10 attempts
    then some (now + thirty_minutes)
    else if leb 5 attempts
    then some (now + five_minutes)
    else none

abbrev pub has_email : String → AuthAttempts → Bool
has_email email a = str_eq a.email email

abbrev pub attempt_of : String → Db → Option AuthAttempts
attempt_of email d = find (has_email email) d.attempts

-- `findEmail`; its promise is returned unawaited, so its own `catch` sees no failure.
unfoldable pub find_email : String → Action (Option AuthAttempts)
find_email email = query direct (attempt_of email)

-- The row that `recordFailure` makes for the first failure, with its block.
abbrev pub first_failure : ℕ → ℕ → String → String → AuthAttempts
first_failure now id email ip = record {
  id = id;
  email = email;
  ip_address = ip;
  attempts = 1;
  blocked_until = calculate_block now 1;
}

-- The loaded row with one failure more, and its new block.
abbrev pub next_failure : ℕ → AuthAttempts → AuthAttempts
next_failure now a = record a {
  attempts = a.attempts + 1;
  blocked_until = calculate_block now (a.attempts + 1);
}

-- The part of `recordFailure` behind the lookup: the new or the counted row, and its `save`.
abbrev pub save_failure : String → String → Option AuthAttempts → Action (Unit {0})
save_failure email ip none = do
  now ← gets (λ w. w.now)
  id ← draw
  try_catch (
      execute_unless direct (λ d. is_some (attempt_of email d))
        (λ d. record d { attempts = insert_row (first_failure now id email ip) d.attempts }))
save_failure email ip (some a) = do
  now ← gets (λ w. w.now)
  try_catch (
      execute direct (λ d. record d {
        attempts = update_where (λ r. r.id == a.id) (λ _. next_failure now a) d.attempts;
      }))

-- `recordFailure`
unfoldable pub record_failure : String → String → Action (Unit {0})
unfolding find_email
record_failure email ip = do attempt ← try_catch (find_email email); save_failure email ip attempt

-- `reset`
unfoldable pub reset : String → Action (Unit {0})
reset email =
    try_catch
      (execute direct (λ d. record d { attempts = delete_where (has_email email) d.attempts }))
