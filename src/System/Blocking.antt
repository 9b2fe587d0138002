-- ===== src/System/Blocking.antt =====
-- The sign-in endpoint of src/modules/auth/auth.controller.ts and `BruteForceGuard` before it.
use nestjs_auth_backend.Base.{◌≡◌, true, false, none, String, [], arith}
use nestjs_auth_backend.Errors.{http, brute_force_blocked}
use nestjs_auth_backend.Permissions.{trim, is_empty}
use nestjs_auth_backend.World.{World, err, ◌>>=◌, pure, Env}
use nestjs_auth_backend.Attempts.{attempt_of, find_email}
use nestjs_auth_backend.Guards.{brute_force_guard}
use nestjs_auth_backend.Guards.Access.{IsBlocked}
use nestjs_auth_backend.Auth.SignIn.{login}
use nestjs_auth_backend.Requests.{Incoming, request_of, ensure_device_id, login_email, or_empty}
use nestjs_auth_backend.Routes.{sign_in, sign_in_reply, handle_sign_in, handle_open}

module _ (env : Env) (r : Incoming) (address password : String) (w : World)
    (calm : w.faults ≡ []) where
  -- Where no external call fails: while a block of an email is on, a sign-in with exactly this
  -- email is refused with `BRUTE_FORCE_BLOCKED` whatever the password is, and nothing changes: no
  -- failure is counted and no row of the audit log is written.
  pub sign_in_blocked :
      is_empty address ≡ false
      → IsBlocked address w
      → handle_open env r (sign_in address password) w ≡ (err (http brute_force_blocked), w)
  unfolding handle_open handle_sign_in brute_force_guard find_email
  sign_in_blocked given blocked = ground arith

  -- Where no external call fails, for a valid request from a known device: a sign-in with an email
  -- that no failure is stored for as it was sent goes on to `login` with the trimmed, lower-case
  -- email, whatever block of that email is on.
  pub sign_in_other_spelling :
      is_empty address ≡ false
      → attempt_of address w.db ≡ none
      → r.is_valid ≡ true
      → is_empty (or_empty r.device_cookie) ≡ false
      → handle_open env r (sign_in address password) w
        ≡ (login env
                (request_of env r)
                (login_email address)
                (trim password)
                (or_empty r.device_cookie)
              >>= λ out. pure (sign_in_reply out))
            w
  unfolding handle_open handle_sign_in brute_force_guard find_email ensure_device_id
  sign_in_other_spelling given missing valid known = ground arith
