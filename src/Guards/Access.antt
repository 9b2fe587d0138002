-- ===== src/Guards/Access.antt =====
-- The guards of src/modules/auth/guards that look into the store: who passes.
use Prim.Native.String.{◌++◌ as str_append}
use nestjs_auth_backend.Base.{
  ℕ, ◌<◌, ◌+◌, ◌≤◌, ◌≡◌, ◌≢◌, ◌↔◌, refl, inl, inr, true, ◌&&◌, none, some, String, [], arith, ◌==◌,
  ltb, All, All-map, Option-cases, when_some,
}
use nestjs_auth_backend.Errors.{http, brute_force_blocked}
use nestjs_auth_backend.Entities.{User, AuthReAuthToken}
use nestjs_auth_backend.World.{World, ok, err, Env, Payload, direct}
use nestjs_auth_backend.Attempts.{
  record_failure, calculate_block, five_minutes, attempt_of, find_email,
}
use nestjs_auth_backend.Attempts.Lockout.{
  failures, record_failure_counts, record_failure_row, blocked_until_of,
}
use nestjs_auth_backend.ReAuth.{reauth_by_token, validate, consume_token}
use nestjs_auth_backend.ReAuth.Tokens.{consume_token_once}
use nestjs_auth_backend.Users.Lookup.{live_user, is_active_status, get_user_secret}
use nestjs_auth_backend.Guards.{
  Http, present, extract_token, brute_force_guard, auth_guard, re_auth_guard,
}

-- Whether the store holds a block of the email that is still on.
abbrev pub IsBlocked : String → World → Type 0
IsBlocked address w =
    when_some (blocked_until_of (attempt_of address w.db)) (λ t. ltb w.now t) ≡ true

-- Where no external call fails, for a request whose body has an email: `BruteForceGuard` refuses
-- it with `BRUTE_FORCE_BLOCKED` exactly while a block of the email, as it was sent, is on, and
-- lets it through in every other case.
pub brute_force_guard_iff :
    (r : Http) (address : String) (w : World)
    → w.faults ≡ []
    → present r.body_email ≡ some address
    → (((brute_force_guard r w).0 ≡ err (http brute_force_blocked)) ↔ IsBlocked address w)
      × ((brute_force_guard r w).0 ≢ err (http brute_force_blocked)
          → (brute_force_guard r w).0 ≡ ok true)
unfolding brute_force_guard find_email
brute_force_guard_iff r address w calm e =
    ((λ h. ground arith, λ h. ground arith), λ h. ground arith)

-- Whatever external call fails, `AuthGuard` lets a request through only with a token that it found
-- in the request, whose decoded payload names a user who is active and not removed, and which
-- verifies under the secret of that user; the payload on the request is the verified one.
pub auth_guard_sound :
    (env : Env) (r : Http) (w : World) {p : Payload}
    → (auth_guard env r w).0 ≡ ok p
    → (token : String) × (claimed : Payload) × (u : User) × (present (extract_token r) ≡ some token)
      × (env.jwt_decode token ≡ some claimed)
      × (live_user (λ x. x.id == claimed.sub && is_active_status x.status) w.db ≡ some u)
      × (env.jwt_verify token (str_append env.jwt_secret u.user_secret) w.now ≡ some p)
unfolding auth_guard get_user_secret
auth_guard_sound env r w {p} h = elim (Option-cases (present (extract_token r))) [
  | inl e ↦ absurd (ground arith)
  | inr (token, e) ↦ elim (Option-cases (env.jwt_decode token)) [
    | inl d ↦ absurd (ground arith)
    | inr (claimed, d) ↦ verified token claimed e d
  ]
]
  where
    verified :
        (token : String) (claimed : Payload)
        → present (extract_token r) ≡ some token
        → env.jwt_decode token ≡ some claimed
        → (token : String) × (claimed : Payload) × (u : User) × (present (extract_token r)
            ≡ some token)
          × (env.jwt_decode token ≡ some claimed)
          × (live_user (λ x. x.id == claimed.sub && is_active_status x.status) w.db ≡ some u)
          × (env.jwt_verify token (str_append env.jwt_secret u.user_secret) w.now ≡ some p)
    verified token claimed e d =
        elim (Option-cases
          (live_user (λ x. x.id == claimed.sub && is_active_status x.status) w.db)) [
            | inl none_found ↦ absurd (ground arith)
            | inr (u, found) ↦ (token, claimed, u, e, d, found, ground arith)
          ]

-- Where no external call fails: `ReAuthGuard` lets every authenticated user through with a fresh
-- re-authentication token, whoever it was issued to, since the guard reads `user.id`, which the
-- payload has not; and it revokes the re-authentication tokens of every user.
pub re_auth_guard_any_user :
    (env : Env) (user : Payload) (r : Http) (token : String) (t : AuthReAuthToken) (w : World)
    → w.faults ≡ []
    → present r.reauth_header ≡ some token
    → reauth_by_token env none token w.db ≡ some t
    → w.now ≤ t.expires_at
    → ((re_auth_guard env true (some user) r w).0 ≡ ok true)
      × All (λ x. x.revoked ≡ true) (re_auth_guard env true (some user) r w).1.db.reauth_tokens
unfolding re_auth_guard validate
re_auth_guard_any_user env user r token t w calm e found fresh =
    let spent = consume_token_once env none token token w t calm found fresh in
    let same : (re_auth_guard env true (some user) r w).1.db
        ≡ (consume_token env direct none token w).1.db =
      ground (arith, spent.0) in
    (
      ground (arith, spent.0),
      rw same (
          All-map (λ x. true ≡ true → x.revoked ≡ true) (λ x. x.revoked ≡ true) _ (λ x h. h refl)
            spent.1),
    )

failed-IsBlocked :
    (address ip : String) (w : World) (t : ℕ)
    → w.faults ≡ []
    → 4 ≤ failures (attempt_of address w.db)
    → t < w.now + five_minutes
    → IsBlocked address (record (record_failure address ip w).1 { now = t })
unfolding calculate_block
failed-IsBlocked address ip w t calm many soon =
    ground (arith, record_failure_counts address ip w calm)

-- Where no external call fails: after a failure of an email that has at least four failures
-- already, `BruteForceGuard` refuses every request whose body has this email, at any time before
-- five minutes after that failure have passed.
pub fifth_failure_blocks :
    (r : Http) (address ip : String) (w : World) (t : ℕ)
    → w.faults ≡ []
    → present r.body_email ≡ some address
    → 4 ≤ failures (attempt_of address w.db)
    → t < w.now + five_minutes
    → (brute_force_guard r (record (record_failure address ip w).1 { now = t })).0
      ≡ err (http brute_force_blocked)
fifth_failure_blocks r address ip w t calm e many soon =
    (brute_force_guard_iff r address (record (record_failure address ip w).1 { now = t })
        (record_failure_row address ip w calm).2 e).0.1
      (failed-IsBlocked address ip w t calm many soon)
