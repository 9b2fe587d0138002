-- ===== src/Auth/SignIn/Laws.antt =====
-- `login` of src/modules/auth/auth.service.ts: who is signed in, and a wrong password.
use nestjs_auth_backend.Base.{
  ℕ, ◌+◌, ◌≡◌, ◌≢◌, refl, ap, subst, ◌∙◌, inl, inr, Bool, true, false, Option, none, some, String,
  List, [], arith, Bool-cases, Option-cases, when_some,
}
use nestjs_auth_backend.Errors.{http, invalid_password}
use nestjs_auth_backend.Entities.{
  User, active, AuthSession, AuthRefreshToken, AuthAttempts, UserAccountCredentials,
}
use nestjs_auth_backend.World.{World, Db, Result, ok, err, Env}
use nestjs_auth_backend.World.Rules.{Leaves, leaves_rules, Leaves-execute, Leaves-execute_unless}
use nestjs_auth_backend.Attempts.{attempt_of, find_email, save_failure, record_failure}
use nestjs_auth_backend.Attempts.Lockout.{failures, record_failure_row, record_failure_counts}
use nestjs_auth_backend.Security.{security_of, create_security, find_one_by_user}
use nestjs_auth_backend.Credentials.{credentials_of}
use nestjs_auth_backend.AuditLog.{create_audit}
use nestjs_auth_backend.Users.Lookup.{Account, LoadedUser, user_by_email, find_one_by_email}
use nestjs_auth_backend.Auth.SignIn.{
  Request, SignIn, SignedIn, signed_in, second_factor, validate_2fa_user, refuse_login, login,
}

-- Whether the stored settings of a user ask for a second factor; no settings ask for none.
abbrev pub asks_second_factor : ℕ → Db → Bool
asks_second_factor user_id d = when_some (security_of user_id d) (λ s. s.two_factor_enabled)

-- The account that `findOneByEmail` gives is the stored user with the stored password hash.
find_one_by_email-ok :
    (address : String) (w : World) {a : Account}
    → (find_one_by_email address w).0 ≡ ok a
    → (user_by_email address w.db ≡ some a.user.row)
      × ((c : UserAccountCredentials) × (credentials_of a.user.row.id w.db ≡ some c)
          × (c.password ≡ a.password))
unfolding find_one_by_email
find_one_by_email-ok address w {a} h = elim (Option-cases (user_by_email address w.db)) [
  | inl e ↦ absurd (ground arith)
  | inr (u, e) ↦ elim (Option-cases (credentials_of u.id w.db)) [
    | inl n ↦ absurd (ground arith)
    | inr (c, n) ↦
        let row : u ≡ a.user.row = ground arith in
        let hash : c.password ≡ a.password = ground arith in
        (e ∙ ap some row, (c, subst (λ v. credentials_of v.id w.db ≡ some c) row n, hash))
  ]
]

find_one_by_email-db : (address : String) (w : World) → (find_one_by_email address w).1.db ≡ w.db
unfolding find_one_by_email
find_one_by_email-db address w = ground arith

-- Behind the password, a sign-in is for an active user whose settings ask for no second factor.
validate_2fa_user-signed_in :
    (env : Env) (req : Request) (user : LoadedUser) (device_id : String) (w : World) {x : SignedIn}
    → (validate_2fa_user env req user device_id w).0 ≡ ok (signed_in x)
    → (user.row.status ≡ active) × (asks_second_factor user.row.id w.db ≡ false)
unfolding validate_2fa_user second_factor find_one_by_user create_security
validate_2fa_user-signed_in env req user device_id w {x} h = ground arith

refuse_login-ne-ok :
    (req : Request) (address : String) (w : World) (s : SignIn)
    → (refuse_login req address w).0 ≢ ok s
unfolding refuse_login record_failure create_audit
refuse_login-ne-ok req address w s h = ground arith

-- Who may be signed in by an email and a password: a user who is not removed and is active, with
-- stored credentials that the password matches, and without a second factor.
abbrev pub MaySignIn : Env → String → String → Db → Type 0
MaySignIn env address password d =
    (u : User) × (c : UserAccountCredentials) × (user_by_email address d ≡ some u)
    × (credentials_of u.id d ≡ some c)
    × (env.bcrypt_compare password c.password ≡ true)
    × (u.status ≡ active)
    × (asks_second_factor u.id d ≡ false)

-- Whatever external call fails on the way, `login` signs somebody in only if the email is that of
-- a user who is not removed and is active, the password matches the stored hash, and the settings
-- of the user ask for no second factor.
pub login_sound :
    (env : Env) (req : Request) (address password device_id : String) (w : World) {x : SignedIn}
    → (login env req address password device_id w).0 ≡ ok (signed_in x)
    → MaySignIn env address password w.db
unfolding login
login_sound env req address password device_id w {x} h =
    by_lookup (find_one_by_email address w).0 refl
  where
    by_account :
        (a : Account)
        → (find_one_by_email address w).0 ≡ ok a
        → env.bcrypt_compare password a.password ≡ true
        → MaySignIn env address password w.db
    by_account a e right =
        let stored = find_one_by_email-ok address w e in
        let checked =
          validate_2fa_user-signed_in env req a.user device_id (find_one_by_email address w).1
            {x = x} (ground arith) in
        (
          a.user.row,
          stored.1.0,
          stored.0,
          stored.1.1,
          rw (stored.1.2) right,
          checked.0,
          rw (find_one_by_email-db address w) at checked.1,
        )

    by_lookup :
        (r : Result Account)
        → (find_one_by_email address w).0 ≡ r
        → MaySignIn env address password w.db
    by_lookup (ok a) e = elim (Bool-cases (env.bcrypt_compare password a.password)) [
      | inl right ↦ by_account a e right
      | inr wrong ↦ absurd (
          refuse_login-ne-ok req address (find_one_by_email address w).1 (signed_in x)
            (ground arith))
    ]
    by_lookup (err k) e = absurd (ground arith)

-- The sessions and the refresh tokens, which are what a sign-in gives.
pub record Grants : Type 0 where
  pub sessions : List AuthSession
  pub refresh_tokens : List AuthRefreshToken

abbrev pub grants_of : Db → Grants
grants_of d = record { sessions = d.sessions; refresh_tokens = d.refresh_tokens }

save_failure-Leaves :
    (address ip : String) (found : Option AuthAttempts)
    → Leaves grants_of (save_failure address ip found)
save_failure-Leaves address ip none = search (leaves_rules, Leaves-execute_unless) depth 20
save_failure-Leaves address ip (some a) = search (leaves_rules, Leaves-execute) depth 20

refuse_login-Leaves :
    (req : Request) (address : String) → Leaves grants_of (refuse_login req address)
unfolding refuse_login record_failure find_email create_audit
refuse_login-Leaves req address =
    search (leaves_rules, save_failure-Leaves, Leaves-execute) depth 20

refuse_login_lem :
    (req : Request) (address : String) (w : World)
    → w.faults ≡ []
    → ((refuse_login req address w).0 ≡ err (http invalid_password))
      × (failures (attempt_of address (refuse_login req address w).1.db)
          ≡ failures (attempt_of address w.db) + 1)
unfolding refuse_login create_audit
refuse_login_lem req address w calm =
    ground
      (arith, record_failure_row address req.ip w calm, record_failure_counts address req.ip w calm)

-- Where no external call fails: a wrong password of a known account is answered with
-- `INVALID_PASSWORD` whatever the status of the account; it counts as one failure more of the
-- email as it was given, and it opens no session and issues no refresh token.
pub login_wrong_password :
    (env : Env) (req : Request) (address password device_id : String) (w : World) (u : User)
    (c : UserAccountCredentials)
    → w.faults ≡ []
    → user_by_email address w.db ≡ some u
    → credentials_of u.id w.db ≡ some c
    → env.bcrypt_compare password c.password ≡ false
    → let (r, w') = login env req address password device_id w in
      (r ≡ err (http invalid_password))
      × (failures (attempt_of address w'.db) ≡ failures (attempt_of address w.db) + 1)
      × (grants_of w'.db ≡ grants_of w.db)
unfolding login find_one_by_email
login_wrong_password env req address password device_id w u c calm e n wrong =
    let refused : login env req address password device_id w ≡ refuse_login req address w =
      ground arith in
    let outcome = refuse_login_lem req address w calm in
    rw refused (outcome.0, outcome.1, (refuse_login-Leaves req address).apply w)
