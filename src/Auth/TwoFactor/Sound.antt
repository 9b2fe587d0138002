-- ===== src/Auth/TwoFactor/Sound.antt =====
-- What `verify2fa` of src/modules/auth/auth.service.ts asks for before it signs in.
use nestjs_auth_backend.Base.{
  ℕ, ◌≡◌, ◌≢◌, ◌⊎◌, inl, inr, refl, ap, ◌∙◌, sym, subst, Bool, true, false, Option, some, String,
  arith, Bool-cases, Option-cases, if◌then◌else◌,
}
use nestjs_auth_backend.Entities.{
  User, UserSecurity, UserSecurityRecoveryCodes, TwoFactorData, totp,
}
use nestjs_auth_backend.Permissions.{is_empty, trim}
use nestjs_auth_backend.World.{World, Db, Action, ◌>>=◌, query, or_throw, direct, ok, Env}
use nestjs_auth_backend.Errors.{crash}
use nestjs_auth_backend.World.Outcomes.{bind-ok}
use nestjs_auth_backend.Security.{security_of, find_one_by_user}
use nestjs_auth_backend.Users.Lookup.{LoadedUser, user_by_id, find_one}
use nestjs_auth_backend.RecoveryCodes.{redeem_code, recovery_code, use_code}
use nestjs_auth_backend.Auth.SignIn.{Request, SignIn, generated_token_and_refresh_token}
use nestjs_auth_backend.Auth.TwoFactor.{
  Subject, stored_secret, load_subject, check_totp, check_code, or_recovery_code, refuse_code,
  verify_2fa,
}

module _ (user_id : ℕ) (w : World) (u : User) (s : UserSecurity)
    (user : user_by_id user_id w.db ≡ some u) (settings : security_of u.id w.db ≡ some s) where
  load_subject-ok :
      {x : Subject}
      → (load_subject user_id w).0 ≡ ok x
      → (x.user.row ≡ u)
        × (x.security ≡ s)
        × ((load_subject user_id w).1.db ≡ w.db)
        × ((load_subject user_id w).1.now ≡ w.now)
  unfolding load_subject find_one find_one_by_user
  load_subject-ok {x} h = ground arith

  find_one-ok :
      {a : LoadedUser}
      → (find_one user_id w).0 ≡ ok a
      → (a.row ≡ u) × ((find_one user_id w).1.db ≡ w.db)
  unfolding find_one
  find_one-ok {a} h = ground arith

find_one_by_user-ok :
    (id : ℕ) (w : World) (s : UserSecurity) {found : Option UserSecurity}
    → security_of id w.db ≡ some s
    → (find_one_by_user id w).0 ≡ ok found
    → (found ≡ some s) × ((find_one_by_user id w).1.db ≡ w.db)
unfolding find_one_by_user
find_one_by_user-ok id w s {found} settings h = ground arith

-- An unused recovery code of these settings.
abbrev pub HasCode : UserSecurity → String → Db → Type 0
HasCode s given d =
    (r : UserSecurityRecoveryCodes) × (recovery_code s.id given d ≡ some r) × (r.used ≡ false)

redeem_code-ok :
    (s : UserSecurity) (given : String) (w : World)
    → ((query direct (recovery_code s.id given) >>= redeem_code) w).0 ≡ ok true
    → HasCode s given w.db
redeem_code-ok s given w h = elim (Option-cases (recovery_code s.id given w.db)) [
  | inl missing ↦ absurd (ground arith)
  | inr (r, found) ↦ (r, found, ground arith)
]

use_code-ok :
    (user_id : ℕ) (w : World) (u : User) (s : UserSecurity) (given : String)
    → user_by_id user_id w.db ≡ some u
    → security_of u.id w.db ≡ some s
    → (use_code user_id given w).0 ≡ ok true
    → HasCode s (trim given) w.db
unfolding use_code
use_code-ok user_id w u s given user settings h =
    let redeem =
      λ (x : UserSecurity). query direct (recovery_code x.id (trim given)) >>= redeem_code in
    let with_settings = λ (f : Option UserSecurity). or_throw f crash >>= redeem in
    let with_user = λ (a : LoadedUser). find_one_by_user a.row.id >>= with_settings in
    let first = bind-ok (find_one user_id) with_user w h in
    let w₁ = (find_one user_id w).1 in
    let a = find_one-ok user_id w u s user settings first.1 in
    let h₁ : (with_user first.0 w₁).0 ≡ ok true = ap (λ r. r.0) (sym first.2) ∙ h in
    let second = bind-ok (find_one_by_user first.0.row.id) with_settings w₁ h₁ in
    let w₂ = (find_one_by_user first.0.row.id w₁).1 in
    let stored : security_of first.0.row.id w₁.db ≡ some s = rw (a.0, a.1) settings in
    let f = find_one_by_user-ok first.0.row.id w₁ s stored second.1 in
    let h₂ : (with_settings second.0 w₂).0 ≡ ok true = ap (λ r. r.0) (sym second.2) ∙ h₁ in
    let h₃ : (redeem s w₂).0 ≡ ok true = rw f.0 at h₂ in
    subst (HasCode s (trim given)) (f.1 ∙ a.1) (redeem_code-ok s (trim given) w₂ h₃)

check_totp-ok :
    (env : Env) (stored : Option TwoFactorData) (given : String) (w : World) {b : Bool}
    → (check_totp env stored given w).0 ≡ ok b
    → ((secret : String) × (stored_secret stored ≡ some secret)
        × (env.totp_verify secret given w.now ≡ b))
      × ((check_totp env stored given w).1 ≡ w)
check_totp-ok env stored given w {b} h = elim (Option-cases (stored_secret stored)) [
  | inl missing ↦ absurd (ground arith)
  | inr (secret, found) ↦ ((secret, found, ground arith), ground arith)
]

refuse_code-ne-ok :
    (req : Request) (address : String) (w : World) (x : SignIn)
    → (refuse_code req address w).0 ≢ ok x
unfolding refuse_code
refuse_code-ne-ok req address w x h = ground arith

-- What shows that it is the user: a code that the TOTP secret of the settings accepts, or an unused
-- recovery code of the user.
abbrev pub Shows : Env → UserSecurity → String → World → Type 0
Shows env s given w =
    (secret : String) × (stored_secret s.two_factor_data ≡ some secret)
    × ((env.totp_verify secret given w.now ≡ true)
        ⊎ ((is_empty given ≡ false) × HasCode s (trim given) w.db))

-- What stands behind the check of the factor.
abbrev finish : Env → Request → ℕ → String → String → Subject → Bool → Action SignIn
finish env req user_id given device_id y by_factor =
    or_recovery_code user_id given by_factor >>= λ valid.
    if valid
    then generated_token_and_refresh_token env req y.user device_id
    else refuse_code req y.user.row.email

finish-ok :
    (env : Env) (req : Request) (user_id : ℕ) (given device_id : String) (y : Subject)
    (by_factor : Bool) (w : World) {x : SignIn}
    → (finish env req user_id given device_id y by_factor w).0 ≡ ok x
    → (by_factor ≡ true) ⊎ ((is_empty given ≡ false) × ((use_code user_id given w).0 ≡ ok true))
finish-ok env req user_id given device_id y true w h = inl refl
finish-ok env req user_id given device_id y false w {x} h =
    let refuse = refuse_code req y.user.row.email in
    elim (Bool-cases (is_empty given)) [
      | inl e ↦ absurd (refuse_code-ne-ok req y.user.row.email w x (rw e at h))
      | inr e ↦
          let last =
            bind-ok (use_code user_id given)
              (λ valid.
                if valid
                then generated_token_and_refresh_token env req y.user device_id
                else refuse)
              w (rw e at h) in
          let rest = ap (λ r. r.0) (sym last.2) ∙ rw e at h in
          elim (Bool-cases last.0) [
            | inl valid ↦ inr (e, last.1 ∙ ap ok valid)
            | inr wrong ↦ absurd (
                refuse_code-ne-ok req y.user.row.email (use_code user_id given w).1 x
                  (rw wrong at rest))
          ]
    ]

-- Whatever external call fails on the way, `verify2fa` signs a user in whose settings are of the
-- type TOTP only if there is a stored secret and either it accepts the code, or the code is not
-- empty and, trimmed, an unused recovery code of the user.
pub verify_2fa_sound :
    (env : Env) (req : Request) (user_id : ℕ) (given device_id : String) (w : World) (u : User)
    (s : UserSecurity) {x : SignIn}
    → user_by_id user_id w.db ≡ some u
    → security_of u.id w.db ≡ some s
    → s.two_factor_type ≡ some totp
    → (verify_2fa env req user_id given device_id w).0 ≡ ok x
    → Shows env s given w
unfolding verify_2fa
verify_2fa_sound env req user_id given device_id w u s {x} user settings type h =
    let check = λ (y : Subject).
      check_code env y y.security.two_factor_type given
      >>= finish env req user_id given device_id y in
    let first = bind-ok (load_subject user_id) check w h in
    let w₁ = (load_subject user_id w).1 in
    let y = first.0 in
    let a = load_subject-ok user_id w u s user settings first.1 in
    let same_type : y.security.two_factor_type ≡ some totp = rw a.1 type in
    let h₁ : (check y w₁).0 ≡ ok x = ap (λ r. r.0) (sym first.2) ∙ h in
    let h₂ : ((check_totp env y.security.two_factor_data given
            >>= finish env req user_id given device_id y)
          w₁).0
        ≡ ok x =
      rw same_type at h₁ in
    let second =
      bind-ok (check_totp env y.security.two_factor_data given)
        (finish env req user_id given device_id y) w₁ h₂ in
    let b = check_totp-ok env y.security.two_factor_data given w₁ second.1 in
    let h₃ : (finish env req user_id given device_id y second.0 w₁).0 ≡ ok x =
      subst (λ v. (finish env req user_id given device_id y second.0 v).0 ≡ ok x) b.1
        (ap (λ r. r.0) (sym second.2) ∙ h₂) in
    let stored = sym (ap (λ (v : UserSecurity). stored_secret v.two_factor_data) a.1) ∙ b.0.1 in
    let verdict = sym (ap (λ t. env.totp_verify b.0.0 given t) a.3) ∙ b.0.2 in
    elim (finish-ok env req user_id given device_id y second.0 w₁ h₃) [
      | inl right ↦ (b.0.0, stored, inl (verdict ∙ right))
      | inr (typed, used) ↦
          let code = use_code-ok user_id w₁ u s given (rw a.2 user) (rw a.2 settings) used in
          (b.0.0, stored, inr (typed, subst (HasCode s (trim given)) a.2 code))
    ]
