-- ===== src/Otps/SingleUse.antt =====
-- Making and verifying one-time codes of src/modules/users/security/otps/otps.service.ts.
use nestjs_auth_backend.Base.{
  ℕ, suc, ◌+◌, ◌<◌, ◌≤◌, ◌≡◌, ◌≢◌, refl, ap, true, false, String, List, [], ◌∷◌, arith, ◌==◌,
  eq_iff, select, All, ==_refl, select-append, select-update_where_none, select-save_only,
}
use nestjs_auth_backend.Entities.{
  UserSecurityTwoFactorOtps, TwoFactorOtpsType, otp_sms, otp_email, otps_type_eq,
}
use nestjs_auth_backend.Users.Lookup.{is_live_user}
use nestjs_auth_backend.World.{World, Db, ok, Env}
use nestjs_auth_backend.Otps.{is_pending, save_otp, use_up, create_otp, verify_otps, otp_term}

otps_type_eq_refl : (t : TwoFactorOtpsType) → otps_type_eq t t ≡ true
otps_type_eq_refl otp_sms = refl
otps_type_eq_refl otp_email = refl

-- The unused codes of a user and type.
abbrev pub pending_codes : ℕ → TwoFactorOtpsType → Db → List UserSecurityTwoFactorOtps
pending_codes user_id type d = select (is_pending user_id type) d.otps

-- The row that is saved when its code was right.
abbrev used_up : UserSecurityTwoFactorOtps → UserSecurityTwoFactorOtps
used_up o = record o { failed_attempts = o.failed_attempts + 1; used = true }

abbrev pub new_otp : Env → ℕ → TwoFactorOtpsType → World → UserSecurityTwoFactorOtps
new_otp env user_id type w = record {
  id = suc w.serial;
  user = user_id;
  otps_type = type;
  code = env.sha256 (env.random_hex w.serial);
  expires_at = w.now + otp_term;
  used = false;
  failed_attempts = 0;
  created_at = w.now;
}

module _ (env : Env) (user_id : ℕ) (type : TwoFactorOtpsType) where
  -- Where no external call fails: after `createOtp` the new code is the only unused one of its
  -- user and type, it is stored as its hash with no attempts counted, it is valid for five
  -- minutes, and the caller gets the code itself.
  pub create_otp_only :
      (w : World)
      → w.faults ≡ []
      → ((create_otp env user_id type w).0 ≡ ok (env.random_hex w.serial))
        × (pending_codes user_id type (create_otp env user_id type w).1.db
            ≡ new_otp env user_id type w ∷ [])
  unfolding create_otp
  create_otp_only w calm = ground (
    arith,
    select-append (is_pending user_id type) (use_up user_id type w.db).otps
        (new_otp env user_id type w ∷ []),
    select-update_where_none (is_pending user_id type) (λ o. record o { used = true }) w.db.otps
        unused,
    otps_type_eq_refl type,
    ==_refl user_id,
  )
    where
      unused :
          (o : UserSecurityTwoFactorOtps)
          → is_pending user_id type (record o { used = true }) ≡ false
      unused o = ground arith

  module _ (w : World) (calm : w.faults ≡ []) (o : UserSecurityTwoFactorOtps) where
    -- A right code is accepted, and marked as used.
    verify_right :
        (given : String)
        → is_live_user user_id w.db ≡ true
        → pending_codes user_id type w.db ≡ o ∷ []
        → w.now ≤ o.expires_at
        → o.failed_attempts < 4
        → o.code ≡ env.sha256 given
        → verify_otps env user_id type given w ≡ (
          ok true,
          record w { db = save_otp (used_up o) w.db; work = save_otp (used_up o) w.work },
        )
    unfolding verify_otps
    verify_right given live only fresh few right = ground (arith, eq_iff o.code (env.sha256 given))

    verify_wrong :
        (given : String)
        → pending_codes user_id type w.db ≡ o ∷ []
        → o.failed_attempts < 4
        → o.code ≢ env.sha256 given
        → verify_otps env user_id type given w ≡ (ok false, w)
    unfolding verify_otps
    verify_wrong given only few wrong = ground (arith, eq_iff o.code (env.sha256 given))

  verify_none :
      (w : World) (given : String)
      → w.faults ≡ []
      → pending_codes user_id type w.db ≡ []
      → (verify_otps env user_id type given w).0 ≡ ok false
  unfolding verify_otps
  verify_none w given calm e = ground arith

  not_pending : (o : UserSecurityTwoFactorOtps) → is_pending user_id type (used_up o) ≡ false
  not_pending o = ground arith

  -- The database after a run of tries.
  abbrev pub try_codes : List String → World → World
  try_codes [] w = w
  try_codes (c ∷ cs) w = try_codes cs (verify_otps env user_id type c w).1

  try_codes_wrong :
      (w : World)
      → w.faults ≡ []
      → (o : UserSecurityTwoFactorOtps) (wrong : List String)
      → pending_codes user_id type w.db ≡ o ∷ []
      → o.failed_attempts < 4
      → All (λ c. o.code ≢ env.sha256 c) wrong
      → try_codes wrong w ≡ w
  try_codes_wrong w calm o [] only few h = refl
  try_codes_wrong w calm o (c ∷ cs) only few h =
      rw (verify_wrong w calm o c only few h.0) (try_codes_wrong w calm o cs only few h.1)

  -- Where no external call fails, for the only unused code of a type and of a user who is not
  -- removed, which is fresh and has fewer than four attempts counted: after any number of wrong codes `verifyOtps` still
  -- accepts the right one, since the count is not saved for a wrong code.
  pub wrong_codes_not_counted :
      (w : World)
      → w.faults ≡ []
      → (o : UserSecurityTwoFactorOtps) (wrong : List String) (right : String)
      → is_live_user user_id w.db ≡ true
      → pending_codes user_id type w.db ≡ o ∷ []
      → w.now ≤ o.expires_at
      → o.failed_attempts < 4
      → All (λ c. o.code ≢ env.sha256 c) wrong
      → o.code ≡ env.sha256 right
      → (verify_otps env user_id type right (try_codes wrong w)).0 ≡ ok true
  wrong_codes_not_counted w calm o wrong right live only fresh few h fits =
      rw (try_codes_wrong w calm o wrong only few h)
        (ap (λ p. p.0) (verify_right w calm o right live only fresh few fits))

  -- Where no external call fails, for the only unused code of a type and of a user who is not
  -- removed, which is fresh and has fewer than four attempts counted: `verifyOtps` accepts the
  -- code, and after that it accepts no code of that user and type.
  pub verify_otps_once :
      (w : World)
      → w.faults ≡ []
      → (o : UserSecurityTwoFactorOtps) (right again : String) → is_live_user user_id w.db ≡ true
      → pending_codes user_id type w.db ≡ o ∷ []
      → w.now ≤ o.expires_at
      → o.failed_attempts < 4
      → o.code ≡ env.sha256 right
      → ((verify_otps env user_id type right w).0 ≡ ok true)
        × ((verify_otps env user_id type again (verify_otps env user_id type right w).1).0
            ≡ ok false)
  verify_otps_once w calm o right again live only fresh few fits =
      rw (verify_right w calm o right live only fresh few fits) (
        refl,
        verify_none _ again calm (
            select-save_only (is_pending user_id type) (λ x. x.id == o.id) (used_up o) o w.db.otps
              (not_pending o) (==_refl o.id) only),
      )
