-- ===== src/Otps.antt =====
-- src/modules/users/security/otps/otps.service.ts: one-time codes by mail, kept as hashes.
pub mod SingleUse
use nestjs_auth_backend.Base.{
  ℕ, ◌+◌, Bool, true, false, ◌&&◌, not, Option, none, some, String, List, [], ◌∷◌, if◌then◌else◌,
  ltb, leb, ◌==◌, str_eq, find, select, insert_row, update_where,
}
use nestjs_auth_backend.Errors.{otp_failed_attempts, http}
use nestjs_auth_backend.Entities.{
  UserSecurityTwoFactorOtps, TwoFactorOtpsType, otps_type_eq, otp_email, UserSecurity, email,
}
use nestjs_auth_backend.Users.Lookup.{is_live_user}
use nestjs_auth_backend.World.{
  World, Db, Action, ◌>>=◌, ◌>>◌, pure, throw, gets, query, execute, draw, try_catch, direct, Env,
}
use nestjs_auth_backend.Security.{save_security}

-- `{ user: { id: userId }, type, used: false }`
abbrev pub is_pending : ℕ → TwoFactorOtpsType → UserSecurityTwoFactorOtps → Bool
is_pending user_id type o = o.user == user_id && otps_type_eq o.otps_type type && not o.used

-- The later of two rows, of equal ones the first.
abbrev pub later_row :
    UserSecurityTwoFactorOtps → Option UserSecurityTwoFactorOtps → UserSecurityTwoFactorOtps
later_row x none = x
later_row x (some y) = if leb y.created_at x.created_at then x else y

-- `order: { createdAt: 'DESC' }`, the first row.
abbrev pub latest : List UserSecurityTwoFactorOtps → Option UserSecurityTwoFactorOtps
latest [] = none
latest (x ∷ xs) = some (later_row x (latest xs))

-- `user: { id: userId }` joins the users that are not removed.
abbrev pub pending_otp : ℕ → TwoFactorOtpsType → Db → Option UserSecurityTwoFactorOtps
pending_otp user_id type d =
    if is_live_user user_id d then latest (select (is_pending user_id type) d.otps) else none

-- `repository.save(otp)` of a row that was loaded.
abbrev pub save_otp : UserSecurityTwoFactorOtps → Db → Db
save_otp o d = record d { otps = update_where (λ r. r.id == o.id) (λ _. o) d.otps }

abbrev pub use_up : ℕ → TwoFactorOtpsType → Db → Db
use_up user_id type d = record d {
  otps = update_where (is_pending user_id type) (λ o. record o { used = true }) d.otps;
}

abbrev pub otp_term : ℕ
otp_term = 300_000

module _ (env : Env) where
  -- `createOtp`: earlier codes of the user and type are used up first.
  unfoldable pub create_otp : ℕ → TwoFactorOtpsType → Action String
  create_otp user_id type = do
    try_catch (execute direct (use_up user_id type))
    seed ← draw
    now ← gets (λ w. w.now)
    id ← draw
    try_catch (do
      execute direct (λ d. record d {
        otps =
            insert_row
              (record {
                id = id;
                user = user_id;
                otps_type = type;
                code = env.sha256 (env.random_hex seed);
                expires_at = now + otp_term;
                used = false;
                failed_attempts = 0;
                created_at = now;
              })
              d.otps;
      })
      pure (env.random_hex seed))

  -- `verifyOtps` behind the expiry test: `o` has its attempt counted, in memory only.
  abbrev pub judge_otp : String → UserSecurityTwoFactorOtps → Action Bool
  judge_otp code o =
      if leb 5 o.failed_attempts
      then execute direct (save_otp o) >> throw (http otp_failed_attempts)
      else if not (str_eq o.code (env.sha256 code))
      then pure false
      else try_catch (execute direct (save_otp (record o { used = true }))) >> pure true

  abbrev pub check_otp : String → Option UserSecurityTwoFactorOtps → Action Bool
  check_otp code none = pure false
  check_otp code (some o) = do
    now ← gets (λ w. w.now)
    if ltb o.expires_at now
        then pure false
        else judge_otp code (record o { failed_attempts = o.failed_attempts + 1 })

  -- `verifyOtps`
  unfoldable pub verify_otps : ℕ → TwoFactorOtpsType → String → Action Bool
  verify_otps user_id type code = do
    found ← try_catch (query direct (pending_otp user_id type))
    check_otp code found

  -- `enableOtps`
  unfoldable pub enable_otps : ℕ → UserSecurity → Action String
  unfolding create_otp
  enable_otps user_id security = do
    code ← create_otp user_id otp_email
    save_security (record security { two_factor_enabled = false; two_factor_type = some email })
    pure code
