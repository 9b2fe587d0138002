-- ===== src/RecoveryCodes.antt =====
-- src/modules/users/security-recovery-codes/security-recovery-codes.service.ts.
pub mod Single
use nestjs_auth_backend.Base.{
  ℕ, zero, suc, ◌+◌, Bool, true, false, ◌&&◌, not, Option, none, some, String, List, [], ◌∷◌, ◌++◌,
  if◌then◌else◌, ◌==◌, str_eq, find, update_where, delete_where,
}
use nestjs_auth_backend.Permissions.{trim}
use nestjs_auth_backend.Errors.{two_factor_not_enabled, crash}
use nestjs_auth_backend.Entities.{UserSecurityRecoveryCodes}
use nestjs_auth_backend.World.{
  World, Db, Action, ◌>>=◌, ◌>>◌, pure, query, execute, draw, try_catch, throw_if, or_throw, direct,
  Env,
}
use nestjs_auth_backend.Users.Lookup.{find_one}
use nestjs_auth_backend.Security.{find_one_by_user}

abbrev pub recovery_code : ℕ → String → Db → Option UserSecurityRecoveryCodes
recovery_code security_id code d =
    find (λ r. str_eq r.code code && r.user_security == security_id) d.recovery_codes

abbrev pub save_code : UserSecurityRecoveryCodes → Db → Db
save_code r d = record d {
  recovery_codes = update_where (λ x. x.id == r.id) (λ _. r) d.recovery_codes;
}

-- The lookup and the use of a code for one row of settings.
abbrev pub redeem_code : Option UserSecurityRecoveryCodes → Action Bool
redeem_code none = pure false
redeem_code (some r) =
    if r.used
    then pure false
    else try_catch (execute direct (save_code (record r { used = true })) >> pure true)

-- `useCode`
unfoldable pub use_code : ℕ → String → Action Bool
unfolding find_one find_one_by_user
use_code user_id code = do
  user ← find_one user_id
  found ← find_one_by_user user.row.id
  security ← or_throw found crash
  row ← query direct (recovery_code security.id (trim code))
  redeem_code row

module _ (env : Env) where
  -- The entities that `generate` saves: each with an id and a random code.
  abbrev pub draw_codes : ℕ → ℕ → Action (List UserSecurityRecoveryCodes)
  draw_codes security_id zero = pure []
  draw_codes security_id (suc n) = do
    seed ← draw
    id ← draw
    rest ← draw_codes security_id n
    pure (
        record { id = id; user_security = security_id; code = env.random_hex seed; used = false }
        ∷ rest)

  -- `generate`: ten new codes in place of the old ones. The `delete` stands outside the `try`.
  unfoldable pub generate : ℕ → Action (List UserSecurityRecoveryCodes)
  unfolding find_one find_one_by_user
  generate user_id = do
    user ← find_one user_id
    found ← find_one_by_user user.row.id
    security ← or_throw found crash
    throw_if (not security.two_factor_enabled) two_factor_not_enabled
    execute direct (λ d. record d {
      recovery_codes = delete_where (λ r. r.user_security == security.id) d.recovery_codes;
    })
    codes ← draw_codes security.id 10
    try_catch (
        execute direct (λ d. record d { recovery_codes = d.recovery_codes ++ codes }) >> pure codes)
