-- ===== src/RecoveryCodes/Single.antt =====
-- Making and using recovery codes:
-- src/modules/users/security-recovery-codes/security-recovery-codes.service.ts.
use nestjs_auth_backend.Base.{
  ℕ, zero, suc, ◌≡◌, refl, ap, ◌∙◌, true, false, ◌&&◌, some, String, List, [], ◌∷◌, ◌++◌, arith,
  ◌==◌, ==_refl, str_eq, select, length, delete_where, find-holds, find-save, select-append, All,
  Bool-cases, inl, inr, All-map,
}
use nestjs_auth_backend.Permissions.{trim}
use nestjs_auth_backend.Entities.{User, UserSecurity, UserSecurityRecoveryCodes}
use nestjs_auth_backend.World.{World, Result, ok, Env}
use nestjs_auth_backend.Users.Lookup.{user_by_id, find_one}
use nestjs_auth_backend.Security.{security_of, find_one_by_user}
use nestjs_auth_backend.RecoveryCodes.{recovery_code, save_code, use_code, draw_codes, generate}

module _ (user_id : ℕ) (code : String) (w : World) (u : User) (s : UserSecurity)
    (r : UserSecurityRecoveryCodes) where
  use_code_fresh :
      w.faults ≡ []
      → user_by_id user_id w.db ≡ some u
      → security_of u.id w.db ≡ some s
      → recovery_code s.id (trim code) w.db ≡ some r
      → r.used ≡ false
      → use_code user_id code w ≡ (
        ok true,
        record w {
          db = save_code (record r { used = true }) w.db;
          work = save_code (record r { used = true }) w.work;
        },
      )
  unfolding use_code find_one find_one_by_user
  use_code_fresh calm user settings row fresh = ground arith

  use_code_spent :
      w.faults ≡ []
      → user_by_id user_id w.db ≡ some u
      → security_of u.id w.db ≡ some s
      → recovery_code s.id (trim code) w.db ≡ some r
      → r.used ≡ true
      → use_code user_id code w ≡ (ok false, w)
  unfolding use_code find_one find_one_by_user
  use_code_spent calm user settings row spent = ground arith

-- Where no external call fails: a stored recovery code of the user that is not used yet is
-- accepted by `useCode`, and refused by a second `useCode`.
pub use_code_once :
    (user_id : ℕ) (code : String) (w : World) (u : User) (s : UserSecurity)
    (r : UserSecurityRecoveryCodes)
    → w.faults ≡ []
    → user_by_id user_id w.db ≡ some u
    → security_of u.id w.db ≡ some s
    → recovery_code s.id (trim code) w.db ≡ some r
    → r.used ≡ false
    → ((use_code user_id code w).0 ≡ ok true)
      × ((use_code user_id code (use_code user_id code w).1).0 ≡ ok false)
use_code_once user_id code w u s r calm user settings row fresh =
    let first = use_code_fresh user_id code w u s r calm user settings row fresh in
    let kept = find-holds (λ x. str_eq x.code (trim code) && x.user_security == s.id) _ r row in
    let saved =
      find-save (λ x. str_eq x.code (trim code) && x.user_security == s.id) (λ x. x.id == r.id)
        (record r { used = true }) w.db.recovery_codes r kept (==_refl r.id) row in
    (
      ap (λ x. x.0) first,
      rw first (
          ap (λ x. x.0)
            (use_code_spent user_id code _ u s (record r { used = true }) calm user settings saved
              refl)),
    )

-- An unused row of the settings `security_id`.
abbrev IsFresh : ℕ → UserSecurityRecoveryCodes → Type 0
IsFresh security_id r = ((r.user_security == security_id) ≡ true) × (r.used ≡ false)

select-fresh :
    (id : ℕ) (rows : List UserSecurityRecoveryCodes)
    → All (IsFresh id) rows
    → select (λ r. r.user_security == id) rows ≡ rows
select-fresh id [] h = refl
select-fresh id (r ∷ rows) h = rw (h.0.0) (ap (λ x. r ∷ x) (select-fresh id rows h.1))

select-delete_where :
    (id : ℕ) (rows : List UserSecurityRecoveryCodes)
    → select (λ r. r.user_security == id) (delete_where (λ r. r.user_security == id) rows) ≡ []
select-delete_where id [] = refl
select-delete_where id (r ∷ rows) = elim (Bool-cases (r.user_security == id)) [
  | inl e ↦ rw e (select-delete_where id rows)
  | inr e ↦ rw e (rw e (select-delete_where id rows))
]

-- What `draw_codes` does to the world, and the rows it gives.
abbrev Drawn : ℕ → ℕ → World → Result (List UserSecurityRecoveryCodes) × World → Type 0
Drawn security_id n w out =
    (rows : List UserSecurityRecoveryCodes) × (last : ℕ) × (out
      ≡ (ok rows, record w { serial = last }))
    × (length rows ≡ n)
    × All (IsFresh security_id) rows

module _ (env : Env) where
  draw_codes_lem :
      (security_id n : ℕ) (w : World) → Drawn security_id n w (draw_codes env security_id n w)
  draw_codes_lem security_id zero w = ([], w.serial, refl, refl, tt)
  draw_codes_lem security_id (suc n) w =
      let (rows, last, drawn, count, fresh) =
        draw_codes_lem security_id n (record w { serial = suc (suc w.serial) }) in
      (
        record {
          id = suc w.serial;
          user_security = security_id;
          code = env.random_hex w.serial;
          used = false;
        }
            ∷ rows,
        last,
        ground (arith),
        ap suc count,
        ((==_refl security_id, refl), fresh),
      )

  generate_run :
      (user_id : ℕ) (w : World) (u : User) (s : UserSecurity)
      → w.faults ≡ []
      → user_by_id user_id w.db ≡ some u
      → security_of u.id w.db ≡ some s
      → s.two_factor_enabled ≡ true
      → (codes : List UserSecurityRecoveryCodes) × ((generate env user_id w).0 ≡ ok codes)
        × (length codes ≡ 10)
        × All (IsFresh s.id) codes
        × ((generate env user_id w).1.db.recovery_codes
            ≡ delete_where (λ r. r.user_security == s.id) w.db.recovery_codes ++ codes)
  unfolding generate find_one find_one_by_user
  generate_run user_id w u s calm user settings enabled =
      let (codes, last, drawn, count, fresh) = draw_codes_lem s.id 10 (record w {
        db = record w.db {
          recovery_codes = delete_where (λ r. r.user_security == s.id) w.db.recovery_codes;
        };
        work = record w.work {
          recovery_codes = delete_where (λ r. r.user_security == s.id) w.work.recovery_codes;
        };
      }) in
      (codes, ground (arith), count, fresh, ground (arith))

  -- Where no external call fails, for a user with the second factor enabled: `generate` answers
  -- ten unused codes, and they are exactly the codes that the user has after it.
  pub generate_replaces :
      (user_id : ℕ) (w : World) (u : User) (s : UserSecurity)
      → w.faults ≡ []
      → user_by_id user_id w.db ≡ some u
      → security_of u.id w.db ≡ some s
      → s.two_factor_enabled ≡ true
      → (codes : List UserSecurityRecoveryCodes) × ((generate env user_id w).0 ≡ ok codes)
        × (length codes ≡ 10)
        × All (λ r. r.used ≡ false) codes
        × (select (λ r. r.user_security == s.id) (generate env user_id w).1.db.recovery_codes
            ≡ codes)
  generate_replaces user_id w u s calm user settings enabled =
      let (codes, answer, count, fresh, rows) =
        generate_run user_id w u s calm user settings enabled in
      (
        codes,
        answer,
        count,
        All-map (IsFresh s.id) _ codes (λ r h. h.1) fresh,
        ap (select (λ r. r.user_security == s.id)) rows
            ∙ select-append _ (delete_where (λ r. r.user_security == s.id) w.db.recovery_codes)
                codes
            ∙ ap (λ x. x ++ select (λ r. r.user_security == s.id) codes)
                (select-delete_where s.id w.db.recovery_codes)
            ∙ select-fresh s.id codes fresh,
      )
