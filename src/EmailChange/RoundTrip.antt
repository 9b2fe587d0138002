-- ===== src/EmailChange/RoundTrip.antt =====
-- A change of an email address and its rollback, one after the other (the two services of
-- EmailChange).
use nestjs_auth_backend.Base.{
  ℕ, ◌≤◌, ◌≡◌, refl, ap, ◌∙◌, false, eq_refl, is_some, ◌+◌, none, some, String, List, [], ◌∷◌,
  arith, ◌==◌, ==_refl, str_eq, find, update_where, find-update_where, find-insert_row_new, any,
  not, ◌&&◌,
}
use nestjs_auth_backend.Entities.{User, UserEmailChangeRequest}
use nestjs_auth_backend.World.{World, ok, Env}
use nestjs_auth_backend.Users.Lookup.{user_by_id}
use nestjs_auth_backend.EmailChange.{
  rollback_email, one_day, email_taken, request_by_token, change_email, set_email,
}
use nestjs_auth_backend.EmailChange.Laws.{
  logged, owner_id, change_email_valid, rollback_email_restores,
}

-- An address that nobody else had is nobody else's after the change.
email_taken-set_email :
    (id : ℕ) (old new : String) (us : List User)
    → any (λ u. str_eq u.email old && not (u.id == id)) us ≡ false
    → any
        (λ u. str_eq u.email old && not (u.id == id))
        (update_where (λ u. u.id == id) (λ u. record u { email = new }) us)
      ≡ false
email_taken-set_email id old new [] h = refl
email_taken-set_email id old new (u ∷ us) h = ground (arith, email_taken-set_email id old new us)

-- The later of two changes of an address stands.
set_email-twice :
    (id : ℕ) (new old : String) (us : List User)
    → update_where
        (λ u. u.id == id)
        (λ u. record u { email = old })
        (update_where (λ u. u.id == id) (λ u. record u { email = new }) us)
      ≡ update_where (λ u. u.id == id) (λ u. record u { email = old }) us
set_email-twice id new old [] = refl
set_email-twice id new old (u ∷ us) = ground (arith, set_email-twice id new old us)

module _ (env : Env) (token : String) (w : World) (r : UserEmailChangeRequest) (u : User) where
  -- A change of an email address can be taken back. Where no external call fails, for the token of
  -- a stored request that is neither expired nor used, whose user is not removed, whose new
  -- address and whose old one no other user has, and with a rollback token that no stored log has:
  -- `rollbackEmail` with the token that `changeEmail` logged, right after it, succeeds, and leaves
  -- every user as it was with the old address of the request for this user.
  pub rollback_email-change_email :
      w.faults ≡ []
      → request_by_token env token w.db ≡ some r
      → w.now ≤ r.expires_at
      → r.used ≡ false
      → user_by_id r.user w.db ≡ some u
      → email_taken u.id r.new_email w.db ≡ false
      → email_taken u.id r.old_email w.db ≡ false
      → find (λ x. str_eq x.rollback_token (env.uuidv7 w.serial)) w.db.email_logs ≡ none
      → ((rollback_email (env.uuidv7 w.serial) (change_email env token w).1).0 ≡ ok tt)
        × ((rollback_email (env.uuidv7 w.serial) (change_email env token w).1).1.db.users
            ≡ (set_email u.id r.old_email w.db).users)
  rollback_email-change_email calm found fresh unused owner free old_free new_log =
      let again = owner_id r.user w u owner in
      let first = change_email_valid env token w r u calm found fresh unused owner again free in
      let after = (change_email env token w).1 in
      let renamed = record u { email = r.new_email } in
      let in_log : find (λ x. str_eq x.rollback_token (env.uuidv7 w.serial)) after.db.email_logs
          ≡ some (logged env r u w) =
        ap (λ d. find (λ x. str_eq x.rollback_token (env.uuidv7 w.serial)) d.email_logs) first.1
        ∙ find-insert_row_new _ (logged env r u w) w.db.email_logs new_log
            (eq_refl (env.uuidv7 w.serial)) in
      let live : user_by_id u.id after.db ≡ some renamed =
        ap (user_by_id u.id) first.1
        ∙ rw (==_refl u.id) at (
            find-update_where (λ x. x.id == u.id && not (is_some x.deleted_at)) (λ x. x.id == u.id)
              (λ x. record x { email = r.new_email }) w.db.users u (λ x. refl) again) in
      let later : after.now ≤ w.now + one_day = omega (arith, first.3) in
      let still_free : email_taken u.id r.old_email after.db ≡ false =
        ap (email_taken u.id r.old_email) first.1
        ∙ email_taken-set_email u.id r.old_email r.new_email w.db.users old_free in
      let back =
        rollback_email_restores after (logged env r u w) renamed first.2 in_log later refl live
          still_free in
      (
        back.0,
        ap (λ d. d.users) back.1
            ∙ ap (λ d. (set_email u.id r.old_email d).users) first.1
            ∙ set_email-twice u.id r.new_email r.old_email w.db.users,
      )
