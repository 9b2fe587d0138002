-- ===== src/EmailChange/Laws.antt =====
-- The tokens of an email change and of its rollback (the two services of EmailChange).
use nestjs_auth_backend.Base.{
  ℕ, ◌+◌, ◌≤◌, ◌≡◌, refl, ap, sym, ◌∙◌, Bool, true, false, not, some, String, [], arith, ◌==◌,
  ==_refl, str_eq, find, insert_row, update_where, find-update_where, find-holds, subst, ==_iff,
  is_some, ◌&&◌,
}
use nestjs_auth_backend.Errors.{http, token_expired}
use nestjs_auth_backend.Entities.{User, UserEmailChangeRequest, UserEmailChangeLog}
use nestjs_auth_backend.World.{World, Db, ok, err, Env, send_mail}
use nestjs_auth_backend.Users.Lookup.{user_by_id, find_one}
use nestjs_auth_backend.EmailChange.{
  rollback_email, one_day, email_taken, request_by_token, change_email, log_change, update_email,
}

-- The log of a change, from which it can be rolled back for a day.
abbrev pub logged : Env → UserEmailChangeRequest → User → World → UserEmailChangeLog
logged env r u w = record {
  id = w.serial + 1;
  user = u.id;
  old_email = r.old_email;
  new_email = r.new_email;
  rollback_token = env.uuidv7 w.serial;
  expires_at = w.now + one_day;
  revoked = false;
}

-- What a change does to the database.
abbrev pub changed : Env → UserEmailChangeRequest → User → World → Db → Db
changed env r u w d = record d {
  users = update_where (λ x. x.id == u.id) (λ x. record x { email = r.new_email }) d.users;
  email_logs = insert_row (logged env r u w) d.email_logs;
  email_requests =
      update_where (λ x. x.id == r.id) (λ x. record x { used = true }) d.email_requests;
}

module _ (env : Env) (token : String) (w : World) (r : UserEmailChangeRequest) where
  change_email_spent :
      w.faults ≡ []
      → request_by_token env token w.db ≡ some r
      → r.used ≡ true
      → (change_email env token w).0 ≡ err (http token_expired)
  unfolding change_email
  change_email_spent calm found spent = ground arith

  module _ (u : User) where
    pub change_email_valid :
        w.faults ≡ []
        → request_by_token env token w.db ≡ some r
        → w.now ≤ r.expires_at
        → r.used ≡ false
        → user_by_id r.user w.db ≡ some u
        → user_by_id u.id w.db ≡ some u
        → email_taken u.id r.new_email w.db ≡ false
        → ((change_email env token w).0 ≡ ok tt)
          × ((change_email env token w).1.db ≡ changed env r u w w.db)
          × ((change_email env token w).1.faults ≡ [])
          × ((change_email env token w).1.now ≡ w.now)
    unfolding change_email log_change update_email find_one send_mail
    change_email_valid calm found fresh unused owner again free = ground arith

pub owner_id :
    (id : ℕ) (w : World) (u : User) → user_by_id id w.db ≡ some u → user_by_id u.id w.db ≡ some u
owner_id id w u e =
    let kept = find-holds (λ x. x.id == id && not (is_some x.deleted_at)) w.db.users u e in
    let same : u.id ≡ id = (==_iff u.id id).0 (and_left (u.id == id) _ kept) in
    subst (λ i. user_by_id i w.db ≡ some u) (sym same) e
  where
    and_left : (a b : Bool) → (a && b) ≡ true → a ≡ true
    and_left true b h = refl
    and_left false b h = h

-- Where no external call fails, for the token of a stored request that is neither expired nor
-- used, whose user is not removed, and whose new address no other user has: `changeEmail`
-- succeeds, gives the user the new address, logs the change with the old one and a new rollback
-- token, marks the request as used, and changes nothing else of the database; the same token is
-- refused with `TOKEN_EXPIRED` the second time.
pub change_email_once :
    (env : Env) (token : String) (w : World) (r : UserEmailChangeRequest) (u : User)
    → w.faults ≡ []
    → request_by_token env token w.db ≡ some r
    → w.now ≤ r.expires_at
    → r.used ≡ false
    → user_by_id r.user w.db ≡ some u
    → email_taken u.id r.new_email w.db ≡ false
    → ((change_email env token w).0 ≡ ok tt)
      × ((change_email env token w).1.db ≡ changed env r u w w.db)
      × ((change_email env token (change_email env token w).1).0 ≡ err (http token_expired))
change_email_once env token w r u calm found fresh unused owner free =
    let first =
      change_email_valid env token w r u calm found fresh unused owner (owner_id r.user w u owner)
        free in
    let spent =
      find-update_where (λ x. str_eq x.token_hash (env.sha256 token)) (λ x. x.id == r.id)
        (λ x. record x { used = true }) w.db.email_requests r (λ x. refl) found in
    (
      first.0,
      first.1,
      change_email_spent env token (change_email env token w).1 (record r { used = true }) first.2
          (ap (request_by_token env token) first.1 ∙ rw (==_refl r.id) at spent) refl,
    )

-- Where no external call fails, for the rollback token of a logged change that is neither expired
-- nor revoked, whose user is not removed, and whose old address no other user has: `rollbackEmail`
-- succeeds, gives the user the old address back, marks the log as revoked, and changes nothing
-- else of the database.
pub rollback_email_restores :
    (w : World) (l : UserEmailChangeLog) (u : User)
    → w.faults ≡ []
    → find (λ x. str_eq x.rollback_token l.rollback_token) w.db.email_logs ≡ some l
    → w.now ≤ l.expires_at
    → l.revoked ≡ false
    → user_by_id l.user w.db ≡ some u
    → email_taken l.user l.old_email w.db ≡ false
    → ((rollback_email l.rollback_token w).0 ≡ ok tt)
      × ((rollback_email l.rollback_token w).1.db ≡ record w.db {
        users =
            update_where (λ x. x.id == l.user) (λ x. record x { email = l.old_email }) w.db.users;
        email_logs =
            update_where (λ x. x.id == l.id) (λ x. record x { revoked = true }) w.db.email_logs;
      })
unfolding rollback_email
rollback_email_restores w l u calm found fresh live owner free = ground arith
