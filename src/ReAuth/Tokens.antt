-- ===== src/ReAuth/Tokens.antt =====
-- Re-authentication tokens of src/modules/auth/re-auth/re-auth.service.ts: issue and use.
use nestjs_auth_backend.Base.{
  ℕ, suc, ◌+◌, ◌≤◌, ◌≡◌, refl, ap, subst, Bool, true, false, ◌&&◌, not, Option, none, some, String,
  List, [], ◌∷◌, arith, ◌==◌, str_eq, eq_iff, select, any, All, ==_refl, select-append,
  select-nil-All, any-select, All-update_where_from, All-map, find-holds, find-none, select-none,
  All-update_where_of,
}
use nestjs_auth_backend.Errors.{http, invalid_password, invalid_reauth_token}
use nestjs_auth_backend.Entities.{AuthReAuthToken}
use nestjs_auth_backend.World.{World, Db, ok, err, Env, direct}
use nestjs_auth_backend.Credentials.{validate_reauth_password, judge_reauth, credentials_of}
use nestjs_auth_backend.ReAuth.{
  of_user, revoke_reauth, live_reauth, reauthenticate, reauth_by_token, consume_token, reauth_term,
}

-- The rows that `repo.save(reauthTokens)` leaves.
abbrev pub revoke_listed : List AuthReAuthToken → Db → Db
revoke_listed [] d = d
revoke_listed (t ∷ ts) d = revoke_reauth (λ r. any (λ x. x.id == r.id) (t ∷ ts)) d

abbrev is_live : Option ℕ → AuthReAuthToken → Bool
is_live user_id t = of_user user_id t && not t.revoked

-- Every row that the condition on the user lets through is revoked; without the condition, every row.
abbrev pub AllRevoked : Option ℕ → Db → Type 0
AllRevoked user_id d = All (λ t. of_user user_id t ≡ true → t.revoked ≡ true) d.reauth_tokens

pub revoke_listed-AllRevoked :
    (user_id : Option ℕ) (d : Db) (rows : List AuthReAuthToken)
    → live_reauth user_id d ≡ rows
    → AllRevoked user_id (revoke_listed rows d)
revoke_listed-AllRevoked user_id d [] e =
    All-map _ _ d.reauth_tokens (λ t h own. ground arith)
      (select-nil-All (is_live user_id) d.reauth_tokens e)
revoke_listed-AllRevoked user_id d (t ∷ ts) e =
    All-update_where_from Listed (λ x. of_user user_id x ≡ true → x.revoked ≡ true)
      (λ r. any (λ x. x.id == r.id) (t ∷ ts)) (λ x. record x { revoked = true }) d.reauth_tokens
      (λ x h own. refl) (λ x k miss own. ground (arith, k))
      (subst
        (λ l.
          All (λ x. is_live user_id x ≡ true → any (λ y. y.id == x.id) l ≡ true) d.reauth_tokens)
        e (any-select (is_live user_id) (λ y x. y.id == x.id) d.reauth_tokens (λ x. ==_refl x.id)))
  where
    Listed : AuthReAuthToken → Type 0
    Listed x = is_live user_id x ≡ true → any (λ y. y.id == x.id) (t ∷ ts) ≡ true

module _ (env : Env) (user_id : Option ℕ) (token : String) (w : World) (calm : w.faults ≡ []) where
  consume_missing :
      reauth_by_token env user_id token w.db ≡ none
      → consume_token env direct user_id token w ≡ (err (http invalid_reauth_token), w)
  unfolding consume_token
  consume_missing e = ground arith

  consume_live :
      (t : AuthReAuthToken)
      → reauth_by_token env user_id token w.db ≡ some t
      → w.now ≤ t.expires_at
      → ((consume_token env direct user_id token w).0 ≡ ok tt)
        × ((consume_token env direct user_id token w).1.db
            ≡ revoke_listed (live_reauth user_id w.db) w.db)
        × ((consume_token env direct user_id token w).1.faults ≡ [])
  unfolding consume_token
  consume_live t e fresh = ground (
    arith,
    find-holds _ w.db.reauth_tokens t e,
    eq_iff t.token (env.sha256 token),
    eq_iff (env.sha256 token) t.token,
  )

-- Once every row that the condition lets through is revoked, no token is found.
found_none :
    (env : Env) (user_id : Option ℕ) (token : String) (d : Db)
    → AllRevoked user_id d
    → reauth_by_token env user_id token d ≡ none
found_none env user_id token d h = find-none _ d.reauth_tokens (
    All-map (λ t. of_user user_id t ≡ true → t.revoked ≡ true) _ d.reauth_tokens
      (λ t k. spent (of_user user_id t) (str_eq t.token (env.sha256 token)) t.revoked k) h)
  where
    spent : (a b r : Bool) → (a ≡ true → r ≡ true) → (a && (b && not r)) ≡ false
    spent false b r k = refl
    spent true b r k = ground (arith, k)

-- Where no external call fails: `consumeToken`, outside a transaction, accepts a stored, fresh
-- token, with or without a condition on the user; after it every token that this condition lets
-- through is revoked, and no token at all is accepted under it.
pub consume_token_once :
    (env : Env) (user_id : Option ℕ) (token again : String) (w : World) (t : AuthReAuthToken)
    → w.faults ≡ []
    → reauth_by_token env user_id token w.db ≡ some t
    → w.now ≤ t.expires_at
    → let after = (consume_token env direct user_id token w).1 in
      ((consume_token env direct user_id token w).0 ≡ ok tt)
      × AllRevoked user_id after.db
      × ((consume_token env direct user_id again after).0 ≡ err (http invalid_reauth_token))
consume_token_once env user_id token again w t calm e fresh =
    let first = consume_live env user_id token w calm t e fresh in
    let spent : AllRevoked user_id (consume_token env direct user_id token w).1.db =
      rw (first.1) (revoke_listed-AllRevoked user_id w.db _ refl) in
    (
      first.0,
      spent,
      ap (λ p. p.0)
          (consume_missing env user_id again (consume_token env direct user_id token w).1 first.2
            (found_none env user_id again (consume_token env direct user_id token w).1.db spent)),
    )

-- The row that `reauthenticate` inserts.
abbrev pub new_token : Env → ℕ → World → AuthReAuthToken
new_token env user_id w = record {
  id = suc w.serial;
  user = user_id;
  token = env.sha256 (env.uuidv7 w.serial);
  expires_at = w.now + reauth_term;
  revoked = false;
}

-- Where no external call fails: if `validateReathPassword` accepts the password (it matches the
-- stored hash, or it is empty and the user has no credentials), `reauthenticate` gives a token
-- that is then the user's only one that is not revoked, stored as its hash; otherwise it answers
-- `INVALID_PASSWORD` and changes nothing.
pub reauthenticate_lem :
    (env : Env) (user_id : ℕ) (password : String) (w : World)
    → w.faults ≡ []
    → let (r, w') = reauthenticate env user_id password w in
      (judge_reauth env password (credentials_of user_id w.db) ≡ true
        → (r ≡ ok (env.uuidv7 w.serial))
          × (live_reauth (some user_id) w'.db ≡ new_token env user_id w ∷ []))
      × (judge_reauth env password (credentials_of user_id w.db) ≡ false
          → (r ≡ err (http invalid_password)) × (w' ≡ w))
unfolding reauthenticate validate_reauth_password
reauthenticate_lem env user_id password w calm = (
  λ accepted. ground (
    arith,
    select-append (is_live (some user_id))
        (revoke_reauth (of_user (some user_id)) w.db).reauth_tokens (new_token env user_id w ∷ []),
    all_spent,
    ==_refl user_id,
  ),
  λ refused. ground arith,
)
  where
    all_spent :
        select (is_live (some user_id)) (revoke_reauth (of_user (some user_id)) w.db).reauth_tokens
        ≡ []
    all_spent = select-none (is_live (some user_id)) _ (
        All-update_where_of (λ t. is_live (some user_id) t ≡ false) (of_user (some user_id))
          (λ t. record t { revoked = true }) w.db.reauth_tokens (λ x h. ground arith)
          (λ x h. ground arith))
