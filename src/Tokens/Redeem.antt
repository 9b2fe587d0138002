-- ===== src/Tokens/Redeem.antt =====
-- The tokens of the mails (src/modules/users/tokens/tokens.service.ts): when they are accepted.
use nestjs_auth_backend.Base.{
  ◌≤◌, ◌≡◌, refl, sym, ap, ◌∙◌, inl, inr, Bool, true, false, none, some, String, List, [], arith,
  str_eq, find, find-All, find-holds, All-update_where_of, Option-cases, update_where,
}
use nestjs_auth_backend.Errors.{http, token_not_found}
use nestjs_auth_backend.Entities.{UserToken}
use nestjs_auth_backend.World.{World, ok, err, direct}
use nestjs_auth_backend.Users.Lookup.{user_by_id}
use nestjs_auth_backend.Tokens.{token_row, find_one_by_token, update_token_is_used}

-- Whether a stored token may still be used.
abbrev pub IsUsable : World → UserToken → Type 0
IsUsable w t = (t.is_used ≡ false) × (w.now ≤ t.expires_at)

pub find_one_by_token_usable :
    (token : String) (w : World) (t : UserToken)
    → w.faults ≡ []
    → token_row token w.db ≡ some t
    → IsUsable w t
    → find_one_by_token token w ≡ (ok (record { row = t; user = user_by_id t.user w.db }), w)
unfolding find_one_by_token
find_one_by_token_usable token w t calm e usable = ground arith

find_one_by_token_missing :
    (token : String) (w : World)
    → w.faults ≡ []
    → token_row token w.db ≡ none
    → (find_one_by_token token w).0 ≡ err (http token_not_found)
unfolding find_one_by_token
find_one_by_token_missing token w calm e = ground arith

find_one_by_token_spent :
    (token : String) (w : World) (t : UserToken)
    → w.faults ≡ []
    → token_row token w.db ≡ some t
    → ¬ IsUsable w t
    → (find_one_by_token token w).0 ≡ err (http token_not_found)
unfolding find_one_by_token
find_one_by_token_spent token w t calm e spent = ground arith

pub update_token_is_used_db :
    (token : String) (w : World)
    → w.faults ≡ []
    → (update_token_is_used direct token w).1.db ≡ record w.db {
      tokens =
          update_where (λ t. str_eq t.token token) (λ t. record t { is_used = true }) w.db.tokens;
    }
unfolding update_token_is_used
update_token_is_used_db token w calm = ground arith

-- In the rewritten rows the token that a lookup finds is marked.
found_is_used :
    (token : String) (rows : List UserToken) (t : UserToken)
    → find
        (λ t. str_eq t.token token)
        (update_where (λ t. str_eq t.token token) (λ t. record t { is_used = true }) rows)
      ≡ some t
    → t.is_used ≡ true
found_is_used token rows t e =
    find-All IsMarked _ _ t
      (All-update_where_of IsMarked (λ t. str_eq t.token token) (λ t. record t { is_used = true })
        rows (λ x hit own. refl) (λ x miss own. absurd (true-ne_false own miss)))
      e (find-holds (λ t. str_eq t.token token) _ t e)
  where
    true-ne_false : {b : Bool} → b ≡ true → b ≡ false → ⊥
    true-ne_false h k = cc

    IsMarked : UserToken → Type 0
    IsMarked t = str_eq t.token token ≡ true → t.is_used ≡ true

update_token_is_used_faults :
    (token : String) (w : World)
    → w.faults ≡ []
    → ((update_token_is_used direct token w).0 ≡ ok tt)
      × ((update_token_is_used direct token w).1.faults ≡ [])
unfolding update_token_is_used
update_token_is_used_faults token w calm = ground arith

-- Where no external call fails: `updateTokenIsUsed`, outside a transaction, succeeds, and after it
-- `findOneByToken` refuses the token with `TOKEN_NOT_FOUND`, whichever token it is.
pub token_used_once :
    (token : String) (w : World)
    → w.faults ≡ []
    → ((update_token_is_used direct token w).0 ≡ ok tt)
      × ((find_one_by_token token (update_token_is_used direct token w).1).0
          ≡ err (http token_not_found))
token_used_once token w calm =
    let marked = update_token_is_used_faults token w calm in
    let rows = update_token_is_used_db token w calm in
    let after = (update_token_is_used direct token w).1 in
    (
      marked.0,
      elim (Option-cases (token_row token after.db)) [
        | inl e ↦ find_one_by_token_missing token after marked.1 e
        | inr (t, e) ↦ find_one_by_token_spent token after t marked.1 e (λ usable.
            let used = found_is_used token w.db.tokens t (ap (token_row token) (sym rows) ∙ e) in
            let fresh = usable.0 in cc)
      ],
    )
