-- ===== src/RefreshTokens/Rotation.antt =====
-- Redeeming and revoking the tokens of
-- src/modules/auth/refresh-tokens/refresh-tokens.service.ts.
use nestjs_auth_backend.Base.{
  ℕ, ◌≤◌, ◌<◌, ◌≡◌, ◌⊎◌, refl, ap, subst, inl, inr, Bool, true, false, ◌&&◌, not, Option, none,
  some, String, List, [], ◌∷◌, arith, ◌==◌, str_eq, ltb, find, any, All, Option-cases, ==_refl,
  find-update_where, All-update_where_from, All-map, any-select, select-nil-All,
}
use nestjs_auth_backend.Errors.{http, token_revoked, token_not_found}
use nestjs_auth_backend.Entities.{AuthRefreshToken, AuthSession}
use nestjs_auth_backend.World.{World, Db, Result, ok, err, Env}
use nestjs_auth_backend.RefreshTokens.{
  session_by_id, revoke_rows, revoke_refresh_token, token_of_user, live_tokens_of_user,
}

abbrev pub row_of_hash : String → Db → Option AuthRefreshToken
row_of_hash hash d = find (λ t. str_eq t.token hash) d.refresh_tokens

-- What the row of a presented token allows: a missing or expired one is not found, a revoked one
-- is refused, and any other gives its session.
abbrev pub Verdict : World → Option AuthRefreshToken → Result (Option AuthSession) → Type 0
Verdict w none r = r ≡ err (http token_not_found)
Verdict w (some t) r =
    ((t.expires_at < w.now) × (r ≡ err (http token_not_found)))
    ⊎ ((w.now ≤ t.expires_at) × (t.revoked ≡ true) × (r ≡ err (http token_revoked)))
    ⊎ ((w.now ≤ t.expires_at) × (t.revoked ≡ false) × (r ≡ ok (session_by_id t.auth_session w.db)))

module _ (env : Env) (token : String) (w : World) (calm : w.faults ≡ []) where
  pub revoke_missing :
      row_of_hash (env.sha256 token) w.db ≡ none
      → revoke_refresh_token env token w ≡ (err (http token_not_found), w)
  unfolding revoke_refresh_token
  revoke_missing e = ground arith

  module _ (t : AuthRefreshToken) (e : row_of_hash (env.sha256 token) w.db ≡ some t) where
    revoke_expired :
        ltb t.expires_at w.now ≡ true
        → revoke_refresh_token env token w ≡ (err (http token_not_found), w)
    unfolding revoke_refresh_token
    revoke_expired x = ground arith

    pub revoke_revoked :
        ltb t.expires_at w.now ≡ false
        → t.revoked ≡ true
        → revoke_refresh_token env token w ≡ (err (http token_revoked), w)
    unfolding revoke_refresh_token
    revoke_revoked x r = ground arith

    pub revoke_live :
        ltb t.expires_at w.now ≡ false
        → t.revoked ≡ false
        → revoke_refresh_token env token w ≡ (
          ok (session_by_id t.auth_session w.db),
          record w {
            db = revoke_rows (λ r. r.id == t.id) w.db;
            work = revoke_rows (λ r. r.id == t.id) w.work;
          },
        )
    unfolding revoke_refresh_token
    revoke_live x r = ground arith

-- Where no external call fails, the answer of `revokeRefreshToken` is determined by the row of the
-- token's hash: `TOKEN_NOT_FOUND` where there is none or it is expired, `TOKEN_REVOKED` where it
-- is not expired but revoked, and otherwise the row's session.
pub revoke_refresh_token-Verdict :
    (env : Env) (token : String) (w : World)
    → w.faults ≡ []
    → Verdict w (row_of_hash (env.sha256 token) w.db) (revoke_refresh_token env token w).0
revoke_refresh_token-Verdict env token w calm =
    elim (Option-cases (row_of_hash (env.sha256 token) w.db)) [
      | inl e ↦ rw e (ap (λ p. p.0) (revoke_missing env token w calm e))
      | inr (t, e) ↦ rw e (verdict t e)
    ]
  where
    verdict :
        (t : AuthRefreshToken)
        → row_of_hash (env.sha256 token) w.db ≡ some t
        → Verdict w (some t) (revoke_refresh_token env token w).0
    verdict t e = ground (
      arith,
      revoke_expired env token w calm t e,
      revoke_revoked env token w calm t e,
      revoke_live env token w calm t e,
    )

-- Where no external call fails: a refresh token that `revokeRefreshToken` accepted is refused with
-- `TOKEN_REVOKED` when it is presented again.
pub revoke_refresh_token_twice :
    (env : Env) (token : String) (w : World) {s : Option AuthSession}
    → w.faults ≡ []
    → (revoke_refresh_token env token w).0 ≡ ok s
    → (revoke_refresh_token env token (revoke_refresh_token env token w).1).0
      ≡ err (http token_revoked)
revoke_refresh_token_twice env token w {s} calm accepted =
    elim (Option-cases (row_of_hash (env.sha256 token) w.db)) [
      | inl e ↦ absurd (cc (ap (λ p. p.0) (revoke_missing env token w calm e)))
      | inr (t, e) ↦ again t e
    ]
  where
    live_row :
        (t : AuthRefreshToken)
        → row_of_hash (env.sha256 token) w.db ≡ some t
        → (ltb t.expires_at w.now ≡ false) × (t.revoked ≡ false)
    live_row t e =
        ground (arith, revoke_expired env token w calm t e, revoke_revoked env token w calm t e)

    row_after :
        (t : AuthRefreshToken)
        → row_of_hash (env.sha256 token) w.db ≡ some t
        → row_of_hash (env.sha256 token) (revoke_rows (λ r. r.id == t.id) w.db)
          ≡ some (record t { revoked = true })
    row_after t e = ground (
      arith,
      find-update_where (λ x. str_eq x.token (env.sha256 token)) (λ r. r.id == t.id)
          (λ x. record x { revoked = true }) w.db.refresh_tokens t (λ x. refl) e,
      ==_refl t.id,
    )

    again :
        (t : AuthRefreshToken)
        → row_of_hash (env.sha256 token) w.db ≡ some t
        → (revoke_refresh_token env token (revoke_refresh_token env token w).1).0
          ≡ err (http token_revoked)
    again t e =
        let live = live_row t e in
        rw (revoke_live env token w calm t e live.0 live.1) (
          ap (λ p. p.0)
            (revoke_revoked env token _ calm (record t { revoked = true }) (row_after t e) live.0
              refl))

-- Every refresh token of the user is revoked.
abbrev pub NoLiveToken : ℕ → Db → Type 0
NoLiveToken user_id d =
    All (λ t. token_of_user user_id d t ≡ true → t.revoked ≡ true) d.refresh_tokens

-- The rows that `repo.save(tokens)` leaves.
abbrev pub revoke_listed : List AuthRefreshToken → Db → Db
revoke_listed [] d = d
revoke_listed (t ∷ ts) d = revoke_rows (λ r. any (λ x. x.id == r.id) (t ∷ ts)) d

abbrev is_live_of : ℕ → Db → AuthRefreshToken → Bool
is_live_of user_id d t = not t.revoked && token_of_user user_id d t

pub revoke_listed-NoLiveToken :
    (user_id : ℕ) (d : Db) (rows : List AuthRefreshToken)
    → live_tokens_of_user user_id d ≡ rows
    → NoLiveToken user_id (revoke_listed rows d)
revoke_listed-NoLiveToken user_id d [] e =
    All-map _ _ d.refresh_tokens (λ t h own. ground arith)
      (select-nil-All (is_live_of user_id d) d.refresh_tokens e)
revoke_listed-NoLiveToken user_id d (t ∷ ts) e =
    All-update_where_from Listed (λ x. token_of_user user_id d x ≡ true → x.revoked ≡ true)
      (λ r. any (λ x. x.id == r.id) (t ∷ ts)) (λ x. record x { revoked = true }) d.refresh_tokens
      (λ x h own. refl) (λ x k miss own. ground (arith, k))
      (subst
        (λ s.
          All (λ x. is_live_of user_id d x ≡ true → any (λ y. y.id == x.id) s ≡ true)
            d.refresh_tokens)
        e
        (any-select (is_live_of user_id d) (λ y x. y.id == x.id) d.refresh_tokens
          (λ x. ==_refl x.id)))
  where
    Listed : AuthRefreshToken → Type 0
    Listed x = is_live_of user_id d x ≡ true → any (λ y. y.id == x.id) (t ∷ ts) ≡ true
