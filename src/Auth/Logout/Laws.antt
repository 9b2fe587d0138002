-- ===== src/Auth/Logout/Laws.antt =====
-- `logout` and `logoutAll` of src/modules/auth/auth.service.ts, and what they commit.
use nestjs_auth_backend.Base.{
  ℕ, zero, suc, Option, none, some, List, [], ◌∷◌, All-map, subst, sym, ap, ◌∙◌, ◌≡◌, ◌==◌, true,
  false, arith, refl, All, find, is_some, ◌&&◌, not,
}
use nestjs_auth_backend.World.{World, Db, Result, ok, err, ◌>>=◌, manager}
use nestjs_auth_backend.World.Outcomes.{Wrote, Wrote-bind, AllOrNothing, transaction-AllOrNothing}
use nestjs_auth_backend.RefreshTokens.{
  revoke_rows, revoke_token_with_session_id, revoke_token_with_user_id, live_tokens_of_user,
}
use nestjs_auth_backend.RefreshTokens.Rotation.{
  NoLiveToken, revoke_listed, revoke_listed-NoLiveToken,
}
use nestjs_auth_backend.Sessions.{
  set_active, update_active, active_sessions_of, update_inactive_user_id, find_by_session_id,
}
use nestjs_auth_backend.Sessions.Activity.{
  NoActiveSession, deactivate_listed, deactivate_listed-NoActiveSession,
  token_of_user-deactivate_listed,
}
use nestjs_auth_backend.Entities.{AuthSession, AuthRefreshToken, User}
use nestjs_auth_backend.RefreshTokens.{token_of_user, owned_by}
use nestjs_auth_backend.Users.Lookup.{is_live_user}
use nestjs_auth_backend.Auth.Logout.{logout, look_up_unless, sign_out_everywhere, logout_all}

abbrev pub log_out : ℕ → Db → Db
log_out session_id d =
    set_active false (λ s. s.id == session_id) (revoke_rows (λ t. t.auth_session == session_id) d)

-- Whatever external call fails, `logout` either succeeds, and has then revoked every refresh token
-- of the session and made the session inactive and committed nothing else, or it fails and has
-- committed nothing.
pub logout-AllOrNothing :
    (session_id : ℕ) (w : World) → AllOrNothing (log_out session_id) w.db (logout session_id w)
unfolding logout revoke_token_with_session_id update_active
logout-AllOrNothing session_id w = ground arith

-- What signing a user out everywhere does to the database.
abbrev pub sign_out : ℕ → Db → Db
sign_out user_id d =
    let revoked = revoke_listed (live_tokens_of_user user_id d) d in
    deactivate_listed (active_sessions_of user_id revoked) revoked

revoke_token_with_user_id-Wrote :
    (user_id : ℕ) (w : World)
    → Wrote
        (revoke_listed (live_tokens_of_user user_id w.db) w.work)
        w
        (revoke_token_with_user_id manager user_id w)
unfolding revoke_token_with_user_id
revoke_token_with_user_id-Wrote user_id w = ground arith

update_inactive_user_id-Wrote :
    (user_id : ℕ) (w : World)
    → Wrote
        (deactivate_listed (active_sessions_of user_id w.work) w.work)
        w
        (update_inactive_user_id manager user_id w)
unfolding update_inactive_user_id
update_inactive_user_id-Wrote user_id w = ground arith

sign_out_everywhere-AllOrNothing :
    (user_id : ℕ) (w : World) → AllOrNothing (sign_out user_id) w.db (sign_out_everywhere user_id w)
unfolding sign_out_everywhere
sign_out_everywhere-AllOrNothing user_id w =
    transaction-AllOrNothing (sign_out user_id)
      (revoke_token_with_user_id manager user_id >>= λ _. update_inactive_user_id manager user_id) w
      (Wrote-bind (revoke_listed (live_tokens_of_user user_id w.db) w.db) (sign_out user_id w.db)
        (record w { work = w.db }) (revoke_token_with_user_id manager user_id)
        (λ _. update_inactive_user_id manager user_id)
        (revoke_token_with_user_id-Wrote user_id (record w { work = w.db }))
        (λ _ w' same seen.
          subst
            (λ d.
              Wrote (deactivate_listed (active_sessions_of user_id d) d) w'
                (update_inactive_user_id manager user_id w'))
            seen (update_inactive_user_id-Wrote user_id w')))

look_up_unless-db : (session_id : Option ℕ) (w : World) → (look_up_unless session_id w).1.db ≡ w.db
unfolding find_by_session_id
look_up_unless-db (some (suc n)) w = refl
look_up_unless-db (some zero) w = ground arith
look_up_unless-db none w = ground arith

sign_out-users : (user_id : ℕ) (d : Db) → (sign_out user_id d).users ≡ d.users
sign_out-users user_id d =
    deactivated (active_sessions_of user_id (revoke_listed (live_tokens_of_user user_id d) d)) _
    ∙ revoked (live_tokens_of_user user_id d)
  where
    deactivated : (rows : List AuthSession) (e : Db) → (deactivate_listed rows e).users ≡ e.users
    deactivated [] e = refl
    deactivated (s ∷ ss) e = refl

    revoked : (rows : List AuthRefreshToken) → (revoke_listed rows d).users ≡ d.users
    revoked [] = refl
    revoked (t ∷ ts) = refl

-- What is left of a user's sign-ins where the user is not removed: nothing that a refresh could use.
abbrev pub CutOff : ℕ → Db → Result (Unit {0}) × World → Type 0
CutOff user_id before (ok _, w) =
    NoLiveToken user_id w.db × NoActiveSession user_id w.db × (w.db.users ≡ before.users)
CutOff user_id before (err _, w) = w.db ≡ before

deactivate_listed-NoLiveToken :
    (user_id : ℕ) (rows : List AuthSession) (d : Db)
    → NoLiveToken user_id d
    → NoLiveToken user_id (deactivate_listed rows d)
deactivate_listed-NoLiveToken user_id [] d h = h
deactivate_listed-NoLiveToken user_id (s ∷ ss) d h =
    All-map (λ t. token_of_user user_id d t ≡ true → t.revoked ≡ true)
      (λ t. token_of_user user_id (deactivate_listed (s ∷ ss) d) t ≡ true → t.revoked ≡ true)
      d.refresh_tokens
      (λ t k own. k (sym (token_of_user-deactivate_listed user_id (s ∷ ss) d t) ∙ own)) h

-- Whatever is left, where the user is not removed.
pub logout_all-CutOff :
    (user_id : ℕ) (session_id : Option ℕ) (w : World)
    → CutOff user_id w.db (logout_all user_id session_id w)
unfolding logout_all
logout_all-CutOff user_id session_id w = after (look_up_unless session_id w).0
  where
    signed_out : (w' : World) → w'.db ≡ w.db → CutOff user_id w.db (sign_out_everywhere user_id w')
    signed_out w' same =
        let revoked = revoke_listed (live_tokens_of_user user_id w'.db) w'.db in
        ground (
          arith,
          sign_out_everywhere-AllOrNothing user_id w',
          deactivate_listed-NoLiveToken user_id (active_sessions_of user_id revoked) revoked
              (revoke_listed-NoLiveToken user_id w'.db _ refl),
          deactivate_listed-NoActiveSession user_id revoked _ refl,
          sign_out-users user_id w'.db,
        )

    after :
        (r : Result (Unit {0}))
        → CutOff user_id w.db (elim r as (λ _. Result (Unit {0}) × World) [
          | ok a ↦ sign_out_everywhere user_id (look_up_unless session_id w).1
          | err e ↦ (err e, (look_up_unless session_id w).1)
        ])
    after (ok a) = signed_out _ (look_up_unless-db session_id w)
    after (err e) = look_up_unless-db session_id w

-- `logoutAll` leaves the users as they are.
pub logout_all-users :
    (user_id : ℕ) (session_id : Option ℕ) (w : World)
    → (logout_all user_id session_id w).1.db.users ≡ w.db.users
logout_all-users user_id session_id w = kept _ (logout_all-CutOff user_id session_id w)
  where
    kept : (r : Result (Unit {0}) × World) → CutOff user_id w.db r → r.1.db.users ≡ w.db.users
    kept (ok _, v) h = h.2
    kept (err _, v) h = ap (λ (d : Db). d.users) h

-- No refresh token of the user is left to use, and no session is active.
abbrev pub SignedOut : ℕ → Db → Result (Unit {0}) × World → Type 0
SignedOut user_id before (ok _, w) =
    All (λ t. owned_by user_id w.db t ≡ true → t.revoked ≡ true) w.db.refresh_tokens
    × All (λ s. s.user ≡ user_id → s.is_active ≡ false) w.db.sessions
SignedOut user_id before (err _, w) = w.db ≡ before

CutOff-SignedOut :
    (user_id : ℕ) (before : Db)
    → is_live_user user_id before ≡ true
    → (r : Result (Unit {0}) × World) → CutOff user_id before r
    → SignedOut user_id before r
CutOff-SignedOut user_id before live (err _, w) h = h
CutOff-SignedOut user_id before live (ok _, w) h =
    let still : is_live_user user_id w.db ≡ true =
      subst
        (λ us.
          is_some (find (λ (u : User). u.id == user_id && not (is_some u.deleted_at)) us) ≡ true)
        (sym h.2) live in
    (
      All-map _ _ w.db.refresh_tokens (λ t k own. k (rw (own, still) refl)) h.0,
      All-map _ _ w.db.sessions (λ s k own. k own still) h.1,
    )

-- After `logoutAll` for a user who is not removed, with whatever session id, every refresh token
-- of the user is revoked and every session of the user is inactive; or the call failed, and
-- nothing is committed.
pub logout_all-SignedOut :
    (user_id : ℕ) (session_id : Option ℕ) (w : World)
    → is_live_user user_id w.db ≡ true
    → SignedOut user_id w.db (logout_all user_id session_id w)
logout_all-SignedOut user_id session_id w live =
    CutOff-SignedOut user_id w.db live _ (logout_all-CutOff user_id session_id w)
