-- ===== src/Sessions/Activity.antt =====
-- Deactivating sessions of src/modules/auth/sessions/sessions.service.ts.
use nestjs_auth_backend.Base.{
  ℕ, ◌≡◌, refl, ap, subst, Bool, true, false, ◌&&◌, List, [], ◌∷◌, arith, ◌==◌, any, All, ==_refl,
  All-update_where_from, All-map, any-select, select-nil-All, find-update_where_test,
}
use nestjs_auth_backend.Entities.{AuthSession, AuthRefreshToken}
use nestjs_auth_backend.World.{Db}
use nestjs_auth_backend.Users.Lookup.{is_live_user}
use nestjs_auth_backend.RefreshTokens.{token_of_user}
use nestjs_auth_backend.Sessions.{set_active, active_sessions_of}

-- No session of the user is active, unless the user is removed.
abbrev pub NoActiveSession : ℕ → Db → Type 0
NoActiveSession user_id d =
    All (λ s. s.user ≡ user_id → is_live_user user_id d ≡ true → s.is_active ≡ false) d.sessions

-- The rows that `repo.save(sessions)` leaves.
abbrev pub deactivate_listed : List AuthSession → Db → Db
deactivate_listed [] d = d
deactivate_listed (s ∷ ss) d = set_active false (λ r. any (λ x. x.id == r.id) (s ∷ ss)) d

abbrev is_active_of : ℕ → Db → AuthSession → Bool
is_active_of user_id d s = s.is_active && (s.user == user_id && is_live_user user_id d)

pub deactivate_listed-NoActiveSession :
    (user_id : ℕ) (d : Db) (rows : List AuthSession)
    → active_sessions_of user_id d ≡ rows
    → NoActiveSession user_id (deactivate_listed rows d)
deactivate_listed-NoActiveSession user_id d [] e =
    All-map _ _ d.sessions (λ s h own live. ground arith)
      (select-nil-All (is_active_of user_id d) d.sessions e)
deactivate_listed-NoActiveSession user_id d (s ∷ ss) e =
    All-update_where_from Listed
      (λ x. x.user ≡ user_id → is_live_user user_id d ≡ true → x.is_active ≡ false)
      (λ r. any (λ x. x.id == r.id) (s ∷ ss)) (λ x. record x { is_active = false }) d.sessions
      (λ x h own live. refl) (λ x k miss own live. ground (arith, k))
      (subst
        (λ l.
          All (λ x. is_active_of user_id d x ≡ true → any (λ y. y.id == x.id) l ≡ true) d.sessions)
        e
        (any-select (is_active_of user_id d) (λ y x. y.id == x.id) d.sessions (λ x. ==_refl x.id)))
  where
    Listed : AuthSession → Type 0
    Listed x = is_active_of user_id d x ≡ true → any (λ y. y.id == x.id) (s ∷ ss) ≡ true

-- Whose a token is does not depend on which sessions are active.
pub token_of_user-deactivate_listed :
    (user_id : ℕ) (rows : List AuthSession) (d : Db) (t : AuthRefreshToken)
    → token_of_user user_id (deactivate_listed rows d) t ≡ token_of_user user_id d t
token_of_user-deactivate_listed user_id [] d t = refl
token_of_user-deactivate_listed user_id (s ∷ ss) d t =
    ap (λ b. b && is_live_user user_id d)
      (find-update_where_test (λ x. x.id == t.auth_session) (λ r. any (λ x. x.id == r.id) (s ∷ ss))
        (λ x. x.user == user_id) (λ x. record x { is_active = false }) d.sessions (λ x. refl)
        (λ x. refl))
