-- ===== src/Auth/Logout.antt =====
-- `logout`, `logoutDevice` and `logoutAll` of src/modules/auth/auth.service.ts.
pub mod Laws
use nestjs_auth_backend.Base.{ℕ, zero, suc, Bool, true, false, Option, none, some, String}
use nestjs_auth_backend.Errors.{crash}
use nestjs_auth_backend.World.{
  Action, ◌>>=◌, ◌>>◌, pure, or_throw, not_awaited, transaction, manager,
}
use nestjs_auth_backend.RefreshTokens.{revoke_token_with_session_id, revoke_token_with_user_id}
use nestjs_auth_backend.Sessions.{
  update_active, update_inactive_user_id, find_by_session_id, find_by_device_id,
}

-- `logout`
unfoldable pub logout : ℕ → Action (Unit {0})
logout session_id =
    transaction
      (do revoke_token_with_session_id manager session_id; update_active manager session_id false)

-- `logoutDevice`; the id of a session that is not found is a `TypeError`.
unfoldable pub logout_device : String → Action (Unit {0})
unfolding logout
logout_device device_id = do
  found ← find_by_device_id device_id
  session ← or_throw found crash
  logout session.id

-- `if (!sessionId) await ...findBySessionId(sessionId)`, whose result is not used.
abbrev pub look_up_unless : Option ℕ → Action (Unit {0})
look_up_unless (some (suc n)) = pure tt
look_up_unless (some zero) = do found ← find_by_session_id (some zero); pure tt
look_up_unless none = do found ← find_by_session_id none; pure tt

-- The transaction of `logoutAll`.
unfoldable pub sign_out_everywhere : ℕ → Action (Unit {0})
sign_out_everywhere user_id =
    transaction
      (do revoke_token_with_user_id manager user_id; update_inactive_user_id manager user_id)

-- `logoutAll`
unfoldable pub logout_all : ℕ → Option ℕ → Action (Unit {0})
logout_all user_id session_id = look_up_unless session_id >> sign_out_everywhere user_id
