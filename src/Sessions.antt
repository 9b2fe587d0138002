-- ===== src/Sessions.antt =====
-- src/modules/auth/sessions/sessions.service.ts: one session for each user and device.
pub mod Activity
use nestjs_auth_backend.Base.{
  ℕ, ◌+◌, Bool, true, false, ◌&&◌, ◌||◌, not, Option, none, some, String, List, [], ◌∷◌,
  if◌then◌else◌, ltb, ◌==◌, str_eq, is_some, when_some, find, select, any, insert_row, update_where,
}
use nestjs_auth_backend.Entities.{AuthSession}
use nestjs_auth_backend.Users.Lookup.{is_live_user}
use nestjs_auth_backend.World.{
  World, Db, Action, ◌>>=◌, ◌>>◌, pure, gets, query, execute, draw, try_catch, direct, manager,
  Conn,
}

abbrev pub set_active : Bool → (AuthSession → Bool) → Db → Db
set_active b p d = record d {
  sessions = update_where p (λ s. record s { is_active = b }) d.sessions;
}

-- `updateActive`
unfoldable pub update_active : Conn → ℕ → Bool → Action (Unit {0})
update_active repo id b = try_catch (execute repo (set_active b (λ s. s.id == id)))

-- The conditions on `user: { id: userId }` join the users that are not removed.
abbrev pub session_of_device : String → ℕ → Db → Option AuthSession
session_of_device device_id user_id d =
    find (λ s. str_eq s.device_id device_id && (s.user == user_id && is_live_user user_id d))
      d.sessions

-- Two days.
abbrev pub session_term : ℕ
session_term = 172_800_000

-- The session that the `try` of `createAuthSession` returns, made active again, or none.
abbrev pub resume_session : Option AuthSession → Action (Option AuthSession)
resume_session none = pure none
resume_session (some s) =
    if s.is_active then pure (some s) else update_active direct s.id true >> pure (some s)

-- The `save` of `createAuthSession`, unless a session was found.
abbrev pub open_session :
    Conn → ℕ → String → String → String → Option AuthSession → Action AuthSession
open_session repo user_id ip user_agent device_id (some s) = pure s
open_session repo user_id ip user_agent device_id none = do
  now ← gets (λ w. w.now)
  id ← draw
  let row : AuthSession = record {
    id = id;
    user = user_id;
    device_id = device_id;
    user_agent = user_agent;
    ip_address = ip;
    is_active = true;
    expires_at = now + session_term;
  }
  try_catch (execute repo (λ d. record d { sessions = insert_row row d.sessions }) >> pure row)

-- `createAuthSession`
unfoldable pub create_auth_session : Conn → ℕ → String → String → String → Action AuthSession
unfolding update_active
create_auth_session repo user_id ip user_agent device_id = do
  found ← try_catch (query direct (session_of_device device_id user_id) >>= resume_session)
  open_session repo user_id ip user_agent device_id found

-- `repo.save(sessions)` after `isActive = false` on each.
abbrev pub save_inactive : Conn → List AuthSession → Action (Unit {0})
save_inactive repo [] = pure tt
save_inactive repo (s ∷ ss) =
    execute repo (set_active false (λ r. any (λ x. x.id == r.id) (s ∷ ss)))

abbrev pub active_sessions_of : ℕ → Db → List AuthSession
active_sessions_of user_id d =
    select (λ s. s.is_active && (s.user == user_id && is_live_user user_id d)) d.sessions

-- `updateInactiveUserId`
unfoldable pub update_inactive_user_id : Conn → ℕ → Action (Unit {0})
update_inactive_user_id repo user_id =
    try_catch (do rows ← query repo (active_sessions_of user_id); save_inactive repo rows)

-- `findBySessionId`; an undefined or null id is no condition of the query.
unfoldable pub find_by_session_id : Option ℕ → Action (Option AuthSession)
find_by_session_id none = try_catch (query direct (λ d. find (λ s. s.is_active) d.sessions))
find_by_session_id (some id) =
    try_catch (query direct (λ d. find (λ s. s.id == id && s.is_active) d.sessions))

-- `findByDeviceId`
unfoldable pub find_by_device_id : String → Action (Option AuthSession)
find_by_device_id device_id =
    try_catch (query direct (λ d. find (λ s. str_eq s.device_id device_id) d.sessions))
