-- ===== src/UserSessions.antt =====
-- src/modules/users/session/session.service.ts: the log of sign-ins.
use nestjs_auth_backend.Base.{ℕ, ◌+◌, String, insert_row}
use nestjs_auth_backend.World.{Action, ◌>>=◌, gets, execute, draw, try_catch, Conn}
use nestjs_auth_backend.Users.Lookup.{find_one}

abbrev pub user_session_term : ℕ
user_session_term = 86_400_000

-- What `getClientInfo` found, less the location.
pub record ClientInfo : Type 0 where
  pub ip : String
  pub user_agent : String
  pub device : String

-- `create`
unfoldable pub create_user_session : Conn → ℕ → ClientInfo → Action (Unit {0})
unfolding find_one
create_user_session repo user_id client = do
  user ← find_one user_id
  now ← gets (λ w. w.now)
  id ← draw
  try_catch (
      execute repo (λ d. record d {
        user_sessions =
            insert_row
              (record {
                id = id;
                user = user.row.id;
                ip = client.ip;
                device = client.device;
                user_agent = client.user_agent;
                expires_at = now + user_session_term;
              })
              d.user_sessions;
      }))
