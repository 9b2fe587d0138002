-- ===== src/Users/Laws.antt =====
-- `verifyEmail` and `changeRole` of src/modules/users/users.service.ts.
use nestjs_auth_backend.Base.{
  ℕ, ◌≡◌, true, some, String, arith, ◌==◌, str_eq, update_where, insert_row, [],
}
use nestjs_auth_backend.Entities.{User, Role, UserToken, active, change_role_user}
use nestjs_auth_backend.World.{World, ok}
use nestjs_auth_backend.Users.Lookup.{user_by_id, find_one, role_by_id}
use nestjs_auth_backend.Roles.{find_role}
use nestjs_auth_backend.AuditLog.{create_audit}
use nestjs_auth_backend.Users.Profile.{verify_email, change_role, RequestInfo}
use nestjs_auth_backend.Tokens.{token_row, update_token_is_used}
use nestjs_auth_backend.Tokens.Redeem.{IsUsable, find_one_by_token_usable}

-- Where no external call fails, for a token that is stored, not used and not expired, of whichever
-- type it is, and whose user is not removed: `verifyEmail` answers the user's email, makes the
-- user active whatever the status was, marks the token as used, and changes nothing else of the
-- database.
pub verify_email_any_token :
    (token : String) (w : World) (t : UserToken) (u : User)
    → w.faults ≡ []
    → token_row token w.db ≡ some t
    → IsUsable w t
    → user_by_id t.user w.db ≡ some u
    → ((verify_email token w).0 ≡ ok u.email)
      × ((verify_email token w).1.db ≡ record w.db {
        users = update_where (λ x. x.id == u.id) (λ x. record x { status = active }) w.db.users;
        tokens =
            update_where (λ x. str_eq x.token token) (λ x. record x { is_used = true }) w.db.tokens;
      })
unfolding verify_email update_token_is_used
verify_email_any_token token w t u calm e usable owner =
    ground (arith, find_one_by_token_usable token w t calm e usable)

-- Where no external call fails, for a user and a role that exist: `changeRole` succeeds, gives the
-- role to the user, appends one audit row, and changes nothing else of the database. The audit row
-- holds the role that the user had as `after` and the role given as `before`.
pub change_role_lem :
    (req : RequestInfo) (admin user_id role_id : ℕ) (w : World) (u : User) (r : Role)
    → w.faults ≡ []
    → user_by_id user_id w.db ≡ some u
    → role_by_id role_id w.db ≡ some r
    → ((change_role req admin user_id role_id w).0 ≡ ok tt)
      × ((change_role req admin user_id role_id w).1.db ≡ record w.db {
        users = update_where (λ x. x.id == user_id) (λ x. record x { role = r.id }) w.db.users;
        audit =
            insert_row
              (record {
                event = change_role_user;
                actor_id = some admin;
                ip = req.ip;
                user_agent = req.user_agent;
                after = some u.role;
                before = some r.id;
              })
              w.db.audit;
      })
unfolding change_role find_one find_role create_audit
change_role_lem req admin user_id role_id w u r calm e k = ground arith
