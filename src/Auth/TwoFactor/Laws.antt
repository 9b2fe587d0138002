-- ===== src/Auth/TwoFactor/Laws.antt =====
-- `verify2fa` and `disable2fa` of src/modules/auth/auth.service.ts.
use nestjs_auth_backend.Base.{
  ℕ, ◌≡◌, true, false, none, some, String, [], arith, ◌==◌, ==_refl, find-save, find-holds,
}
use nestjs_auth_backend.Entities.{User, UserSecurity, totp}
use nestjs_auth_backend.World.{World, ok, Env}
use nestjs_auth_backend.AuditLog.{create_audit}
use nestjs_auth_backend.Security.{security_of, find_one_by_user, save_security}
use nestjs_auth_backend.Users.Lookup.{user_by_id, role_by_id, find_one}
use nestjs_auth_backend.Auth.SignIn.{Request, generated_token_and_refresh_token}
use nestjs_auth_backend.Auth.SignIn.Laws.{asks_second_factor}
use nestjs_auth_backend.Auth.TwoFactor.{stored_secret, load_subject, verify_2fa, disable_2fa}

-- Where no external call fails: for a user whose settings have a TOTP secret, `verify2fa` with a
-- code that the secret accepts does what a completed sign-in does, whatever the status of the user
-- and with no password given before.
pub verify_2fa_totp :
    (env : Env) (req : Request) (user_id : ℕ) (given device_id secret : String) (w : World)
    (u : User) (s : UserSecurity)
    → w.faults ≡ []
    → user_by_id user_id w.db ≡ some u
    → security_of u.id w.db ≡ some s
    → s.two_factor_type ≡ some totp
    → stored_secret s.two_factor_data ≡ some secret
    → env.totp_verify secret given w.now ≡ true
    → verify_2fa env req user_id given device_id w
      ≡ generated_token_and_refresh_token env req
          (record { row = u; role = role_by_id u.role w.db })
          device_id
          w
unfolding verify_2fa load_subject find_one find_one_by_user
verify_2fa_totp env req user_id given device_id secret w u s calm user settings type stored right =
    ground arith

-- Where no external call fails, for a user with second-factor settings: `disable2fa` succeeds, and
-- after it the settings ask for no second factor, whether they did before or not.
pub disable_2fa_lem :
    (req : Request) (user_id : ℕ) (w : World) (u : User) (s : UserSecurity)
    → w.faults ≡ []
    → user_by_id user_id w.db ≡ some u
    → security_of u.id w.db ≡ some s
    → ((disable_2fa req user_id w).0 ≡ ok tt)
      × (asks_second_factor u.id (disable_2fa req user_id w).1.db ≡ false)
unfolding disable_2fa load_subject find_one find_one_by_user save_security create_audit
disable_2fa_lem req user_id w u s calm user settings = ground (
  arith,
  find-save (λ x. x.user == u.id) (λ x. x.id == s.id)
      (record s {
        two_factor_enabled = false;
        two_factor_type = none;
        two_factor_data = none;
        last_changed_at = some w.now;
      })
      w.db.securities s (find-holds (λ x. x.user == u.id) w.db.securities s settings) (==_refl s.id)
      settings,
)
