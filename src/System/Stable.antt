-- ===== src/System/Stable.antt =====
-- The interface of the invariants over all requests: what a predicate of the database must stand.
use nestjs_auth_backend.Base.{
  ℕ, ◌≡◌, Bool, true, false, Option, String, List, insert_row, update_where,
}
use nestjs_auth_backend.Entities.{
  Role, IdentityType, User, UserAccountCredentials, UserAccountOAuth, UserToken, UserSecurity,
  UserSecurityTwoFactorOtps, UserSecurityRecoveryCodes, UserSession, UserEmailChangeRequest,
  UserEmailChangeLog, AuthSession, AuthRefreshToken, AuthAttempts, AuthReAuthToken, AuditLog,
}
use nestjs_auth_backend.World.{Db}
use nestjs_auth_backend.RefreshTokens.{revoke_rows}
use nestjs_auth_backend.Users.Accounts.{
  UserDto, update_user, violates_unique, apply_update, update_clashes,
}
use nestjs_auth_backend.EmailChange.{email_taken, set_email}

-- `P` stands every change of the tables, with these limits: refresh tokens are only revoked and
-- appended, so are the tokens and requests of mails, which are marked as used, audit rows are only appended, and users are appended, or saved with the id and the role
-- that they have; the unique indices refuse a new user, and an email, that another user has.
pub record Stable (P : Db → Type 0) : Type 0 where
  pub roles : (d : Db) (xs : List Role) → P d → P (record d { roles = xs })
  pub user_added :
      (d : Db) (u : User)
      → violates_unique u d ≡ false
      → P d
      → P (record d { users = insert_row u d.users })
  pub user_saved :
      (d : Db) (p : User → Bool) (f : User → User)
      → ((u : User) → ((f u).id ≡ u.id) × ((f u).role ≡ u.role) × ((f u).email ≡ u.email))
      → P d
      → P (record d { users = update_where p f d.users })
  pub user_moved :
      (d : Db) (id : ℕ) (email : String)
      → email_taken id email d ≡ false
      → P d
      → P (set_email id email d)
  pub user_updated :
      (d : Db) (id : ℕ) (dto : UserDto) (t : IdentityType) (email : Option String)
      → update_clashes id (apply_update dto t email) d ≡ false
      → P d
      → P (update_user id (apply_update dto t email) d)
  pub credentials :
      (d : Db) (xs : List UserAccountCredentials) → P d → P (record d { credentials = xs })
  pub oauths : (d : Db) (xs : List UserAccountOAuth) → P d → P (record d { oauths = xs })
  pub token_added : (d : Db) (t : UserToken) → P d → P (record d { tokens = insert_row t d.tokens })
  pub tokens_used :
      (d : Db) (p : UserToken → Bool)
      → P d
      → P (record d { tokens = update_where p (λ t. record t { is_used = true }) d.tokens })
  pub securities : (d : Db) (xs : List UserSecurity) → P d → P (record d { securities = xs })
  pub otps : (d : Db) (xs : List UserSecurityTwoFactorOtps) → P d → P (record d { otps = xs })
  pub recovery_codes :
      (d : Db) (xs : List UserSecurityRecoveryCodes) → P d → P (record d { recovery_codes = xs })
  pub user_sessions : (d : Db) (xs : List UserSession) → P d → P (record d { user_sessions = xs })
  pub request_added :
      (d : Db) (r : UserEmailChangeRequest)
      → P d
      → P (record d { email_requests = insert_row r d.email_requests })
  pub requests_used :
      (d : Db) (p : UserEmailChangeRequest → Bool)
      → P d
      → P (record d {
        email_requests = update_where p (λ r. record r { used = true }) d.email_requests;
      })
  pub log_added :
      (d : Db) (l : UserEmailChangeLog)
      → P d
      → P (record d { email_logs = insert_row l d.email_logs })
  pub logs_revoked :
      (d : Db) (p : UserEmailChangeLog → Bool)
      → P d
      → P (record d { email_logs = update_where p (λ l. record l { revoked = true }) d.email_logs })
  pub sessions : (d : Db) (xs : List AuthSession) → P d → P (record d { sessions = xs })
  pub attempts : (d : Db) (xs : List AuthAttempts) → P d → P (record d { attempts = xs })
  pub reauth_tokens :
      (d : Db) (xs : List AuthReAuthToken) → P d → P (record d { reauth_tokens = xs })
  pub revoked : (d : Db) (p : AuthRefreshToken → Bool) → P d → P (revoke_rows p d)
  pub issued :
      (d : Db) (t : AuthRefreshToken)
      → P d
      → P (record d { refresh_tokens = insert_row t d.refresh_tokens })
  pub audited : (d : Db) (a : AuditLog) → P d → P (record d { audit = insert_row a d.audit })

-- `P` stands what `changeRole` does to a user.
pub record StableRoles (P : Db → Type 0) : Type 0 where
  pub role_set : (d : Db) (id role : ℕ) → P d → P (update_user id (λ u. record u { role = role }) d)
