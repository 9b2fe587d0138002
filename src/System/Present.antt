-- ===== src/System/Present.antt =====
-- A user who resets the password is still there afterwards (`resetPasswordToken` of
-- src/modules/auth/auth.service.ts).
use nestjs_auth_backend.Base.{
  ℕ, ◌≡◌, refl, ap, subst, sym, ◌∙◌, true, ◌&&◌, not, Option, none, some, String, List,
  if◌then◌else◌, arith, ◌==◌, is_some, find, find-holds, find-update_where, Option-cases, inl, inr,
}
use nestjs_auth_backend.Entities.{User, AuditLog, UserAccountCredentials, UserToken}
use nestjs_auth_backend.World.{World, Db, Result, ok, Action, ◌>>=◌, ◌>>◌, Env, Conn, send_mail}
use nestjs_auth_backend.World.Outcomes.{bind-ok}
use nestjs_auth_backend.World.Rules.{Leaves, leaves_rules}
use nestjs_auth_backend.World.Invariants.{Keeps, keeps_rules, Keeps-transaction}
use nestjs_auth_backend.AuditLog.{create_audit}
use nestjs_auth_backend.Credentials.{create_credentials, ensure_credentials, update_credentials}
use nestjs_auth_backend.Users.Lookup.{user_by_id, is_live_user, find_user_by_email}
use nestjs_auth_backend.Users.Accounts.{update_password, update_user}
use nestjs_auth_backend.Tokens.{LoadedUserToken, token_row, update_token_is_used, find_one_by_token}
use nestjs_auth_backend.Auth.Logout.{logout_all}
use nestjs_auth_backend.Auth.Logout.Laws.{logout_all-users}
use nestjs_auth_backend.Auth.Passwords.{replace_steps, replace_password}

abbrev pub Present : ℕ → Db → Type 0
Present id d = (v : User) × (user_by_id id d ≡ some v)

pub Present-is_live_user : (id : ℕ) (d : Db) → Present id d → is_live_user id d ≡ true
Present-is_live_user id d h = rw (h.1) refl

module _ (id : ℕ) where
  credentials_set :
      (d : Db) (xs : List UserAccountCredentials)
      → Present id d
      → Present id (record d { credentials = xs })
  credentials_set d xs h = h

  tokens_set : (d : Db) (xs : List UserToken) → Present id d → Present id (record d { tokens = xs })
  tokens_set d xs h = h

  secret_set :
      (d : Db) (user_id : ℕ) (secret : String)
      → Present id d
      → Present id (update_user user_id (λ u. record u { user_secret = secret }) d)
  secret_set d user_id secret h = (
    if h.0.id == user_id then record h.0 { user_secret = secret } else h.0,
    find-update_where (λ u. u.id == id && not (is_some u.deleted_at)) (λ u. u.id == user_id)
        (λ u. record u { user_secret = secret }) d.users h.0 (λ u. refl) h.1,
  )

  create_credentials-Keeps :
      (env : Env) (repo : Conn) (user_id : ℕ) (password : String)
      → Keeps (Present id) (create_credentials env repo user_id password)
  unfolding create_credentials
  create_credentials-Keeps env repo user_id password = search keeps_rules depth 30

  ensure_credentials-Keeps :
      (env : Env) (repo : Conn) (address password : String) (found : Option UserAccountCredentials)
      → Keeps (Present id) (ensure_credentials env repo address password found)
  unfolding find_user_by_email
  ensure_credentials-Keeps env repo address password none =
      search (keeps_rules, create_credentials-Keeps) depth 30
  ensure_credentials-Keeps env repo address password (some c) = search keeps_rules depth 30

  replace_steps-Keeps :
      (env : Env) (user : User) (token p q : String)
      → Keeps (Present id) (replace_steps env user token p q)
  unfolding replace_steps update_credentials update_password update_token_is_used
  replace_steps-Keeps env user token p q =
      search (keeps_rules, ensure_credentials-Keeps, credentials_set, tokens_set, secret_set) depth
        40

  -- The transaction begins with what is committed, whatever `work` is.
  replace_password-Present :
      (env : Env) (user : User) (token p q : String) (w : World)
      → Present id w.db
      → Present id (replace_password env user token p q w).1.db
  unfolding replace_password
  replace_password-Present env user token p q w h =
      let committed = record w { work = w.db } in
      ((Keeps-transaction (Present id) (replace_steps-Keeps env user token p q)).apply committed h
        h).0

logout_all-Leaves :
    (user_id : ℕ) (session_id : Option ℕ) → Leaves (λ d. d.users) (logout_all user_id session_id)
logout_all-Leaves user_id session_id = record { apply = logout_all-users user_id session_id }

create_audit-Leaves : (row : AuditLog) → Leaves (λ d. d.users) (create_audit row)
unfolding create_audit
create_audit-Leaves row = record { apply = λ w. ground arith }

-- What follows the new password.
abbrev after_password : String → ℕ → AuditLog → Action (Unit {0})
after_password address user_id row = do
  send_mail address "auth-password-success" none
  logout_all user_id none
  create_audit row

after_password-Leaves :
    (address : String) (user_id : ℕ) (row : AuditLog)
    → Leaves (λ d. d.users) (after_password address user_id row)
after_password-Leaves address user_id row =
    search (leaves_rules, logout_all-Leaves, create_audit-Leaves) depth 30

Present-users : (id : ℕ) (d e : Db) → e.users ≡ d.users → Present id d → Present id e
Present-users id d e same h =
    (h.0, ap (λ us. find (λ (u : User). u.id == id && not (is_some u.deleted_at)) us) same ∙ h.1)

pub reset_for-Present :
    (env : Env) (user : User) (token p q : String) (row : AuditLog) (w : World)
    → Present user.id w.db
    → ((replace_password env user token p q >>= λ _. after_password user.email user.id row) w).0
      ≡ ok tt
    → Present user.id
        ((replace_password env user token p q >>= λ _. after_password user.email user.id row)
          w).1.db
reset_for-Present env user token p q row w h done =
    let rest = λ (x : Unit {0}). after_password user.email user.id row in
    let first = bind-ok (replace_password env user token p q) rest w done in
    let w₁ = (replace_password env user token p q w).1 in
    subst (λ (r : Result (Unit {0}) × World). Present user.id r.1.db) (sym first.2)
      (Present-users user.id w₁.db (after_password user.email user.id row w₁).1.db
        ((after_password-Leaves user.email user.id row).apply w₁)
        (replace_password-Present user.id env user token p q w h))

-- The user of a token that was found is there.
pub find_one_by_token-Present :
    (token : String) (w : World) {l : LoadedUserToken} {user : User}
    → (find_one_by_token token w).0 ≡ ok l
    → l.user ≡ some user
    → Present user.id (find_one_by_token token w).1.db
unfolding find_one_by_token
find_one_by_token-Present token w {l} {user} found owner =
    elim (Option-cases (token_row token w.db)) [
      | inl missing ↦ absurd (ground arith)
      | inr (t, e) ↦
          let by_id : user_by_id t.user w.db ≡ some user = ground arith in
          let holds =
            find-holds (λ u. u.id == t.user && not (is_some u.deleted_at)) w.db.users user by_id in
          let same_id : t.user ≡ user.id = ground arith in
          let same_db : w.db ≡ (find_one_by_token token w).1.db = ground arith in
          subst (Present user.id) same_db
            (user, subst (λ n. user_by_id n w.db ≡ some user) same_id by_id)
    ]
