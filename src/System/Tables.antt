-- ===== src/System/Tables.antt =====
-- The services of users that write to one table each.
use nestjs_auth_backend.Base.{ℕ, zero, suc, String, Option, none, some, false, ◌∷◌}
use nestjs_auth_backend.Entities.{
  User, Role, UserAccountCredentials, UserSecurityRecoveryCodes, UserAccountOAuth, OAuthProvider,
}
use nestjs_auth_backend.World.{Db, Conn, Env}
use nestjs_auth_backend.World.Invariants.{Keeps, keeps_rules, Keeps-bind, Keeps-draw, Keeps-pure}
use nestjs_auth_backend.System.Stable.{Stable}
use nestjs_auth_backend.Users.Lookup.{
  find_one, find_one_or_first, find_user_by_email, find_one_by_email, get_user_secret,
}
use nestjs_auth_backend.Credentials.{create_credentials, ensure_credentials, update_credentials}
use nestjs_auth_backend.UserSessions.{ClientInfo, create_user_session}
use nestjs_auth_backend.Tokens.{
  update_token_is_used, find_one_by_token, create_token_email_verification,
  create_token_password_reset,
}
use nestjs_auth_backend.RecoveryCodes.{redeem_code, use_code, draw_codes, generate}
use nestjs_auth_backend.OAuth.{
  OAuthProfile, insert_oauth, create_oauth, get_user_with_provider, find_all_oauth_with_user,
  delete_oauth,
}
use nestjs_auth_backend.Roles.{find_role, create_role, get_name_role_or_create}
use nestjs_auth_backend.System.Services.{find_one_by_user-Keeps}

module _ (P : Db → Type 0) (s : Stable P) where
  pub find_one-Keeps : (id : ℕ) → Keeps P (find_one id)
  unfolding find_one
  find_one-Keeps id = search keeps_rules depth 30

  pub find_one_or_first-Keeps : (id : Option ℕ) → Keeps P (find_one_or_first id)
  unfolding find_one_or_first
  find_one_or_first-Keeps none = search keeps_rules depth 30
  find_one_or_first-Keeps (some n) = search (keeps_rules, find_one-Keeps) depth 30

  pub find_user_by_email-Keeps : (address : String) → Keeps P (find_user_by_email address)
  unfolding find_user_by_email
  find_user_by_email-Keeps address = search keeps_rules depth 30

  pub find_one_by_email-Keeps : (address : String) → Keeps P (find_one_by_email address)
  unfolding find_one_by_email
  find_one_by_email-Keeps address = search keeps_rules depth 30

  pub get_user_secret-Keeps : (id : ℕ) → Keeps P (get_user_secret id)
  unfolding get_user_secret
  get_user_secret-Keeps id = search keeps_rules depth 30

  pub create_credentials-Keeps :
      (env : Env) (repo : Conn) (user_id : ℕ) (password : String)
      → Keeps P (create_credentials env repo user_id password)
  unfolding create_credentials
  create_credentials-Keeps env repo user_id password = search (keeps_rules, s.credentials) depth 30

  ensure_credentials-Keeps :
      (env : Env) (repo : Conn) (address password : String) (found : Option UserAccountCredentials)
      → Keeps P (ensure_credentials env repo address password found)
  ensure_credentials-Keeps env repo address password none =
      search (keeps_rules, create_credentials-Keeps, find_user_by_email-Keeps) depth 30
  ensure_credentials-Keeps env repo address password (some x) = search keeps_rules depth 30

  pub update_credentials-Keeps :
      (env : Env) (repo : Conn) (address password confirm : String)
      → Keeps P (update_credentials env repo address password confirm)
  unfolding update_credentials
  update_credentials-Keeps env repo address password confirm =
      search (keeps_rules, ensure_credentials-Keeps, s.credentials) depth 30

  pub create_user_session-Keeps :
      (repo : Conn) (user_id : ℕ) (client : ClientInfo)
      → Keeps P (create_user_session repo user_id client)
  unfolding create_user_session
  create_user_session-Keeps repo user_id client =
      search (keeps_rules, find_one-Keeps, s.user_sessions) depth 30

  pub update_token_is_used-Keeps :
      (repo : Conn) (token : String) → Keeps P (update_token_is_used repo token)
  unfolding update_token_is_used
  update_token_is_used-Keeps repo token = search (keeps_rules, s.tokens_used) depth 30

  pub find_one_by_token-Keeps : (token : String) → Keeps P (find_one_by_token token)
  unfolding find_one_by_token
  find_one_by_token-Keeps token = search keeps_rules depth 30

  pub create_token_email_verification-Keeps :
      (env : Env) (repo : Conn) (user : User)
      → Keeps P (create_token_email_verification env repo user)
  unfolding create_token_email_verification
  create_token_email_verification-Keeps env repo user = search (keeps_rules, s.token_added) depth 30

  pub create_token_password_reset-Keeps :
      (env : Env) (address : String) → Keeps P (create_token_password_reset env address)
  unfolding create_token_password_reset
  create_token_password_reset-Keeps env address =
      search (keeps_rules, find_one_by_email-Keeps, s.token_added) depth 30

  redeem_code-Keeps : (found : Option UserSecurityRecoveryCodes) → Keeps P (redeem_code found)
  redeem_code-Keeps none = search keeps_rules depth 30
  redeem_code-Keeps (some x) = search (keeps_rules, s.recovery_codes) depth 30

  pub use_code-Keeps : (user_id : ℕ) (given : String) → Keeps P (use_code user_id given)
  unfolding use_code
  use_code-Keeps user_id given =
      search (keeps_rules, find_one-Keeps, find_one_by_user-Keeps P s, redeem_code-Keeps) depth 30

  draw_codes-Keeps : (env : Env) (security_id n : ℕ) → Keeps P (draw_codes env security_id n)
  draw_codes-Keeps env security_id zero = search keeps_rules depth 30
  draw_codes-Keeps env security_id (suc n) = Keeps-bind P (Keeps-draw P) (λ seed.
      Keeps-bind P (Keeps-draw P) (λ id. Keeps-bind P (draw_codes-Keeps env security_id n) (λ rest.
        Keeps-pure P (
          record { id = id; user_security = security_id; code = env.random_hex seed; used = false }
          ∷ rest))))

  pub generate-Keeps : (env : Env) (user_id : ℕ) → Keeps P (generate env user_id)
  unfolding generate
  generate-Keeps env user_id =
      search
        (
          keeps_rules,
          find_one-Keeps,
          find_one_by_user-Keeps P s,
          draw_codes-Keeps,
          s.recovery_codes,
        )
        depth 30

  insert_oauth-Keeps :
      (repo : Conn) (user_id : ℕ) (profile : OAuthProfile) (found : Option UserAccountOAuth)
      → Keeps P (insert_oauth repo user_id profile found)
  insert_oauth-Keeps repo user_id profile none = search (keeps_rules, s.oauths) depth 30
  insert_oauth-Keeps repo user_id profile (some x) = search keeps_rules depth 30

  pub create_oauth-Keeps :
      (repo : Conn) (user_id : ℕ) (profile : OAuthProfile)
      → Keeps P (create_oauth repo user_id profile)
  unfolding create_oauth
  create_oauth-Keeps repo user_id profile = search (keeps_rules, insert_oauth-Keeps) depth 30

  pub get_user_with_provider-Keeps :
      (provider_id : String) (provider : OAuthProvider)
      → Keeps P (get_user_with_provider provider_id provider)
  unfolding get_user_with_provider
  get_user_with_provider-Keeps provider_id provider = search keeps_rules depth 30

  pub find_all_oauth_with_user-Keeps : (user_id : ℕ) → Keeps P (find_all_oauth_with_user user_id)
  unfolding find_all_oauth_with_user
  find_all_oauth_with_user-Keeps user_id = search keeps_rules depth 30

  pub delete_oauth-Keeps :
      (user_id : ℕ) (provider : OAuthProvider) → Keeps P (delete_oauth user_id provider)
  unfolding delete_oauth
  delete_oauth-Keeps user_id provider = search (keeps_rules, s.oauths) depth 30

  pub find_role-Keeps : (id : ℕ) → Keeps P (find_role id)
  unfolding find_role
  find_role-Keeps id = search keeps_rules depth 30

  create_role-Keeps :
      (env : Env) (name : String) (found : Option Role) → Keeps P (create_role env name found)
  create_role-Keeps env name none = search (keeps_rules, s.roles) depth 30
  create_role-Keeps env name (some x) = search keeps_rules depth 30

  pub get_name_role_or_create-Keeps :
      (env : Env) (name : String) → Keeps P (get_name_role_or_create env name)
  unfolding get_name_role_or_create
  get_name_role_or_create-Keeps env name = search (keeps_rules, create_role-Keeps) depth 30
