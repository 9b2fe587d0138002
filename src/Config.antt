-- ===== src/Config.antt =====
-- The environment variables: src/config/validation.schema.ts, src/config/frontend.config.ts.
-- Config/Mails is src/config/mails.config.ts.
pub mod Defaults
pub mod Mails
use nestjs_auth_backend.Base.{
  ℕ, Bool, Option, none, some, String, List, [], ◌∷◌, ◌++◌, str_eq, when_some,
}
use nestjs_auth_backend.Requests.{or_empty, or_text}
use nestjs_auth_backend.Language.{supported_languages, default_language}

-- What a Joi schema asks of a value.
pub data Kind : Type 0 where
  text number boolean uri email : Kind
  text_min : ℕ → Kind
  one_of : List String → Kind

-- What it asks of a missing variable; a default is written as it stands in the environment.
pub data Presence : Type 0 where
  required : Presence
  default_to : String → Presence

pub data Rule : Type 0 where
  rule : String → Kind → Presence → Rule

abbrev pub app_rules : List Rule
app_rules =
    rule "APP_NAME" text (default_to "NestAuth")
    ∷ rule "APP_PORT" number (default_to "8000")
    ∷ rule "NODE_ENV" (one_of ("development" ∷ "production" ∷ [])) (default_to "development")
    ∷ rule "URL_FRONTEND" uri required
    ∷ []

abbrev pub database_rules : List Rule
database_rules =
    rule "DB_TYPE" (one_of ("postgres" ∷ [])) (default_to "postgres")
    ∷ rule "DB_HOST" text required
    ∷ rule "DB_PORT" number (default_to "5432")
    ∷ rule "DB_USERNAME" text required
    ∷ rule "DB_PASSWORD" text required
    ∷ rule "DB_DATABASE" text required
    ∷ rule "DB_SSL" boolean (default_to "false")
    ∷ []

abbrev pub language_rules : List Rule
language_rules =
    rule "I18N_FALLBACK_LANGUAGE" (one_of supported_languages) (default_to default_language) ∷ []

abbrev pub jwt_rules : List Rule
jwt_rules =
    rule "JWT_SECRET" (text_min 16) required
    ∷ rule "JWT_REFRESH_SECRET" (text_min 16) required
    ∷ rule "JWT_ACCESS_EXPIRATION" text (default_to "15m")
    ∷ rule "JWT_REFRESH_EXPIRATION" text (default_to "2d")
    ∷ []

abbrev pub mail_rules : List Rule
mail_rules =
    rule "MAIL_HOST" text required
    ∷ rule "MAIL_PORT" number required
    ∷ rule "MAIL_SECURE" boolean required
    ∷ rule "MAIL_USER" text required
    ∷ rule "MAIL_PASSWORD" text required
    ∷ rule "DEFAULT_REMITTER_MAIL" email required
    ∷ []

abbrev pub oauth_rules : List Rule
oauth_rules =
    rule "OAUTH_STATE_SECRET" text required
    ∷ rule "GOOGLE_CLIENT_ID" text required
    ∷ rule "GOOGLE_CLIENT_SECRET" text required
    ∷ rule "GOOGLE_CALLBACK_URL" uri required
    ∷ rule "FACEBOOK_APP_ID" text required
    ∷ rule "FACEBOOK_APP_SECRET" text required
    ∷ rule "FACEBOOK_CALLBACK_URL" uri required
    ∷ rule "GITHUB_CLIENT_ID" text required
    ∷ rule "GITHUB_CLIENT_SECRET" text required
    ∷ rule "GITHUB_CALLBACK_URL" uri required
    ∷ []

abbrev pub role_rules : List Rule
role_rules =
    rule "ROL_USER_DEFAULT" text (default_to "user")
    ∷ rule "ROL_PERMISSION_DEFAULT" text (default_to "users:update:id, users:delete:id")
    ∷ []

abbrev pub frontend_rules : List Rule
frontend_rules =
    rule "FRONTEND_LOGIN_PATH" text (default_to "/auth/login")
    ∷ rule "FRONTEND_DASHBOARD_PATH" text (default_to "/dashboard")
    ∷ rule "FRONTEND_CHANGE_PASSWORD_PATH" text (default_to "/change-password")
    ∷ rule "FRONTEND_EMAIL_ROLLBACK_PATH" text (default_to "/email-change-request/rollback")
    ∷ rule "FRONTEND_AUTH_CALLBACK_PATH" text (default_to "/auth/callback")
    ∷ []

-- `validationSchema`
abbrev pub validation_rules : List Rule
validation_rules =
    app_rules
    ++ (database_rules
        ++ (language_rules
            ++ (jwt_rules ++ (mail_rules ++ (oauth_rules ++ (role_rules ++ (frontend_rules)))))))

-- The variables that stand together or not at all.
abbrev pub all_or_none : List (List String)
all_or_none =
    ("MAIL_HOST" ∷ "MAIL_PORT" ∷ "MAIL_SECURE" ∷ "MAIL_USER" ∷ "MAIL_PASSWORD"
      ∷ "DEFAULT_REMITTER_MAIL" ∷ [])
    ∷ ("GOOGLE_CLIENT_ID" ∷ "GOOGLE_CLIENT_SECRET" ∷ "GOOGLE_CALLBACK_URL" ∷ [])
    ∷ ("FACEBOOK_APP_ID" ∷ "FACEBOOK_APP_SECRET" ∷ "FACEBOOK_CALLBACK_URL" ∷ [])
    ∷ ("GITHUB_CLIENT_ID" ∷ "GITHUB_CLIENT_SECRET" ∷ "GITHUB_CALLBACK_URL" ∷ [])
    ∷ []

-- `process.env`
abbrev pub Environment : Type 0
Environment = String → Option String

pub record FrontendConfig : Type 0 where
  pub url : Option String
  pub login : String
  pub dashboard : String
  pub change_password : String
  pub email_rollback : String
  pub auth_callback : String

-- The configuration `frontend`.
unfoldable pub frontend_config : Environment → FrontendConfig
frontend_config e = record {
  url = e "URL_FRONTEND";
  login = or_text (or_empty (e "FRONTEND_LOGIN_PATH")) "/auth/login";
  dashboard = or_text (or_empty (e "FRONTEND_DASHBOARD_PATH")) "/dashboard";
  change_password =
      or_text (or_empty (e "FRONTEND_CHANGE_PASSWORD_PATH")) "/profile/change-password";
  email_rollback =
      or_text (or_empty (e "FRONTEND_EMAIL_ROLLBACK_PATH")) "/email-change-request/rollback/";
  auth_callback = or_text (or_empty (e "FRONTEND_AUTH_CALLBACK_PATH")) "/auth/callback";
}
