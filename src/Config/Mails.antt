-- ===== src/Config/Mails.antt =====
-- The options of the mailer: src/config/mails.config.ts.
use Prim.Native.String.{◌++◌ as text_append}
use nestjs_auth_backend.Base.{ℕ, ◌≡◌, refl, Bool, true, false, Option, some, String, All, str_eq}
use nestjs_auth_backend.Config.{Rule, rule, Kind, number, boolean, mail_rules}

-- What `configService.get` gives for a variable: Joi converts numbers and booleans.
pub data Value : Type 0 where
  text_value : String → Value
  number_value : ℕ → Value
  boolean_value : Bool → Value

abbrev pub ConfigReader : Type 0
ConfigReader = String → Option Value

pub record Transport (Port : Type 0) : Type 0 where
  pub service : Option Value
  pub host : Option Value
  pub port : Port
  pub secure : Bool
  pub auth_user : Option Value
  pub auth_pass : Option Value
  pub reject_unauthorized : Bool

pub record MailOptions (Port : Type 0) : Type 0 where
  pub transport : Transport Port
  pub sender : String
  pub templates : String
  pub strict : Bool

-- `v === s`, for a text `s`
abbrev pub is_text : String → Option Value → Bool
is_text s (some (text_value t)) = str_eq t s
is_text s _ = false

-- `mailsConfig.useFactory`, with `Number(v)`, a value in a template text, and `join(__dirname, p)`.
unfoldable pub mail_options :
    {Port : Type 0}
    → (Option Value → Port)
    → (Option Value → String)
    → (String → String)
    → ConfigReader
    → MailOptions Port
mail_options number_of in_text join get = record {
  transport = record {
    service = get "MAIL_SERVICE";
    host = get "MAIL_HOST";
    port = number_of (get "MAIL_PORT");
    secure = is_text "true" (get "MAIL_SECURE");
    auth_user = get "MAIL_USER";
    auth_pass = get "MAIL_PASSWORD";
    reject_unauthorized = false;
  };
  sender = text_append "\"Soporte\u{3164}\"" (
      text_append (in_text (get "NAME_APP")) (
        text_append " \" | No Reply\" <"
          (text_append (in_text (get "DEFAULT_REMITTER_MAIL")) ">")));
  templates = join "../mails/templates";
  strict = true;
}

-- A value as a rule leaves it: a number or a boolean where the rule asks for one, else the text.
abbrev pub HasKind : Kind → Option Value → Type 0
HasKind number v = (n : ℕ) × (v ≡ some (number_value n))
HasKind boolean v = (b : Bool) × (v ≡ some (boolean_value b))
HasKind _ v = (s : String) × (v ≡ some (text_value s))

abbrev pub Reads : ConfigReader → Rule → Type 0
Reads get (rule key kind presence) = HasKind kind (get key)

-- Where the variables are read as the schema converts them, `secure` is false, whatever
-- MAIL_SECURE says.
pub mail_options-secure :
    {Port : Type 0} (number_of : Option Value → Port) (in_text : Option Value → String)
    (join : String → String) (get : ConfigReader)
    → All (Reads get) mail_rules
    → (mail_options number_of in_text join get).transport.secure ≡ false
unfolding mail_options
mail_options-secure number_of in_text join get reads = rw reads.1.1.0.1 refl
