-- ===== src/Language.antt =====
-- The language of a request: src/common/constants/i18n.constants.ts,
-- src/i18n/middlewares/i18n.middleware.ts, src/i18n/resolver/laguage.resolver.ts and
-- src/common/filters/validation.filter.ts.
pub mod Laws
use nestjs_auth_backend.Base.{
  Bool, ◌&&◌, not, Option, none, some, String, List, [], ◌∷◌, map, any, str_eq, when_some,
  if◌then◌else◌,
}
use mathlib.Core.Option
use Prim.Native.String.{◌++◌ as text_append}
use nestjs_auth_backend.Permissions.{is_empty, split_code}
use nestjs_auth_backend.Requests.{or_empty, or_text, head_text}

abbrev pub supported_languages : List String
supported_languages = "es" ∷ "en" ∷ []

abbrev pub default_language : String
default_language = "en"

-- `I18N_ENABLED` and `I18N_FALLBACK_LANGUAGE` of the configuration.
pub record LanguageSettings : Type 0 where
  pub i18n_enabled : Option String
  pub fallback_language : Option String

-- What is read of a request: `query.lang` where it is a single text, the headers, and
-- `req['language']`.
pub record LanguageRequest : Type 0 where
  pub query_lang : Option String
  pub accept_language : Option String
  pub x_lang : Option String
  pub x_custom_lang : Option String
  pub language : Option String

abbrev pub is_enabled : LanguageSettings → Bool
is_enabled s = when_some s.i18n_enabled (λ v. str_eq v "true")

-- `configService.get('I18N_FALLBACK_LANGUAGE') || DEFAULT_LANGUAGE`
abbrev pub fallback : LanguageSettings → String
fallback s = or_text (or_empty s.fallback_language) default_language

-- `SUPPORTED_LANGUAGES.includes(lang)`
abbrev pub is_supported : String → Bool
is_supported lang = any (λ l. str_eq l lang) supported_languages

-- `headers['accept-language'].split(',')[0].split('-')[0]`
abbrev pub header_lang : LanguageRequest → String
header_lang r =
    head_text (split_code b'-' (head_text (split_code b',' (or_empty r.accept_language))))

-- `I18nMiddleware.use`; `accepts` is express's `req.acceptsLanguages(SUPPORTED_LANGUAGES)`.
unfoldable pub use_language :
    (LanguageRequest → Bool) → LanguageSettings → LanguageRequest → LanguageRequest
use_language accepts s r =
    let lang = or_text (or_empty r.query_lang) (fallback s) in
    let with_header =
      if is_empty lang && not (is_empty (or_empty r.accept_language)) && accepts r
      then header_lang r
      else lang in
    let checked = if is_supported with_header then with_header else default_language in
    record r { language = some (if is_enabled s then checked else fallback s) }

-- `LanguageResolver.resolve`: the language, if this resolver decides on it, and the request with
-- the headers that it sets.
unfoldable pub resolve : LanguageSettings → LanguageRequest → Option String × LanguageRequest
resolve s r =
    if not (is_enabled s)
    then (
      some (fallback s),
      record r {
        accept_language = some (fallback s);
        x_lang = some (fallback s);
        x_custom_lang = some (fallback s);
      },
    )
    else (none, r)

-- The language that `ValidationFilter.catch` translates into.
unfoldable pub filter_language : LanguageSettings → LanguageRequest → String
filter_language s r =
    or_text (or_empty r.language)
      (or_text (or_empty r.x_custom_lang) (or_text (or_empty r.accept_language) (fallback s)))

-- A failed property with the keys of its messages; the keys hold their arguments as JSON behind
-- a `|`.
pub record ValidationError (A : Type 0) : Type 0 where
  pub field : String
  pub errors : List String
  pub params : A

pub record TranslatedError (B : Type 0) : Type 0 where
  pub property : String
  pub errors : List B

abbrev pub second_text : List String → String
second_text [] = ""
second_text (a ∷ rest) = head_text rest

-- The elements, if none of them threw.
abbrev pub all_some : {B : Type 0} → List (Option B) → Option (List B)
all_some [] = some []
all_some (none ∷ rest) = none
all_some (some b ∷ rest) = Option.map (λ bs. b ∷ bs) (all_some rest)

-- `i18n.t`, `JSON.parse`, which may throw, and `{}` are parameters.
module _ {A B : Type 0} (t : String → String → A → B) (parse : String → Option A) (empty : A)
    (lang : String) where
  -- `args ? JSON.parse(args) : {}`, and the text of the key with these arguments.
  abbrev translate_with : String → String → Option B
  translate_with key args =
      Option.map (t (text_append "dto." key) lang)
        (if is_empty args then some empty else parse args)

  abbrev pub translate_key : A → String → Option B
  translate_key params key =
      let parts = split_code b'|' key in
      if str_eq key "forbiddenProperty"
      then some (t "dto.forbiddenProperty" lang params)
      else translate_with (head_text parts) (second_text parts)

  abbrev pub translate_error : ValidationError A → Option (TranslatedError B)
  translate_error e =
      Option.map (λ texts. record { property = e.field; errors = texts })
        (all_some (map (translate_key e.params) e.errors))

  -- `translateErrors`; `none` where `JSON.parse` throws.
  unfoldable pub translate_errors : List (ValidationError A) → Option (List (TranslatedError B))
  translate_errors errors = all_some (map translate_error errors)
