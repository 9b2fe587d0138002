-- ===== src/Tests/Surface.antt =====
-- Runs and witnesses of the mailer's options, the health check, the language of a request and the location of an address.
use nestjs_auth_backend.Base.{
  inl, inr, arith, ◌∷◌, Option, String, str_eq, false, ◌≡◌, refl, true, none, some, [],
  if◌then◌else◌,
}
use nestjs_auth_backend.Config.Mails.{
  ConfigReader, Value, text_value, number_value, boolean_value, mail_options,
}
use nestjs_auth_backend.Health.{Told, get_health_status, get_health_status-Told}
use nestjs_auth_backend.Language.{LanguageSettings, LanguageRequest, use_language}
use nestjs_auth_backend.Requests.Location.{
  get_ip_location, in_blocked_range, quad, get_ip_location-private,
}
use nestjs_auth_backend.Tests.Data.{faulty_world, store}

-- MAIL_PORT=465 and MAIL_SECURE=true, as Joi converts them; everything else is a text.
abbrev smtp : ConfigReader
smtp key =
    if str_eq key "MAIL_PORT"
    then some (number_value 465)
    else if str_eq key "MAIL_SECURE"
    then some (boolean_value true)
    else some (text_value key)

abbrev as_text : Option Value → String
as_text (some (text_value s)) = s
as_text _ = "undefined"

-- The secure transport that the environment asks for is not used.
smtp_insecure : (mail_options (λ v. v) as_text (λ path. path) smtp).transport.secure ≡ false
unfolding mail_options
smtp_insecure = refl

smtp_sender :
    (mail_options (λ v. v) as_text (λ path. path) smtp).sender
    ≡ "\"Soporte\u{3164}\"NAME_APP \" | No Reply\" <DEFAULT_REMITTER_MAIL>"
unfolding mail_options
smtp_sender = refl

abbrev enabled : LanguageSettings
enabled = record { i18n_enabled = some "true"; fallback_language = none }

abbrev spanish : LanguageRequest
spanish = record {
  query_lang = none;
  accept_language = some "es-CO,es";
  x_lang = none;
  x_custom_lang = none;
  language = none;
}

-- The header asks for Spanish, and the request gets English.
spanish_header : (use_language (λ r. true) enabled spanish).language ≡ some "en"
unfolding use_language
spanish_header = refl

get_health_status-Told_example :
    Told "api" "1" 5 enabled "en" true (get_health_status "api" "1" 5 enabled "en" faulty_world).0
    × ((get_health_status "api" "1" 5 enabled "en" faulty_world).1.db ≡ store)
get_health_status-Told_example = get_health_status-Told "api" "1" 5 enabled "en" faulty_world

-- A private address is not looked up, a public one is, and so is a link-local one of IPv6.
private_address : quad 172 20 "4.7" ≡ "172.20.4.7"
private_address = refl

public_address :
    get_ip_location (λ ip. true) (λ s. s) (λ url. none) "8.8.8.8"
    ≡ (none, "https://ip.guide/8.8.8.8" ∷ [])
unfolding get_ip_location in_blocked_range
public_address = refl

link_local_address :
    get_ip_location (λ ip. true) (λ s. s) (λ url. none) "fe80::1"
    ≡ (none, "https://ip.guide/fe80::1" ∷ [])
unfolding get_ip_location in_blocked_range
link_local_address = refl

get_ip_location-private_example :
    get_ip_location (λ ip. true) (λ s. s) (λ url. none) (quad 172 20 "4.7") ≡ (none, [])
get_ip_location-private_example =
    get_ip_location-private (λ ip. true) (λ s. s) (λ url. none) 172 20 "4.7"
      (inr (inr (inl (refl, omega arith, omega arith))))
