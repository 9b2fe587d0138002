-- ===== src/Language/Laws.antt =====
-- Which language a request gets (the middleware, the resolver and the filter of Language).
use nestjs_auth_backend.Base.{
  ◌≡◌, refl, inl, inr, Bool, false, Bool-cases, some, String, if◌then◌else◌,
}
use nestjs_auth_backend.Permissions.{is_empty}
use nestjs_auth_backend.Requests.{or_empty, or_text}
use nestjs_auth_backend.Language.{
  LanguageSettings, LanguageRequest, is_enabled, fallback, is_supported, use_language, resolve,
  filter_language, default_language,
}

-- The documented order without the header: the query, the configured language, the default.
abbrev pub asked_language : LanguageSettings → LanguageRequest → String
asked_language s r =
    let lang = or_text (or_empty r.query_lang) (fallback s) in
    if is_supported lang then lang else default_language

or_text-nonempty : (a b : String) → is_empty b ≡ false → is_empty (or_text a b) ≡ false
or_text-nonempty a b h = elim (Bool-cases (is_empty a)) [ inl e ↦ rw e h | inr e ↦ rw e e ]

fallback-nonempty : (s : LanguageSettings) → is_empty (fallback s) ≡ false
fallback-nonempty s = or_text-nonempty (or_empty s.fallback_language) default_language refl

module _ (accepts : LanguageRequest → Bool) (s : LanguageSettings) (r : LanguageRequest) where
  pub disabled_language :
      is_enabled s ≡ false
      → ((resolve s (use_language accepts s r)).0 ≡ some (fallback s))
        × ((resolve s (use_language accepts s r)).1.accept_language ≡ some (fallback s))
        × (filter_language s (resolve s (use_language accepts s r)).1 ≡ fallback s)
        × (filter_language s (use_language accepts s (resolve s r).1) ≡ fallback s)
  unfolding use_language resolve filter_language
  disabled_language off =
      rw (off) (refl, refl, rw (fallback-nonempty s) refl, rw (fallback-nonempty s) refl)
