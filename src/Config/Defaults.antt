-- ===== src/Config/Defaults.antt =====
-- Which defaults the paths of the frontend get (src/config/validation.schema.ts and
-- src/config/frontend.config.ts).
use nestjs_auth_backend.Base.{
  ℕ, zero, suc, subst, arith, ◌≡◌, refl, none, some, Option, String, List, [], ◌∷◌, All,
}
use nestjs_auth_backend.Config.{
  Environment, Rule, rule, Kind, text, number, boolean, uri, Presence, required, default_to,
  validation_rules, all_or_none, frontend_config,
}

-- Numbers and booleans are converted, every other value stays as it is.
abbrev pub Converted : Kind → String → String → Type 0
Converted number given out = Unit {0}
Converted boolean given out = Unit {0}
Converted _ given out = out ≡ given

-- What a value gives, and a missing one: `required` refuses it, a default takes its place.
abbrev pub Supplied : Kind → Presence → Option String → Option String → Type 0
Supplied kind presence (some given) out = (v : String) × (out ≡ some v) × Converted kind given v
Supplied kind required none out = ⊥
Supplied kind (default_to v) none out = out ≡ some v

-- What Joi documents of a rule, where the environment is accepted.
abbrev pub Applied : Environment → Environment → Rule → Type 0
Applied e e' (rule key kind presence) = Supplied kind presence (e key) (e' key)

abbrev pub Validate : Type 0
Validate = List Rule → List (List String) → Environment → Option Environment

-- The rule at a place of a list.
abbrev rule_at : ℕ → List Rule → Option Rule
rule_at n [] = none
rule_at zero (x ∷ xs) = some x
rule_at (suc n) (x ∷ xs) = rule_at n xs

All-rule_at :
    (P : Rule → Type 0) (n : ℕ) (rules : List Rule) (r : Rule)
    → rule_at n rules ≡ some r
    → All P rules
    → P r
All-rule_at P n [] r e h = absurd (cc)
All-rule_at P zero (x ∷ xs) r e h = let same : x ≡ r = ground arith in subst P same h.0
All-rule_at P (suc n) (x ∷ xs) r e h = All-rule_at P n xs r e h.1

missing :
    (kind : Kind) (v : String) (o out : Option String)
    → o ≡ none
    → Supplied kind (default_to v) o out
    → out ≡ some v
missing kind v none out e h = h
missing kind v (some x) out e h = absurd (cc)

given : (o out : Option String) → Supplied uri required o out → out ≡ o
given (some x) out h = rw (h.1, h.2) refl
given none out h = absurd h

-- `validate` is Joi's, with the values as texts.
module _ (validate : Validate)
    (applies : (rules : List Rule) (groups : List (List String)) (e e' : Environment)
      → validate rules groups e ≡ some e'
      → All (Applied e e') rules) where
  pub frontend_defaults :
      (e e' : Environment)
      → validate validation_rules all_or_none e ≡ some e'
      → e "FRONTEND_CHANGE_PASSWORD_PATH" ≡ none
      → e "FRONTEND_EMAIL_ROLLBACK_PATH" ≡ none
      → ((frontend_config e').change_password ≡ "/change-password")
        × ((frontend_config e').email_rollback ≡ "/email-change-request/rollback")
        × ((frontend_config e').url ≡ e "URL_FRONTEND")
  unfolding frontend_config
  frontend_defaults e e' accepted no_path no_rollback =
      let h = applies validation_rules all_or_none e e' accepted in
      let path =
        All-rule_at (Applied e e') 36 validation_rules
          (rule "FRONTEND_CHANGE_PASSWORD_PATH" text (default_to "/change-password")) refl h in
      let rollback =
        All-rule_at (Applied e e') 37 validation_rules
          (rule "FRONTEND_EMAIL_ROLLBACK_PATH" text (default_to "/email-change-request/rollback"))
          refl h in
      (
        rw (missing text "/change-password" _ _ no_path path) refl,
        rw (missing text "/email-change-request/rollback" _ _ no_rollback rollback) refl,
        given _ _ (
            All-rule_at (Applied e e') 3 validation_rules (rule "URL_FRONTEND" uri required) refl
              h),
      )
