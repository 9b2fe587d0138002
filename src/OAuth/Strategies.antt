-- ===== src/OAuth/Strategies.antt =====
-- The profiles that src/modules/auth/strategies makes of what Passport gives.
use nestjs_auth_backend.Base.{Bool, true, Option, none, some, String, List, [], ◌∷◌}
use nestjs_auth_backend.Entities.{OAuthProvider, google, facebook, github}
use nestjs_auth_backend.OAuth.{OAuthProfile}

-- Passport's normalised profile; a property that is missing is an empty list or `none`.
pub record PassportEmail : Type 0 where
  pub value : String
  pub verified : Option Bool

pub record PassportName : Type 0 where
  pub given_name : String
  pub family_name : Option String

pub record PassportProfile : Type 0 where
  pub id : String
  pub emails : List PassportEmail
  pub photos : List String
  pub name : Option PassportName
  pub username : String

-- `verified ?? true`
abbrev or_true : Option Bool → Bool
or_true none = true
or_true (some b) = b

-- What the three strategies share: the first address and the first picture; without one, reading it
-- is a `TypeError`.
abbrev pub profile_with :
    OAuthProvider → String → Option String → PassportProfile → Option OAuthProfile
profile_with provider name lastname p = elim p.emails [
  | [] ↦ none
  | email ∷ more ↦ elim p.photos [
    | [] ↦ none
    | photo ∷ rest ↦ some (record {
      provider = provider;
      provider_id = p.id;
      email = email.value;
      name = name;
      lastname = lastname;
      avatar = some photo;
      is_active = or_true email.verified;
    })
  ]
]

-- `GoogleStrategy.validate`
abbrev pub validate_google : PassportProfile → Option OAuthProfile
validate_google p = elim p.name [
  | none ↦ none
  | some n ↦ profile_with google n.given_name n.family_name p
]

-- `FacebookStrategy.validate`
abbrev pub validate_facebook : PassportProfile → Option OAuthProfile
validate_facebook p = elim p.name [
  | none ↦ none
  | some n ↦ profile_with facebook n.given_name n.family_name p
]

-- `GithubStrategy.validate`
abbrev pub validate_github : PassportProfile → Option OAuthProfile
validate_github p = profile_with github p.username (some "") p
