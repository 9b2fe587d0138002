-- ===== src/Requests/Rules.antt =====
-- What the validation pipe asks of the bodies: src/modules/auth/dto and src/modules/users/dto.
use nestjs_auth_backend.Base.{◌≡◌, true, ℕ, Option, none, some, String, List, [], ◌∷◌, All}
use nestjs_auth_backend.Permissions.{trim}
use nestjs_auth_backend.Entities.{AuthPasswordPolicy}
use nestjs_auth_backend.PasswordPolicy.{check_policy}
use nestjs_auth_backend.PasswordPolicy.Laws.{IsAccepted, check_policy-IsAccepted}
use nestjs_auth_backend.Requests.{login_email, user_email}

-- The decorators of class-validator and of src/common/decorators on a property.
pub data Check : Type 0 where
  is_not_empty is_string is_email is_number is_positive is_optional is_valid_password : Check
  max_length : ℕ → Check

-- A property with its checks and its `Transform`, if it has one.
pub record Property : Type 0 where
  pub name : String
  pub checks : List Check
  pub transform : Option (String → String)

abbrev pub Dto : Type 0
Dto = List Property

abbrev pub plain : String → List Check → Property
plain name checks = record { name = name; checks = checks; transform = none }

abbrev pub login_dto : Dto
login_dto =
    record { name = "email"; checks = is_not_empty ∷ is_email ∷ []; transform = some login_email }
    ∷ record { name = "password"; checks = is_not_empty ∷ []; transform = some trim }
    ∷ []

abbrev pub name_checks : List Check
name_checks = is_not_empty ∷ is_string ∷ max_length 20 ∷ []

abbrev pub password_property : String → Property
password_property name = record {
  name = name;
  checks = is_not_empty ∷ is_string ∷ is_valid_password ∷ [];
  transform = some trim;
}

abbrev pub positive_number : List Check
positive_number = is_not_empty ∷ is_number ∷ is_positive ∷ []

abbrev pub create_user_dto : Dto
create_user_dto =
    plain "name" name_checks
    ∷ plain "lastname" name_checks
    ∷ plain "documentTypeId" positive_number
    ∷ plain "document" name_checks
    ∷ record {
      name = "email";
      checks = is_not_empty ∷ is_string ∷ max_length 100 ∷ [];
      transform = some user_email;
    }
    ∷ password_property "password"
    ∷ []

abbrev pub register_dto : Dto
register_dto = create_user_dto

abbrev pub reset_password_dto : Dto
reset_password_dto = plain "email" (is_not_empty ∷ is_email ∷ []) ∷ []

abbrev pub reset_password_token_dto : Dto
reset_password_token_dto = password_property "password" ∷ password_property "password_confirm" ∷ []

abbrev pub re_auth_dto : Dto
re_auth_dto = plain "password" (is_optional ∷ []) ∷ []

abbrev pub change_role_dto : Dto
change_role_dto = plain "roleId" positive_number ∷ []

abbrev pub code_dto : Dto
code_dto = plain "code" (is_not_empty ∷ is_string ∷ []) ∷ []

abbrev pub two_factor_verify_dto : Dto
two_factor_verify_dto = plain "userId" positive_number ∷ code_dto

abbrev pub two_factor_enable_dto : Dto
two_factor_enable_dto = plain "twoFactorType" (is_not_empty ∷ []) ∷ []

-- `PartialType(OmitType(CreateUserDto, ['password']))`, with those two of NestJS.
abbrev pub update_user_dto : (Dto → Dto) → (List String → Dto → Dto) → Dto
update_user_dto partial omit = partial (omit ("password" ∷ []) create_user_dto)

-- The texts of a body, by property.
abbrev pub Texts : Type 0
Texts = String → Option String

-- `IsValidPassword` under the active policy; of the other checks nothing is used.
abbrev pub Holds : AuthPasswordPolicy → Check → Option String → Type 0
Holds p is_valid_password v = (s : String) × (v ≡ some s) × (check_policy s (some p) ≡ true)
Holds p _ v = Unit {0}

abbrev pub Passes : AuthPasswordPolicy → Texts → Property → Type 0
Passes p body x = All (λ c. Holds p c (body x.name)) x.checks

-- `pipe` gives the transformed body, or refuses it; class-validator runs every check.
module _ (p : AuthPasswordPolicy) (pipe : Dto → Texts → Option Texts)
    (runs : (dto : Dto) (body out : Texts) → pipe dto body ≡ some out → All (Passes p out) dto)
    (body out : Texts) where
  accepted :
      (v : Option String)
      → ((s : String) × (v ≡ some s) × (check_policy s (some p) ≡ true))
      → (s : String) × (v ≡ some s) × IsAccepted p s
  accepted v h = (h.0, h.1, (check_policy-IsAccepted h.0 p).0 h.2)

  -- The password of an accepted registration meets the policy.
  pub register_dto-IsAccepted :
      pipe register_dto body ≡ some out → (s : String) × (out "password" ≡ some s) × IsAccepted p s
  register_dto-IsAccepted h =
      accepted (out "password") (runs register_dto body out h).1.1.1.1.1.0.1.1.0

  -- The password of an accepted reset, and its confirmation, meet the policy.
  pub reset_password_token_dto-IsAccepted :
      pipe reset_password_token_dto body ≡ some out
      → ((s : String) × (out "password" ≡ some s) × IsAccepted p s)
        × ((s : String) × (out "password_confirm" ≡ some s) × IsAccepted p s)
  reset_password_token_dto-IsAccepted h =
      let all = runs reset_password_token_dto body out h in
      (accepted (out "password") all.0.1.1.0, accepted (out "password_confirm") all.1.0.1.1.0)
