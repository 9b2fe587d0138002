-- ===== src/PasswordPolicy.antt =====
-- The rules for passwords: src/modules/auth/password-policy/password-policy.service.ts and
-- src/common/validator/passwordPolicyConstraint.validator.ts.
pub mod Laws
use Prim.Native.Char.{Char, code}
use nestjs_auth_backend.Base.{
  ℕ, suc, ◌+◌, Bool, true, false, ◌&&◌, ◌||◌, not, Option, none, some, String, List, [], ◌∷◌, ltb,
  leb, ◌==◌, any, find, if◌then◌else◌,
}
use nestjs_auth_backend.Entities.{AuthPasswordPolicy}
use nestjs_auth_backend.World.{Db, Action, ◌>>=◌, pure, query, try_catch, direct}

-- The number of UTF-16 units of a character: `length` counts those.
abbrev pub units : ℕ → ℕ
units c = if leb 0x10000 c then 2 else 1

abbrev pub text_length : String → ℕ
text_length String.[] = 0
text_length (String.◌∷◌ c s) = units (code c) + text_length s

-- `/[...]/.test(s)`, the class as a test of a character's number.
abbrev pub has_char : (ℕ → Bool) → String → Bool
has_char p String.[] = false
has_char p (String.◌∷◌ c s) = p (code c) || has_char p s

abbrev pub is_upper : ℕ → Bool
is_upper c = leb b'A' c && leb c b'Z'

abbrev pub is_lower : ℕ → Bool
is_lower c = leb b'a' c && leb c b'z'

abbrev pub is_digit : ℕ → Bool
is_digit c = leb b'0' c && leb c b'9'

-- `[.,!@#$%^&*()_+\-=[\]{};':"\\|<>/?]`: the ASCII punctuation without the grave accent and the tilde.
abbrev pub is_special : ℕ → Bool
is_special c =
    (leb 33 c && leb c 47)
    || (leb 58 c && leb c 64)
    || (leb 91 c && leb c 95)
    || (leb 123 c && leb c 125)

-- `PasswordPolicyService.findOne`
unfoldable pub find_policy : Action (Option AuthPasswordPolicy)
find_policy = try_catch (query direct (λ d. find (λ p. p.is_active) d.password_policies))

-- `PasswordPolicyConstraint.validate` behind the lookup.
unfoldable pub check_policy : String → Option AuthPasswordPolicy → Bool
check_policy password none = true
check_policy password (some p) =
    if ltb (text_length password) p.min_length
    then false
    else if ltb p.max_length (text_length password)
    then false
    else if p.require_uppercase && not (has_char is_upper password)
    then false
    else if p.require_lowercase && not (has_char is_lower password)
    then false
    else if p.require_numbers && not (has_char is_digit password)
    then false
    else if p.require_special && not (has_char is_special password)
    then false
    else true

-- `PasswordPolicyConstraint.validate`
unfoldable pub validate_password : String → Action Bool
unfolding find_policy check_policy
validate_password password = do policy ← find_policy; pure (check_policy password policy)
