-- ===== src/PasswordPolicy/Laws.antt =====
-- `PasswordPolicyConstraint.validate` (src/common/validator/passwordPolicyConstraint.validator.ts)
-- against the rules that the policy's columns stand for.
use Prim.Native.Char.{code}
use nestjs_auth_backend.Base.{
  ℕ, ◌≤◌, ◌≡◌, ◌↔◌, ◌⊎◌, inl, inr, refl, Bool, true, false, ◌&&◌, not, String, some, arith,
  Bool-cases,
}
use nestjs_auth_backend.Entities.{AuthPasswordPolicy}
use nestjs_auth_backend.PasswordPolicy.{
  text_length, has_char, is_upper, is_lower, is_digit, is_special, check_policy,
}

-- A character of the text is of the class.
abbrev pub Occurs : (ℕ → Bool) → String → Type 0
Occurs p String.[] = ⊥
Occurs p (String.◌∷◌ c s) = (p (code c) ≡ true) ⊎ Occurs p s

-- What a rule demands where it is on.
abbrev pub Demands : Bool → Type 0 → Type 0
Demands true A = A
Demands false A = Unit

abbrev pub IsAccepted : AuthPasswordPolicy → String → Type 0
IsAccepted p password =
    (p.min_length ≤ text_length password)
    × (text_length password ≤ p.max_length)
    × Demands p.require_uppercase (Occurs is_upper password)
    × Demands p.require_lowercase (Occurs is_lower password)
    × Demands p.require_numbers (Occurs is_digit password)
    × Demands p.require_special (Occurs is_special password)

has_char_iff : (p : ℕ → Bool) (s : String) → (has_char p s ≡ true) ↔ Occurs p s
has_char_iff p String.[] = (λ h. cc, λ h. absurd h)
has_char_iff p (String.◌∷◌ c s) = elim (Bool-cases (p (code c))) [
  | inl e ↦ (λ h. inl e, λ h. rw e refl)
  | inr e ↦
      (λ h. inr ((has_char_iff p s).0 (rw e at h)), λ h. rw e ((has_char_iff p s).1 (later e h)))
]
  where
    later : p (code c) ≡ false → Occurs p (String.◌∷◌ c s) → Occurs p s
    later e (inl h) = absurd (cc)
    later e (inr h) = h

-- One rule of the policy: the early return, and what it demands.
demands_iff :
    (rule : Bool) (p : ℕ → Bool) (s : String)
    → ((rule && not (has_char p s)) ≡ false) ↔ Demands rule (Occurs p s)
demands_iff false p s = (λ h. tt, λ h. refl)
demands_iff true p s = elim (Bool-cases (has_char p s)) [
  | inl e ↦ (λ h. (has_char_iff p s).0 e, λ h. rw e refl)
  | inr e ↦ (
    λ h. absurd (let q : true ≡ false = rw e at h in cc),
    λ h. absurd (let q = (has_char_iff p s).1 h in cc),
  )
]

-- `PasswordPolicyConstraint` accepts a password under a stored policy exactly when its length is
-- within the policy's bounds and it has a capital letter, a small letter, a digit and a special
-- character where the policy asks for them.
pub check_policy-IsAccepted :
    (password : String) (p : AuthPasswordPolicy)
    → (check_policy password (some p) ≡ true) ↔ IsAccepted p password
unfolding check_policy
check_policy-IsAccepted password p = ground (
  arith,
  demands_iff p.require_uppercase is_upper password,
  demands_iff p.require_lowercase is_lower password,
  demands_iff p.require_numbers is_digit password,
  demands_iff p.require_special is_special password,
)
