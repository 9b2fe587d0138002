-- ===== src/Base/Rows.antt =====
-- Rows of a table in insertion order: what `find`, `findOne`, `update`, `save` and `delete` do.
use Prim.Native.Nat.{ℕ, suc}
use mathlib.Core.Path.{◌≡◌, refl, subst}
use mathlib.Core.Logic.{inl, inr}
use mathlib.Core.Bool.{Bool, true, false, ◌&&◌, ◌||◌}
use mathlib.Core.Option.{Option, none, some}
use mathlib.Core.List.{List, [], ◌∷◌, ◌++◌}
use native.Mathlib.Omega.{arith}
use nestjs_auth_backend.Base.Tests.{if◌then◌else◌, Bool-cases}

module _ {ℓ} {A : Type ℓ} where
  abbrev pub length : List A → ℕ
  length [] = 0
  length (x ∷ xs) = suc (length xs)

  -- The first row that passes the test.
  abbrev pub find : (A → Bool) → List A → Option A
  find p [] = none
  find p (x ∷ xs) = if p x then some x else find p xs

  -- Every row that passes the test.
  abbrev pub select : (A → Bool) → List A → List A
  select p [] = []
  select p (x ∷ xs) = if p x then x ∷ select p xs else select p xs

  -- Rewrites every row that passes the test.
  abbrev pub update_where : (A → Bool) → (A → A) → List A → List A
  update_where p f [] = []
  update_where p f (x ∷ xs) = (if p x then f x else x) ∷ update_where p f xs

  abbrev pub delete_where : (A → Bool) → List A → List A
  delete_where p [] = []
  delete_where p (x ∷ xs) = if p x then delete_where p xs else x ∷ delete_where p xs

  abbrev pub any : (A → Bool) → List A → Bool
  any p [] = false
  any p (x ∷ xs) = p x || any p xs

  abbrev pub all : (A → Bool) → List A → Bool
  all p [] = true
  all p (x ∷ xs) = p x && all p xs

  -- A new row goes to the end.
  abbrev pub insert_row : A → List A → List A
  insert_row a xs = xs ++ a ∷ []

  -- What holds of every row.
  abbrev pub All {κ} : (A → Type κ) → List A → Type κ
  All P [] = Unit
  All P (x ∷ xs) = P x × All P xs

  pub find-holds : (p : A → Bool) (xs : List A) (a : A) → find p xs ≡ some a → p a ≡ true
  find-holds p [] a h = cc
  find-holds p (x ∷ xs) a h = elim (Bool-cases (p x)) [
    | inl e ↦ ground (arith)
    | inr e ↦ find-holds p xs a (ground arith)
  ]

  pub find-All {κ} :
      (P : A → Type κ) (p : A → Bool) (xs : List A) (a : A) → All P xs → find p xs ≡ some a → P a
  find-All P p [] a every h = cc
  find-All P p (x ∷ xs) a every h = elim (Bool-cases (p x)) [
    | inl e ↦ let q : x ≡ a = ground arith in subst P q every.0
    | inr e ↦ find-All P p xs a every.1 (ground arith)
  ]

  pub All-append {κ} : (P : A → Type κ) (xs ys : List A) → All P xs → All P ys → All P (xs ++ ys)
  All-append P [] ys h k = k
  All-append P (x ∷ xs) ys h k = (h.0, All-append P xs ys h.1 k)

  pub All-insert_row {κ} :
      (P : A → Type κ) (x : A) (xs : List A) → P x → All P xs → All P (insert_row x xs)
  All-insert_row P x xs h k = All-append P xs (x ∷ []) k (h, tt)

  pub All-update_where {κ} :
      (P : A → Type κ) (p : A → Bool) (f : A → A) (xs : List A)
      → ((x : A) → P x → P (f x))
      → All P xs
      → All P (update_where p f xs)
  All-update_where P p f [] keep h = tt
  All-update_where P p f (x ∷ xs) keep h = elim (Bool-cases (p x)) [
    | inl e ↦ rw e (keep x h.0, All-update_where P p f xs keep h.1)
    | inr e ↦ rw e (h.0, All-update_where P p f xs keep h.1)
  ]

  -- After `update_where p f` every row has `Q`, if `f` gives it to a chosen row and the others have it.
  pub All-update_where_of {κ} :
      (Q : A → Type κ) (p : A → Bool) (f : A → A) (xs : List A)
      → ((x : A) → p x ≡ true → Q (f x))
      → ((x : A) → p x ≡ false → Q x)
      → All Q (update_where p f xs)
  All-update_where_of Q p f [] hit miss = tt
  All-update_where_of Q p f (x ∷ xs) hit miss = elim (Bool-cases (p x)) [
    | inl e ↦ rw e (hit x e, All-update_where_of Q p f xs hit miss)
    | inr e ↦ rw e (miss x e, All-update_where_of Q p f xs hit miss)
  ]

  pub All-map {κ ι} :
      (P : A → Type κ) (Q : A → Type ι) (xs : List A) → ((x : A) → P x → Q x) → All P xs → All Q xs
  All-map P Q [] f h = tt
  All-map P Q (x ∷ xs) f h = (f x h.0, All-map P Q xs f h.1)

  -- Every chosen row is among those that `select` gives.
  pub any-select :
      (p : A → Bool) (r : A → A → Bool) (xs : List A)
      → ((x : A) → r x x ≡ true)
      → All (λ x. p x ≡ true → any (λ y. r y x) (select p xs) ≡ true) xs
  any-select p r [] same = tt
  any-select p r (x ∷ xs) same = elim (Bool-cases (p x)) [
    | inl e ↦
        let chosen : x ∷ select p xs ≡ select p (x ∷ xs) = rw e in
        subst (Listed (x ∷ xs)) chosen (
          λ h. rw (same x),
          All-map _ _ xs (λ y k h. or_true (r x y) (k h)) (any-select p r xs same),
        )
    | inr e ↦
        let dropped : select p xs ≡ select p (x ∷ xs) = rw e in
        subst (Listed (x ∷ xs)) dropped (λ h. absurd (cc), any-select p r xs same)
  ]
    where
      or_true : (a : Bool) {b : Bool} → b ≡ true → (a || b) ≡ true
      or_true true h = refl
      or_true false h = h

      Listed : List A → List A → Type 0
      Listed ys s = All (λ y. p y ≡ true → any (λ z. r z y) s ≡ true) ys

  pub select-nil-All : (p : A → Bool) (xs : List A) → select p xs ≡ [] → All (λ x. p x ≡ false) xs
  select-nil-All p [] h = tt
  select-nil-All p (x ∷ xs) h = elim (Bool-cases (p x)) [
    | inl e ↦ absurd (let q : x ∷ select p xs ≡ [] = rw e at h in cc)
    | inr e ↦ (e, select-nil-All p xs (rw e at h))
  ]

  -- `All-update_where_of` where more is known of the rows.
  pub All-update_where_from {κ ι} :
      (P : A → Type κ) (Q : A → Type ι) (p : A → Bool) (f : A → A) (xs : List A)
      → ((x : A) → p x ≡ true → Q (f x))
      → ((x : A) → P x → p x ≡ false → Q x)
      → All P xs
      → All Q (update_where p f xs)
  All-update_where_from P Q p f [] hit miss h = tt
  All-update_where_from P Q p f (x ∷ xs) hit miss h = elim (Bool-cases (p x)) [
    | inl e ↦ rw e (hit x e, All-update_where_from P Q p f xs hit miss h.1)
    | inr e ↦ rw e (miss x h.0 e, All-update_where_from P Q p f xs hit miss h.1)
  ]
