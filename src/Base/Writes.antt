-- ===== src/Base/Writes.antt =====
-- What lookups and selections find after rows were written, inserted or deleted.
use mathlib.Core.Path.{◌≡◌, refl, ap}
use mathlib.Core.Logic.{inl, inr}
use mathlib.Core.Bool.{Bool, true, false}
use mathlib.Core.Option.{none, some}
use mathlib.Core.List.{List, [], ◌∷◌, ◌++◌}
use native.Mathlib.Omega.{arith}
use nestjs_auth_backend.Base.Tests.{if◌then◌else◌, Bool-cases, when_some}
use nestjs_auth_backend.Base.Rows.{find, select, update_where, delete_where, insert_row, All}

module _ {ℓ} {A : Type ℓ} where
  -- No row passes a test that every row is known to fail.
  pub find-none : (p : A → Bool) (xs : List A) → All (λ x. p x ≡ false) xs → find p xs ≡ none
  find-none p [] h = refl
  find-none p (x ∷ xs) h = rw (h.0) (find-none p xs h.1)

  pub find-none-All : (p : A → Bool) (xs : List A) → find p xs ≡ none → All (λ x. p x ≡ false) xs
  find-none-All p [] h = tt
  find-none-All p (x ∷ xs) h = elim (Bool-cases (p x)) [
    | inl e ↦ absurd (let q : some x ≡ none = rw e at h in cc)
    | inr e ↦ (e, find-none-All p xs (rw e at h))
  ]

  -- What `find` gives on the rewritten rows, where the rewriting does not change the test.
  pub find-update_where :
      (p q : A → Bool) (f : A → A) (xs : List A) (a : A)
      → ((x : A) → p (f x) ≡ p x)
      → find p xs ≡ some a
      → find p (update_where q f xs) ≡ some (if q a then f a else a)
  find-update_where p q f [] a same h = cc
  find-update_where p q f (x ∷ xs) a same h = elim (Bool-cases (p x)) [
    | inl e ↦
        let here : x ≡ a = ground arith in
        rw (← here) (elim (Bool-cases (q x)) [ inl t ↦ rw (t, same x, e) | inr t ↦ rw (t, e) ])
    | inr e ↦
        let later : find p (update_where q f xs) ≡ some (if q a then f a else a) =
          find-update_where p q f xs a same (ground arith) in
        elim (Bool-cases (q x)) [ inl t ↦ rw (t, same x, e) later | inr t ↦ rw (t, e) later ]
  ]

  -- A row that is saved over the one found is what is found next.
  pub find-save :
      (p q : A → Bool) (new : A) (xs : List A) (a : A)
      → p new ≡ true
      → q a ≡ true
      → find p xs ≡ some a
      → find p (update_where q (λ _. new) xs) ≡ some new
  find-save p q new [] a fits hit h = cc
  find-save p q new (x ∷ xs) a fits hit h = elim (Bool-cases (p x)) [
    | inl e ↦ let here : x ≡ a = ground arith in rw (here, hit) (rw fits)
    | inr e ↦
        let later : find p (update_where q (λ _. new) xs) ≡ some new =
          find-save p q new xs a fits hit (ground arith) in
        elim (Bool-cases (q x)) [ inl t ↦ rw (t) (rw fits) | inr t ↦ rw (t, e) later ]
  ]

  pub select-none : (p : A → Bool) (xs : List A) → All (λ x. p x ≡ false) xs → select p xs ≡ []
  select-none p [] h = refl
  select-none p (x ∷ xs) h = rw (h.0) (select-none p xs h.1)

  pub select-append :
      (p : A → Bool) (xs ys : List A) → select p (xs ++ ys) ≡ select p xs ++ select p ys
  select-append p [] ys = refl
  select-append p (x ∷ xs) ys = ground (arith, select-append p xs ys)

  -- Rewriting every chosen row so that it is chosen no longer leaves none.
  pub select-update_where_none :
      (p : A → Bool) (f : A → A) (xs : List A)
      → ((x : A) → p (f x) ≡ false)
      → select p (update_where p f xs) ≡ []
  select-update_where_none p f [] gone = refl
  select-update_where_none p f (x ∷ xs) gone = elim (Bool-cases (p x)) [
    | inl e ↦ rw (e, gone x) (select-update_where_none p f xs gone)
    | inr e ↦ rw e (rw e (select-update_where_none p f xs gone))
  ]

  select-save_nil :
      (p q : A → Bool) (new : A) (xs : List A)
      → p new ≡ false
      → select p xs ≡ []
      → select p (update_where q (λ _. new) xs) ≡ []
  select-save_nil p q new [] gone h = refl
  select-save_nil p q new (x ∷ xs) gone h = elim (Bool-cases (p x)) [
    | inl e ↦ absurd (let r : x ∷ select p xs ≡ [] = rw e at h in cc)
    | inr e ↦
        let later : select p (update_where q (λ _. new) xs) ≡ [] =
          select-save_nil p q new xs gone (rw e at h) in
        elim (Bool-cases (q x)) [ inl t ↦ rw t (rw gone later) | inr t ↦ rw t (rw e later) ]
  ]

  -- Saving the only chosen row as one that is not chosen leaves none.
  pub select-save_only :
      (p q : A → Bool) (new a : A) (xs : List A)
      → p new ≡ false
      → q a ≡ true
      → select p xs ≡ a ∷ []
      → select p (update_where q (λ _. new) xs) ≡ []
  select-save_only p q new a [] gone hit h = cc
  select-save_only p q new a (x ∷ xs) gone hit h = elim (Bool-cases (p x)) [
    | inl e ↦
        let both : x ∷ select p xs ≡ a ∷ [] = rw e at h in
        let here : x ≡ a = ground arith in
        let rest : select p xs ≡ [] = ground arith in
        rw (here, hit) (rw gone (select-save_nil p q new xs gone rest))
    | inr e ↦
        let later : select p (update_where q (λ _. new) xs) ≡ [] =
          select-save_only p q new a xs gone hit (rw e at h) in
        elim (Bool-cases (q x)) [ inl t ↦ rw t (rw gone later) | inr t ↦ rw t (rw e later) ]
  ]

  -- A test of the row found does not see a rewriting that it and the search do not see.
  pub find-update_where_test :
      (p q g : A → Bool) (f : A → A) (xs : List A)
      → ((x : A) → p (f x) ≡ p x)
      → ((x : A) → g (f x) ≡ g x)
      → when_some (find p (update_where q f xs)) g ≡ when_some (find p xs) g
  find-update_where_test p q g f [] same_p same_g = refl
  find-update_where_test p q g f (x ∷ xs) same_p same_g =
      ground (arith, same_p x, same_g x, find-update_where_test p q g f xs same_p same_g)

  pub find-delete_where : (p : A → Bool) (xs : List A) → find p (delete_where p xs) ≡ none
  find-delete_where p [] = refl
  find-delete_where p (x ∷ xs) = elim (Bool-cases (p x)) [
    | inl e ↦ rw e (find-delete_where p xs)
    | inr e ↦ rw e (rw e (find-delete_where p xs))
  ]

  -- Deleting rows that fail a test does not change what the test finds.
  pub find-delete_where_ne :
      (p q : A → Bool) (xs : List A)
      → ((x : A) → q x ≡ true → p x ≡ false)
      → find p (delete_where q xs) ≡ find p xs
  find-delete_where_ne p q [] apart = refl
  find-delete_where_ne p q (x ∷ xs) apart = elim (Bool-cases (q x)) [
    | inl e ↦ rw (e, apart x e) (find-delete_where_ne p q xs apart)
    | inr e ↦ rw e (ap (λ r. if p x then some x else r) (find-delete_where_ne p q xs apart))
  ]

  pub find-insert_row :
      (p : A → Bool) (x : A) (xs : List A)
      → find p xs ≡ none
      → p x ≡ true
      → find p (insert_row x xs) ≡ some x
  find-insert_row p x [] h e = rw e
  find-insert_row p x (y ∷ xs) h e = elim (Bool-cases (p y)) [
    | inl t ↦ absurd (let bad : some y ≡ none = rw t at h in cc)
    | inr t ↦ rw t (find-insert_row p x xs (rw t at h) e)
  ]

  pub find-insert_row_old :
      (p : A → Bool) (x a : A) (xs : List A)
      → find p xs ≡ some a
      → find p (insert_row x xs) ≡ some a
  find-insert_row_old p x a [] h = cc
  find-insert_row_old p x a (y ∷ xs) h = elim (Bool-cases (p y)) [
    | inl t ↦ rw t (rw t at h)
    | inr t ↦ rw t (find-insert_row_old p x a xs (rw t at h))
  ]

  -- A row that is appended is found where no other was.
  pub find-insert_row_new :
      (p : A → Bool) (new : A) (rows : List A)
      → find p rows ≡ none
      → p new ≡ true
      → find p (insert_row new rows) ≡ some new
  find-insert_row_new p new [] h hit = rw hit refl
  find-insert_row_new p new (x ∷ rows) h hit = elim (Bool-cases (p x)) [
    | inl e ↦ absurd (let q : some x ≡ none = rw e at h in cc)
    | inr e ↦ rw e (find-insert_row_new p new rows (rw e at h) hit)
  ]

  -- A stricter test that the row found passes finds the same row.
  pub find-stricter :
      (p q : A → Bool) (xs : List A) (a : A)
      → ((x : A) → q x ≡ true → p x ≡ true)
      → q a ≡ true
      → find p xs ≡ some a
      → find q xs ≡ some a
  find-stricter p q [] a weaker hit h = cc
  find-stricter p q (x ∷ xs) a weaker hit h = elim (Bool-cases (p x)) [
    | inl e ↦ let here : x ≡ a = ground arith in rw here (rw hit refl)
    | inr e ↦ elim (Bool-cases (q x)) [
      | inl t ↦ absurd (let both = weaker x t in cc)
      | inr t ↦ rw t (find-stricter p q xs a weaker hit (rw e at h))
    ]
  ]
