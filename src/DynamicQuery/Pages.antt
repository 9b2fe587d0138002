-- ===== src/DynamicQuery/Pages.antt =====
-- The pages of src/common/services/query/dynamic.service.ts.
use native.Mathlib.Nat.{div-add-mod', mod-lt}
use native.Mathlib.Numerals.{unary_clauses}
use Prim.Native.Nat.{◌/◌}
use nestjs_auth_backend.Base.{
  ℕ, zero, suc, ◌+◌, ◌-◌, ◌*◌, ◌≤◌, ◌≡◌, refl, ap, ◌∙◌, subst, inl, inr, Option-cases, List, [],
  ◌∷◌, ◌++◌, arith, length, Option, some, String,
}
use nestjs_auth_backend.World.{Db, World, ok}
use nestjs_auth_backend.DynamicQuery.{
  Fields, Operator, Direction, FindOptions, Repository, Filters, nat, find_and_count, options_of,
  max, build_where, build_order, sort_parts, no_field,
}

module _ {ℓ} {A : Type ℓ} where
  abbrev pub take : ℕ → List A → List A
  take zero xs = []
  take (suc n) [] = []
  take (suc n) (x ∷ xs) = x ∷ take n xs

  abbrev pub drop : ℕ → List A → List A
  drop zero xs = xs
  drop (suc n) [] = []
  drop (suc n) (x ∷ xs) = drop n xs

  take-append : (n m : ℕ) (xs : List A) → take n xs ++ take m (drop n xs) ≡ take (n + m) xs
  take-append zero m xs = ap (λ n. take n xs) (omega arith)
  take-append (suc n) zero [] = simp unary_clauses refl
  take-append (suc n) (suc m) [] = simp unary_clauses refl
  take-append (suc n) m (x ∷ xs) =
      let size : suc (n + m) ≡ suc n + m = omega arith in
      subst (λ k. x ∷ (take n xs ++ take m (drop n xs)) ≡ take k (x ∷ xs)) size
        (ap (λ ys. x ∷ ys) (take-append n m xs))

  pub take_all : (n : ℕ) (xs : List A) → length xs ≤ n → take n xs ≡ xs
  take_all zero [] h = refl
  take_all zero (x ∷ xs) h = absurd (ground arith)
  take_all (suc n) [] h = refl
  take_all (suc n) (x ∷ xs) h = ap (λ ys. x ∷ ys) (take_all n xs (ground arith))

  -- The first `k` pages of `limit` rows each.
  abbrev pub first_pages : ℕ → ℕ → List A → List A
  first_pages limit zero xs = []
  first_pages limit (suc k) xs = first_pages limit k xs ++ take limit (drop (k * limit) xs)

  pub first_pages_lem : (limit k : ℕ) (xs : List A) → first_pages limit k xs ≡ take (k * limit) xs
  first_pages_lem limit zero xs =
      let none_yet : 0 ≡ 0 * limit = omega arith in ap (λ n. take n xs) none_yet
  first_pages_lem limit (suc k) xs =
      let later : first_pages limit k xs ++ take limit (drop (k * limit) xs)
          ≡ take (k * limit + limit) xs =
        ap (λ ys. ys ++ take limit (drop (k * limit) xs)) (first_pages_lem limit k xs)
        ∙ take-append (k * limit) limit xs in
      let size : k * limit + limit ≡ suc k * limit = omega arith in rw (← size) later

-- Enough pages: `Math.ceil(total / limit)`.
pub ceil-covers : (total limit : ℕ) → 1 ≤ limit → total ≤ (total + (limit - 1)) / limit * limit
ceil-covers total limit h =
    let split = div-add-mod' (total + (limit - 1)) limit in
    let small = mod-lt (total + (limit - 1)) h in omega (arith, split, small)

-- What TypeORM documents of `findAndCount`: it answers the part of the rows that match, in their
-- order, which `skip` and `take` cut out, and the number of all that match.
abbrev pub IsPaged :
    {T : Type 0}
    → Repository T
    → (Option (List (Fields Operator)) → Fields Direction → Db → List T)
    → Type 0
IsPaged repo matches =
    (o : FindOptions) (d : Db)
    → repo.find_and_count_rows o d ≡ (
      take o.take (drop o.skip (matches o.where_any o.order d)),
      length (matches o.where_any o.order d),
    )

module _ {T : Type 0} (repo : Repository T) where
  -- The pages of one query differ in `skip` only.
  pub options_of-page :
      (filters : Filters) (page limit : ℕ) (sort : Option String) (selected : Option (List String))
      (o : FindOptions)
      → 1 ≤ limit
      → options_of repo filters 1 limit sort selected ≡ some o
      → options_of repo filters (suc page) limit sort selected
        ≡ some (record o { skip = page * limit; take = limit })
  options_of-page filters page limit sort selected o h e =
      let before : suc page - 1 ≡ page = omega arith in
      let shown : max 0 ((suc page - 1) * limit) ≡ page * limit = rw before (ground arith) in
      let taken : max 1 limit ≡ limit = ground arith in
      elim (Option-cases (build_where repo filters)) [
        | inl no_where ↦ absurd (ground arith)
        | inr (conditions, where_found) ↦
            elim (Option-cases (build_order repo (sort_parts sort) no_field)) [
              | inl no_order ↦ absurd (ground arith)
              | inr (order, order_found) ↦ ground (arith, shown, taken)
            ]
      ]

  pub find_and_count-page :
      (matches : Option (List (Fields Operator)) → Fields Direction → Db → List T)
      (filters : Filters) (page limit : ℕ) (sort : Option String) (selected : Option (List String))
      (o : FindOptions) (w : World)
      → IsPaged repo matches
      → w.faults ≡ []
      → 10 ≤ limit
      → options_of repo filters 1 limit sort selected ≡ some o
      → find_and_count repo filters (nat (suc page)) (nat limit) sort selected w ≡ (
        ok (
          take limit (drop (page * limit) (matches o.where_any o.order w.db)),
          length (matches o.where_any o.order w.db),
        ),
        w,
      )
  unfolding find_and_count
  find_and_count-page matches filters page limit sort selected o w paged calm large e = ground (
    arith,
    options_of-page filters page limit sort selected o (omega arith) e,
    paged (record o { skip = page * limit; take = limit }) w.db,
  )
