-- ===== src/DynamicQuery/Paths.antt =====
-- The nested objects that src/common/services/query/dynamic.service.ts builds along a path.
use nestjs_auth_backend.Base.{
  ◌≡◌, refl, ap, false, Option, none, some, String, List, [], ◌∷◌, arith, str_eq, eq_refl, eq_iff,
  if◌then◌else◌, ◌⊎◌, ◌∙◌, All, any, Bool, inl, inr, Bool-cases, Option-cases, subst, sym,
}
use nestjs_auth_backend.DynamicQuery.{
  Tree, leaf, object, Fields, no_field, field, get_field, set_field, build_nested,
}

-- The names that every object of JavaScript inherits.
abbrev pub is_inherited : String → Bool
is_inherited name =
    any (λ n. str_eq n name)
      ("__proto__" ∷ "constructor" ∷ "hasOwnProperty" ∷ "isPrototypeOf" ∷ "propertyIsEnumerable"
        ∷ "toLocaleString" ∷ "toString" ∷ "valueOf" ∷ "__defineGetter__" ∷ "__defineSetter__"
        ∷ "__lookupGetter__" ∷ "__lookupSetter__" ∷ [])

-- Two paths that part at some name.
abbrev pub Parts : List String → List String → Type 0
Parts (c ∷ cs) (o ∷ os) = (str_eq c o ≡ false) ⊎ ((c ≡ o) × Parts cs os)
Parts _ _ = ⊥

module _ {ℓ} {A : Type ℓ} where
  -- What stands at a path.
  abbrev pub at_path : String → List String → Fields A → Option A
  at_path current [] target = elim (get_field current target) [ some (leaf a) ↦ some a | _ ↦ none ]
  at_path current (next ∷ rest) target = elim (get_field current target) [
    | some (object inner) ↦ at_path next rest inner
    | _ ↦ none
  ]

  get_field-set_field :
      (key : String) (t : Tree A) (target : Fields A)
      → get_field key (set_field key t target) ≡ some t
  get_field-set_field key t no_field = rw (eq_refl key) refl
  get_field-set_field key t (field k old rest) = elim (Bool-cases (str_eq k key)) [
    | inl e ↦ rw e (rw e refl)
    | inr e ↦ rw e (rw e (get_field-set_field key t rest))
  ]

  -- A key that the test tells apart is found as before.
  get_field-set_field_ne :
      (key other : String) (t : Tree A) (target : Fields A)
      → str_eq key other ≡ false
      → get_field other (set_field key t target) ≡ get_field other target
  get_field-set_field_ne key other t no_field apart = rw apart refl
  get_field-set_field_ne key other t (field k old rest) apart = elim (Bool-cases (str_eq k key)) [
    | inl e ↦
        let differ : str_eq k other ≡ false =
          subst (λ x. str_eq x other ≡ false) (sym ((eq_iff k key).0 e)) apart in
        rw e (rw differ refl)
    | inr e ↦ rw e (
        ap (λ r. if str_eq k other then some old else r)
          (get_field-set_field_ne key other t rest apart))
  ]

  written :
      (key : String) (t : Tree A) (target out : Fields A)
      → set_field key t target ≡ out
      → (get_field key out ≡ some t)
        × ((other : String)
            → str_eq key other ≡ false
            → get_field other out ≡ get_field other target)
  written key t target out e = (
    subst (λ o. get_field key o ≡ some t) e (get_field-set_field key t target),
    λ other apart.
        subst (λ o. get_field other o ≡ get_field other target) e
          (get_field-set_field_ne key other t target apart),
  )

  at_path-same :
      (o : String) (os : List String) (target out : Fields A)
      → get_field o out ≡ get_field o target
      → at_path o os out ≡ at_path o os target
  at_path-same o [] target out e = rw (e, at_path) refl
  at_path-same o (p ∷ ps) target out e = rw (e, at_path) refl

  abbrev empty : Fields A
  empty = no_field

  at_path-no_field : (o : String) (os : List String) → at_path o os empty ≡ none
  at_path-no_field o [] = refl
  at_path-no_field o (p ∷ ps) = refl

  -- What `build_nested` makes of an object: the value at its path, and the rest as it was.
  abbrev pub Written : String → List String → A → Fields A → Fields A → Type ℓ
  Written current rest a target out =
      (at_path current rest out ≡ some a)
      × ((o : String) (os : List String)
          → Parts (current ∷ rest) (o ∷ os)
          → at_path o os out ≡ at_path o os target)

  -- A step into a nested object that was `before` and is `sub` now.
  nested-Written :
      (current next : String) (rest : List String) (a : A) (before sub target out : Fields A)
      → Written next rest a before sub
      → ((o : String) (os : List String) → at_path o os before ≡ at_path current (o ∷ os) target)
      → set_field current (object sub) target ≡ out
      → Written current (next ∷ rest) a target out
  nested-Written current next rest a before sub target out inner was e =
      let new = written current (object sub) target out e in (rw (new.0, at_path) inner.0, apart)
    where
      apart :
          (o : String) (os : List String)
          → Parts (current ∷ next ∷ rest) (o ∷ os)
          → at_path o os out ≡ at_path o os target
      apart o os (inl differ) =
          at_path-same o os target out ((written current (object sub) target out e).1 o differ)
      apart o [] (inr (same, later)) = absurd later
      apart o (p ∷ ps) (inr (same, later)) =
          subst (λ k. at_path k (p ∷ ps) out ≡ at_path k (p ∷ ps) target) same
            (rw ((written current (object sub) target out e).0, at_path)
              (inner.1 p ps later ∙ was p ps))

  -- Along a path of names that objects do not inherit: a value that `buildNestedWhere` or
  -- `buildNestedOrder` wrote is what stands at that path, and every path that parts from it, at
  -- the first name or at a later one, leads to what it led to before.
  pub at_path-build_nested :
      (current : String) (rest : List String) (a : A) (target out : Fields A)
      → All (λ n. is_inherited n ≡ false) (current ∷ rest)
      → build_nested current rest a target ≡ some out
      → Written current rest a target out
  at_path-build_nested current [] a target out own e =
      let new = written current (leaf a) target out (ground arith) in
      (
        rw (new.0, at_path) refl,
        λ o os parts. elim parts [
          | inl differ ↦ at_path-same o os target out (new.1 o differ)
          | inr (same, later) ↦ absurd later
        ],
      )
  at_path-build_nested current (next ∷ rest) a target out own e =
      elim (Option-cases (get_field current target)) [
        | inl missing ↦ elim (Option-cases (build_nested next rest a no_field)) [
          | inl failed ↦ absurd (ground arith)
          | inr (sub, built) ↦
              nested-Written current next rest a no_field sub target out
                (at_path-build_nested next rest a no_field sub own.1 built)
                (λ o os. at_path-no_field o os ∙ rw (missing, at_path) refl) (ground arith)
        ]
        | inr (leaf b, found) ↦ absurd (ground arith)
        | inr (object inner, found) ↦ elim (Option-cases (build_nested next rest a inner)) [
          | inl failed ↦ absurd (ground arith)
          | inr (sub, built) ↦
              nested-Written current next rest a inner sub target out
                (at_path-build_nested next rest a inner sub own.1 built)
                (λ o os. rw (found, at_path) refl) (ground arith)
        ]
      ]
