-- ===== src/DynamicQuery.antt =====
-- src/common/services/query/dynamic.service.ts and src/common/utils/typeorm.utils.ts: queries with
-- filters, an order and pages, as options of a TypeORM repository, which is a parameter.
pub mod Paths
pub mod Pages
use Prim.Native.Char.{Char, code}
use mathlib.Core.Option.{map as map_some}
use nestjs_auth_backend.Base.{
  ℕ, ◌+◌, ◌-◌, ◌*◌, Bool, true, false, ◌&&◌, ◌||◌, not, Option, none, some, String, List, [], ◌∷◌,
  ◌++◌, map, if◌then◌else◌, leb, ltb, ◌==◌, str_eq, select, any,
}
use nestjs_auth_backend.Errors.{bad_request, crash, http}
use nestjs_auth_backend.Permissions.{trim, split_code, is_empty, is_space, cons_head, non_empty}
use nestjs_auth_backend.Guards.{contains}
use nestjs_auth_backend.World.{
  Db, Action, ◌>>=◌, ◌>>◌, pure, throw, throw_if, or_throw, query, try_catch, direct,
}

-- `Number(value)`: a natural number, `NaN`, or a number that is negative or not an integer.
pub data Num : Type 0 where
  nat : ℕ → Num
  not_a_number other_num : Num

-- The value of a filter.
pub data Value : Type 0 where
  text : String → Value
  number : Num → Value

-- An object of nested properties in the order of their insertion.
mutual
  pub data Tree {ℓ} (A : Type ℓ) : Type ℓ where
    leaf : A → Tree A
    object : Fields A → Tree A

  pub data Fields {ℓ} (A : Type ℓ) : Type ℓ where
    no_field : Fields A
    field : String → Tree A → Fields A → Fields A

module _ {ℓ} {A : Type ℓ} where
  -- `target[key]`
  abbrev pub get_field : String → Fields A → Option (Tree A)
  get_field key no_field = none
  get_field key (field k t rest) = if str_eq k key then some t else get_field key rest

  -- `target[key] = t`
  abbrev pub set_field : String → Tree A → Fields A → Fields A
  set_field key t no_field = field key t no_field
  set_field key t (field k old rest) =
      let later = set_field key t rest in if str_eq k key then field k t rest else field k old later

  -- `buildNestedWhere` and `buildNestedOrder`, of the path `current, ...rest`. A property of a
  -- primitive value cannot be set: the assignment throws. The objects have no inherited
  -- properties: names such as `__proto__` and `constructor` are outside the model.
  abbrev pub build_nested : String → List String → A → Fields A → Option (Fields A)
  build_nested current [] a target = some (set_field current (leaf a) target)
  build_nested current (next ∷ rest) a target =
      let fresh = build_nested next rest a no_field in
      elim (get_field current target) [
        | none ↦ map_some (λ sub. set_field current (object sub) target) fresh
        | some (leaf _) ↦ none
        | some (object inner) ↦
            map_some (λ sub. set_field current (object sub) target) (build_nested next rest a inner)
      ]

-- `path.split('.')[0]`, and what is behind it.
abbrev pub path_root : String → String
path_root path = elim (split_code b'.' path) [ [] ↦ "" | r ∷ rest ↦ r ]

abbrev pub path_rest : String → List String
path_rest path = elim (split_code b'.' path) [ [] ↦ [] | r ∷ rest ↦ rest ]

pub data Direction : Type 0 where
  asc desc : Direction

-- `toUpperCase` as far as it can make a letter of `ASC` or `DESC`: ASCII letters, and the long s.
abbrev upper_code : ℕ → ℕ
upper_code c = if leb b'a' c && leb c b'z' then c - 32 else (if c == 0x17f then b'S' else c)

abbrev is_upper_of : List ℕ → String → Bool
is_upper_of [] String.[] = true
is_upper_of [] (String.◌∷◌ c s) = false
is_upper_of (k ∷ ks) String.[] = false
is_upper_of (k ∷ ks) (String.◌∷◌ c s) = upper_code (code c) == k && is_upper_of ks s

-- `validDirection`
abbrev pub valid_direction : String → Direction
valid_direction d = if is_upper_of (b'D' ∷ b'E' ∷ b'S' ∷ b'C' ∷ []) d then desc else asc

-- The words of `s.split(/\s+/)`, without empty ones.
abbrev split_spaces : String → List String
split_spaces String.[] = String.[] ∷ []
split_spaces (String.◌∷◌ c s) =
    let rest = split_spaces s in if is_space (code c) then String.[] ∷ rest else cons_head c rest

abbrev pub words : String → List String
words s = non_empty (split_spaces s)

-- The operator of a condition: `Number(value)`, or `ILike('%value%')`.
pub data Operator : Type 0 where
  equals : Value → Operator
  i_like : Value → Operator

abbrev last_of : String → List String → String
last_of current [] = current
last_of current (next ∷ rest) = last_of next rest

abbrev pub where_leaf : String → List String → Value → Operator
where_leaf current rest value =
    if str_eq (last_of current rest) "id" then equals value else i_like value

-- `!value`
abbrev pub is_falsy : Value → Bool
is_falsy (text s) = is_empty s
is_falsy (number (nat n)) = n == 0
is_falsy (number not_a_number) = true
is_falsy (number other_num) = false

-- What the service reads of a repository: the metadata, and the call of `findAndCount`.
pub record FindOptions : Type 0 where
  pub where_any : Option (List (Fields Operator))
  pub order : Fields Direction
  pub relations : Option (List String)
  pub skip : ℕ
  pub take : ℕ
  pub select_only : Option (List String)

pub record Repository (T : Type 0) : Type 0 where
  pub columns : List String
  pub relations : List String
  -- the keys of `metadata.propertiesMap`
  pub properties : List String
  pub find_and_count_rows : FindOptions → Db → List T × ℕ

abbrev pub Filters : Type 0
Filters = List (String × Value)

-- `set.add(s)` on a set in the order of insertion.
abbrev add_to_set : String → List String → List String
add_to_set s xs = if contains xs s then xs else xs ++ s ∷ []

abbrev pub add_all : List String → List String → List String
add_all [] xs = xs
add_all (s ∷ rest) xs = add_all rest (add_to_set s xs)

-- `extractRelationsFromPaths`
abbrev pub extract_relations : List String → List String → List String
extract_relations paths valid = add_all (select (contains valid) (map path_root paths)) []

abbrev pub sort_parts : Option String → List String
sort_parts none = []
sort_parts (some s) = if is_empty s then [] else split_code b',' s

abbrev first_word : String → String
first_word s = elim (words (trim s)) [ [] ↦ "" | word ∷ rest ↦ word ]

abbrev pub non_nil : {A : Type 0} → List A → Option (List A)
non_nil [] = none
non_nil (x ∷ xs) = some (x ∷ xs)

-- `validateInteger`
abbrev pub validate_integer : Num → ℕ → Action ℕ
validate_integer (nat n) min = throw_if (ltb n min) bad_request >> pure n
validate_integer not_a_number min = throw (http bad_request)
validate_integer other_num min = throw (http bad_request)

abbrev pub max : ℕ → ℕ → ℕ
max a b = if leb a b then b else a

module _ {T : Type 0} (repo : Repository T) where
  abbrev is_valid_root : String → Bool
  is_valid_root key =
      contains repo.columns (path_root key) || contains repo.relations (path_root key)

  -- One condition for each filter, which the repository joins by OR.
  abbrev pub build_where : Filters → Option (List (Fields Operator))
  build_where [] = some []
  build_where ((key, value) ∷ filters) =
      let later = build_where filters in
      if is_falsy value || not (is_valid_root key)
      then later
      else (elim (build_nested (path_root key) (path_rest key)
          (where_leaf (path_root key) (path_rest key) value) no_field) [
            | none ↦ none
            | some condition ↦ map_some (λ conditions. condition ∷ conditions) later
          ])

  abbrev pub order_step : List String → Fields Direction → Option (Fields Direction)
  order_step [] target = some target
  order_step (key ∷ []) target = some target
  order_step (key ∷ direction ∷ rest) target =
      if is_valid_root key
      then build_nested (path_root key) (path_rest key) (valid_direction direction) target
      else some target

  abbrev pub build_order : List String → Fields Direction → Option (Fields Direction)
  build_order [] target = some target
  build_order (part ∷ parts) target = elim (order_step (words (trim part)) target) [
    | none ↦ none
    | some next ↦ build_order parts next
  ]

  abbrev relations_of : Filters → Option String → List String → List String
  relations_of filters sort selected =
      add_all (extract_relations (map first_word (sort_parts sort)) repo.relations) (
        add_all (extract_relations (map (λ f. f.0) filters) repo.relations)
          (extract_relations selected repo.relations))

  abbrev pub load_relations : Filters → Option String → Option (List String) → Option (List String)
  load_relations filters sort (some (f ∷ fs)) = non_nil (relations_of filters sort (f ∷ fs))
  load_relations filters sort _ = some repo.relations

  -- `getSafeSelect`
  abbrev pub get_safe_select : List String → Option (List String)
  get_safe_select fields = non_nil (select (contains repo.properties) fields)

  abbrev pub options_of :
      Filters → ℕ → ℕ → Option String → Option (List String) → Option FindOptions
  options_of filters page limit sort selected = elim (build_where filters) [
    | none ↦ none
    | some conditions ↦ elim (build_order (sort_parts sort) no_field) [
      | none ↦ none
      | some order ↦ some (record {
        where_any = non_nil conditions;
        order = order;
        relations = load_relations filters sort selected;
        skip = max 0 ((page - 1) * limit);
        take = max 1 limit;
        select_only = elim selected [ none ↦ none | some fields ↦ non_nil fields ];
      })
    ]
  ]

  -- `findAndCount`
  unfoldable pub find_and_count :
      Filters → Num → Num → Option String → Option (List String) → Action (List T × ℕ)
  find_and_count filters page limit sort selected = do
    p ← validate_integer page 1
    l ← validate_integer limit 10
    try_catch (do
      options ← or_throw (options_of filters p l sort selected) crash
      query direct (repo.find_and_count_rows options))
