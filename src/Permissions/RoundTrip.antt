-- ===== src/Permissions/RoundTrip.antt =====
-- `parsePermissions` of src/common/utils/normalize-permissions.utils.ts on the text that the driver
-- writes for the column `permissions`.
use Prim.Native.Char.{Char, code}
use nestjs_auth_backend.Base.{
  ℕ, ◌≡◌, refl, ap, ap, ◌∙◌, sym, subst, true, false, String, List, [], ◌∷◌, arith, map, All,
  if◌then◌else◌, ◌==◌, str_eq, eq_iff, ==_refl, Bool-cases, inl, inr,
}
use nestjs_auth_backend.World.{Env}
use nestjs_auth_backend.Permissions.{
  is_space, is_empty, trim, trim_end, starts_with_code, ends_with_code, drop_last, split_code,
  strip_quotes, non_empty, unwrap, parse_permissions,
}

-- The text `s`, then `rest`.
abbrev followed_by : String → String → String
followed_by String.[] rest = rest
followed_by (String.◌∷◌ c s) rest = String.◌∷◌ c (followed_by s rest)

-- A backslash before every quote and every backslash.
abbrev escape : String → String
escape String.[] = String.[]
escape (String.◌∷◌ c s) =
    let rest = escape s in
    if code c == b'"'
    then String.◌∷◌ "\\" (String.◌∷◌ c rest)
    else (if code c == b'\\' then String.◌∷◌ "\\" (String.◌∷◌ c rest) else String.◌∷◌ c rest)

abbrev quoted : String → String
quoted p = String.◌∷◌ "\"" (followed_by (escape p) "\"")

abbrev items : List String → String
items [] = ""
items (p ∷ []) = quoted p
items (p ∷ q ∷ rest) = followed_by (quoted p) (String.◌∷◌ "," (items (q ∷ rest)))

-- The text of an array as PostgreSQL reads it: quoted elements, between braces.
abbrev pub array_text : List String → String
array_text names = String.◌∷◌ "{" (followed_by (items names) "}")

-- No character of the text has the number `k`.
abbrev pub HasNo : ℕ → String → Type 0
HasNo k String.[] = Unit
HasNo k (String.◌∷◌ c s) = ((code c == k) ≡ false) × HasNo k s

-- A name that is not empty and has no comma, quote or backslash.
abbrev pub IsPlain : String → Type 0
IsPlain p = (is_empty p ≡ false) × HasNo b',' p × HasNo b'"' p × HasNo b'\\' p

is_empty-followed_by :
    (s : String) (c : Char) (rest : String) → is_empty (followed_by s (String.◌∷◌ c rest)) ≡ false
is_empty-followed_by String.[] c rest = refl
is_empty-followed_by (String.◌∷◌ d s) c rest = refl

-- A last character that is no white space stops `trim`.
trim_end-followed_by :
    (s : String) (c : Char)
    → is_space (code c) ≡ false
    → trim_end (followed_by s (String.◌∷◌ c String.[])) ≡ followed_by s (String.◌∷◌ c String.[])
trim_end-followed_by String.[] c ink = rw ink refl
trim_end-followed_by (String.◌∷◌ d s) c ink =
    ground (arith, trim_end-followed_by s c ink, is_empty-followed_by s c String.[])

ends_with-followed_by :
    (c : Char) (s : String)
    → ends_with_code (code c) (followed_by s (String.◌∷◌ c String.[])) ≡ true
ends_with-followed_by c String.[] = ==_refl (code c)
ends_with-followed_by c (String.◌∷◌ d s) =
    ground (arith, ends_with-followed_by c s, is_empty-followed_by s c String.[])

drop_last-followed_by :
    (c : Char) (s : String) → drop_last (followed_by s (String.◌∷◌ c String.[])) ≡ s
drop_last-followed_by c String.[] = refl
drop_last-followed_by c (String.◌∷◌ d s) =
    ground (arith, drop_last-followed_by c s, is_empty-followed_by s c String.[])

split_code-plain : (k : ℕ) (s : String) → HasNo k s → split_code k s ≡ s ∷ []
split_code-plain k String.[] h = refl
split_code-plain k (String.◌∷◌ c s) h = rw (h.0) (rw (split_code-plain k s h.1) refl)

split_code-followed_by :
    (c : Char) (s rest : String)
    → HasNo (code c) s
    → split_code (code c) (followed_by s (String.◌∷◌ c rest)) ≡ s ∷ split_code (code c) rest
split_code-followed_by c String.[] rest h = rw (==_refl (code c)) refl
split_code-followed_by c (String.◌∷◌ d s) rest h =
    rw (h.0) (rw (split_code-followed_by c s rest h.1) refl)

escape-plain : (s : String) → HasNo b'"' s → HasNo b'\\' s → escape s ≡ s
escape-plain String.[] h k = refl
escape-plain (String.◌∷◌ c s) h k = rw (h.0) (rw (k.0) (ap (String.◌∷◌ c) (escape-plain s h.1 k.1)))

HasNo-followed_by :
    (k : ℕ) (s rest : String) → HasNo k s → HasNo k rest → HasNo k (followed_by s rest)
HasNo-followed_by k String.[] rest h g = g
HasNo-followed_by k (String.◌∷◌ c s) rest h g = (h.0, HasNo-followed_by k s rest h.1 g)

quoted-HasNo : (p : String) → IsPlain p → HasNo b',' (quoted p)
quoted-HasNo p h = (
  refl,
  subst (λ e. HasNo b',' (followed_by e "\"")) (sym (escape-plain p h.2 h.3))
      (HasNo-followed_by b',' p "\"" h.1 (refl, tt)),
)

split_code-items :
    (p : String) (rest : List String)
    → All IsPlain (p ∷ rest)
    → split_code b',' (items (p ∷ rest)) ≡ map quoted (p ∷ rest)
split_code-items p [] h = split_code-plain b',' (quoted p) (quoted-HasNo p h.0)
split_code-items p (q ∷ rest) h =
    split_code-followed_by "," (quoted p) (items (q ∷ rest)) (quoted-HasNo p h.0)
    ∙ ap (λ xs. quoted p ∷ xs) (split_code-items q rest h.1)

strip_quotes-quoted : (p : String) → IsPlain p → strip_quotes (trim (quoted p)) ≡ p
strip_quotes-quoted p h = rw (trim_end-followed_by (String.◌∷◌ "\"" (escape p)) "\"" refl) (
    rw (ends_with-followed_by "\"" (escape p))
      (drop_last-followed_by "\"" (escape p) ∙ escape-plain p h.2 h.3))

read_back :
    (names : List String)
    → All IsPlain names
    → non_empty (map (λ p. strip_quotes (trim p)) (map quoted names)) ≡ names
read_back [] h = refl
read_back (p ∷ names) h =
    rw (strip_quotes-quoted p h.0) (rw (h.0.0) (ap (λ xs. p ∷ xs) (read_back names h.1)))

split_code-read :
    (names : List String)
    → All IsPlain names
    → non_empty (map (λ p. strip_quotes (trim p)) (split_code b',' (items names))) ≡ names
split_code-read [] h = refl
split_code-read (p ∷ rest) h = rw (split_code-items p rest h) (read_back (p ∷ rest) h)

array_text-all : (names : List String) → str_eq (array_text names) "all" ≡ false
array_text-all names = elim (Bool-cases (str_eq (array_text names) "all")) [
  | inl e ↦ absurd (
      let first : starts_with_code b'{' (array_text names) ≡ starts_with_code b'{' "all" =
        ap (starts_with_code b'{') ((eq_iff (array_text names) "all").0 e) in
      cc first)
  | inr e ↦ e
]

trim-array_text : (names : List String) → trim (array_text names) ≡ array_text names
trim-array_text names = trim_end-followed_by (String.◌∷◌ "{" (items names)) "}" refl

unwrap-array_text : (names : List String) → unwrap b'{' b'}' (array_text names) ≡ items names
unwrap-array_text names =
    rw (ends_with-followed_by "}" (String.◌∷◌ "{" (items names)))
      (drop_last-followed_by "}" (items names))

-- What `parsePermissions` does with a text that is trimmed, without quotes around it, and not `all`.
parse-trimmed :
    (s inner : String)
    → is_empty s ≡ false
    → trim s ≡ s
    → starts_with_code 39 s ≡ false
    → str_eq s "all" ≡ false
    → unwrap b'{' b'}' s ≡ inner
    → parse_permissions s ≡ non_empty (map (λ p. strip_quotes (trim p)) (split_code b',' inner))
unfolding parse_permissions
parse-trimmed s inner given trimmed bare other unwrapped = ground arith

-- `parsePermissions` gives back every list of names that are not empty and have no comma, quote or
-- backslash, from the text that the driver writes for it: the quoted names, between braces.
pub parse_permissions-array_text :
    (env : Env) (names : List String)
    → ((xs : List String) → env.pg_array xs ≡ array_text xs)
    → All IsPlain names
    → parse_permissions (env.pg_array names) ≡ names
parse_permissions-array_text env names pg h =
    ap parse_permissions (pg names)
    ∙ parse-trimmed (array_text names) (items names) refl (trim-array_text names) refl
        (array_text-all names) (unwrap-array_text names)
    ∙ split_code-read names h
