-- ===== src/Permissions.antt =====
-- src/common/utils/normalize-permissions.utils.ts: the permissions of a role as text and as a list.
pub mod RoundTrip
use Prim.Native.Char.{Char, code}
use nestjs_auth_backend.Base.{
  ℕ, Bool, true, false, ◌&&◌, ◌||◌, not, String, List, [], ◌∷◌, map, select, if◌then◌else◌, leb,
  ◌==◌, str_eq,
}

-- The white space that `String.prototype.trim` takes off.
abbrev pub is_space : ℕ → Bool
is_space c =
    (leb 9 c && leb c 13)
    || c == 32
    || c == 160
    || c == 0x1680
    || (leb 0x2000 c && leb c 0x200a)
    || c == 0x2028
    || c == 0x2029
    || c == 0x202f
    || c == 0x205f
    || c == 0x3000
    || c == 0xfeff

abbrev pub is_empty : String → Bool
is_empty String.[] = true
is_empty (String.◌∷◌ c s) = false

abbrev pub trim_start : String → String
trim_start String.[] = String.[]
trim_start (String.◌∷◌ c s) = if is_space (code c) then trim_start s else String.◌∷◌ c s

-- Puts a character in front, unless it is white space before nothing.
abbrev pub cons_trimmed : Char → String → String
cons_trimmed c rest = if is_space (code c) && is_empty rest then String.[] else String.◌∷◌ c rest

abbrev pub trim_end : String → String
trim_end String.[] = String.[]
trim_end (String.◌∷◌ c s) = cons_trimmed c (trim_end s)

abbrev pub trim : String → String
trim s = trim_end (trim_start s)

-- `s.startsWith(ch)` and `s.endsWith(ch)`, the character by its number.
abbrev pub starts_with_code : ℕ → String → Bool
starts_with_code k String.[] = false
starts_with_code k (String.◌∷◌ c s) = code c == k

abbrev pub ends_with_code : ℕ → String → Bool
ends_with_code k String.[] = false
ends_with_code k (String.◌∷◌ c s) = if is_empty s then code c == k else ends_with_code k s

abbrev pub drop_first : String → String
drop_first String.[] = String.[]
drop_first (String.◌∷◌ c s) = s

abbrev pub drop_last : String → String
drop_last String.[] = String.[]
drop_last (String.◌∷◌ c s) = if is_empty s then String.[] else String.◌∷◌ c (drop_last s)

-- `s.slice(1, -1)`
abbrev pub slice_inner : String → String
slice_inner s = drop_last (drop_first s)

abbrev pub cons_head : Char → List String → List String
cons_head c [] = String.◌∷◌ c String.[] ∷ []
cons_head c (s ∷ rest) = String.◌∷◌ c s ∷ rest

-- `s.split(ch)`
abbrev pub split_code : ℕ → String → List String
split_code k String.[] = String.[] ∷ []
split_code k (String.◌∷◌ c s) =
    let rest = split_code k s in if code c == k then String.[] ∷ rest else cons_head c rest

-- `p.replace(/^"|"$/g, '')`
abbrev pub strip_quotes : String → String
strip_quotes s =
    let inner = if starts_with_code b'"' s then drop_first s else s in
    if ends_with_code b'"' inner then drop_last inner else inner

-- `.filter(Boolean)` on texts
abbrev pub non_empty : List String → List String
non_empty = select (λ p. not (is_empty p))

-- `normalizePermissions` of a text
unfoldable pub normalize_permissions : String → List String
normalize_permissions s = non_empty (map trim (split_code b',' s))

abbrev pub unwrap : ℕ → ℕ → String → String
unwrap open_code close_code s =
    if starts_with_code open_code s && ends_with_code close_code s then slice_inner s else s

-- `parsePermissions` of a text
unfoldable pub parse_permissions : String → List String
parse_permissions input =
    if is_empty input
    then []
    else (let value = unwrap 39 39 (trim input) in
        if str_eq value "all"
        then "all" ∷ []
        else non_empty
            (map (λ p. strip_quotes (trim p)) (split_code b',' (unwrap b'{' b'}' value))))
