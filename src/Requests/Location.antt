-- ===== src/Requests/Location.antt =====
-- Where an address is: `getIPLocation` of src/common/helpers/request-info.helper.ts.
use Prim.Native.String.{◌++◌ as text_append}
use Prim.Native.Char.{code}
use Prim.Native.String.{char_at}
use Prim.Native.Nat.{◌/◌, ◌%◌}
use nestjs_auth_backend.Base.{
  ℕ, zero, suc, ◌+◌, ◌≤◌, ◌<◌, ◌⊎◌, sym, arith, ltb, ◌≡◌, refl, inl, inr, Bool, true, false, not,
  ◌&&◌, ◌||◌, Option, none, some, String, List, [], ◌∷◌, leb, Bool-cases, All, subst, ◌==◌,
  if◌then◌else◌,
}
use nestjs_auth_backend.Requests.{after_prefix}

pub record LocationInfo : Type 0 where
  pub city : String
  pub country : String
  pub timezone : String
  pub latitude : String
  pub longitude : String

-- `s.startsWith(p)`
abbrev pub starts_with : String → String → Bool
starts_with p s = elim (after_prefix p s) [ none ↦ false | some rest ↦ true ]

-- `(1[6-9]|2\d|3[0-1])\.` at the start of a text.
abbrev pub in_sixteen : String → Bool
in_sixteen (String.◌∷◌ c (String.◌∷◌ d (String.◌∷◌ e rest))) =
    ((code c == b'1' && (leb b'6' (code d) && leb (code d) b'9'))
      || ((code c == b'2' && (leb b'0' (code d) && leb (code d) b'9'))
          || (code c == b'3' && (leb b'0' (code d) && leb (code d) b'1'))))
    && code e == b'.'
in_sixteen _ = false

abbrev pub behind_172 : Option String → Bool
behind_172 none = false
behind_172 (some rest) = in_sixteen rest

-- `blockedRanges.some((r) => r.test(ip))`
unfoldable pub in_blocked_range : String → Bool
in_blocked_range ip =
    starts_with "127." ip
    || (starts_with "10." ip
        || (starts_with "192.168." ip
            || (behind_172 (after_prefix "172." ip) || starts_with "169.254." ip)))

-- `net.isIP`, `encodeURIComponent`, and what reading the answer of the location service gives,
-- `none` where the request or the reading throws, are parameters.
module _ (is_ip : String → Bool) (encode : String → String)
    (reply : String → Option LocationInfo) where
  abbrev pub location_url : String → String
  location_url ip = text_append "https://ip.guide/" (encode ip)

  -- `getIPLocation`: the location, and the addresses that are fetched on the way.
  unfoldable pub get_ip_location : String → Option LocationInfo × List String
  unfolding in_blocked_range
  get_ip_location ip =
      if not (is_ip ip)
      then (none, [])
      else if in_blocked_range ip
      then (none, [])
      else (reply (location_url ip), location_url ip ∷ [])

-- `p + s`
abbrev pub prepend : String → String → String
prepend String.[] s = s
prepend (String.◌∷◌ c p) s = String.◌∷◌ c (prepend p s)

-- A number below 1000 in decimal digits.
abbrev pub decimal : ℕ → String
decimal n =
    let digit : ℕ → String → String = λ d s. String.◌∷◌ (char_at "0123456789" d) s in
    let last = digit (n % 10) "" in
    if ltb n 10
    then last
    else if ltb n 100
    then digit (n / 10) last
    else digit (n / 100) (digit (n / 10 % 10) last)

-- The address `a.b.` with what follows.
abbrev pub quad : ℕ → ℕ → String → String
quad a b rest = prepend (decimal a) (prepend "." (prepend (decimal b) (prepend "." rest)))

-- The ranges of IPv4 that are not public, by the first two octets: 10/8, 127/8, 172.16/12,
-- 192.168/16 and 169.254/16.
abbrev pub IsPrivate : ℕ → ℕ → Type 0
IsPrivate a b =
    (a ≡ 10)
    ⊎ ((a ≡ 127)
        ⊎ (((a ≡ 172) × (16 ≤ b) × (b ≤ 31)) ⊎ (((a ≡ 192) × (b ≡ 168)) ⊎ ((a ≡ 169) × (b ≡ 254)))))

abbrev from : ℕ → ℕ → List ℕ
from n zero = []
from n (suc k) = n ∷ from (suc n) k

All-from : (P : ℕ → Type 0) (n k b : ℕ) → All P (from n k) → n ≤ b → b < n + k → P b
All-from P n zero b h low high = absurd (omega arith)
All-from P n (suc k) b h low high = elim (Bool-cases (n == b)) [
  | inl e ↦ subst P (ground arith) h.0
  | inr e ↦ All-from P (suc n) k b h.1 (ground arith) (omega arith)
]

abbrev Blocks : ℕ → ℕ → Type 0
Blocks a b = (rest : String) → in_blocked_range (quad a b rest) ≡ true

octets-Blocks : All (Blocks 172) (from 16 16)
unfolding in_blocked_range
octets-Blocks = search

private-Blocks : (a b : ℕ) → IsPrivate a b → Blocks a b
unfolding in_blocked_range
private-Blocks a b (inl e) = subst (λ n. Blocks n b) (sym e) (λ rest. refl)
private-Blocks a b (inr (inl e)) = subst (λ n. Blocks n b) (sym e) (λ rest. refl)
private-Blocks a b (inr (inr (inl (e, low, high)))) =
    subst (λ n. Blocks n b) (sym e) (All-from (Blocks 172) 16 16 b octets-Blocks low (omega arith))
private-Blocks a b (inr (inr (inr (inl (e, f))))) =
    subst (λ n. Blocks n b) (sym e) (subst (λ n. Blocks 192 n) (sym f) (λ rest. refl))
private-Blocks a b (inr (inr (inr (inr (e, f))))) =
    subst (λ n. Blocks n b) (sym e) (subst (λ n. Blocks 169 n) (sym f) (λ rest. refl))

-- An address of IPv4 in dotted decimals, of loopback, of a private range or link-local, is never
-- looked up: where the first two octets are in such a range, whatever follows them, no address is
-- fetched and the location is `null`.
pub get_ip_location-private :
    (is_ip : String → Bool) (encode : String → String) (reply : String → Option LocationInfo)
    (a b : ℕ) (rest : String)
    → IsPrivate a b
    → get_ip_location is_ip encode reply (quad a b rest) ≡ (none, [])
unfolding get_ip_location
get_ip_location-private is_ip encode reply a b rest private =
    let blocked : in_blocked_range (quad a b rest) ≡ true = private-Blocks a b private rest in
    elim (Bool-cases (is_ip (quad a b rest))) [ inl e ↦ rw (e, blocked) refl | inr e ↦ rw e refl ]
