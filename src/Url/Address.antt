-- ===== src/Url/Address.antt =====
-- The literal addresses of src/util/UrlUtil.cpp, and which of them are public.
use lib_auto_updater.Base.{
  ℕ, zero, suc, ◌+◌, ◌-◌, ◌*◌, ◌/◌, ◌%◌, Bool, true, false, not, ◌&&◌, ◌||◌, Option, none, some,
  List, [], ◌∷◌, ◌++◌, ltb, leb, ◌==◌, if◌then◌else◌, is_empty, length,
}
use lib_auto_updater.Base.Text.{Bytes}
use lib_auto_updater.Base.Text.Split.{split}
use lib_auto_updater.Base.Options.{◌>>=◌, ◌>>◌, unless}
use lib_auto_updater.ManagedPath.{contains}
use lib_auto_updater.Version.{has_leading_zero}
use lib_auto_updater.Url.Chars.{is_digit, hex_value}

pub record Ipv4 : Type 0 where
  pub a : ℕ
  pub b : ℕ
  pub c : ℕ
  pub d : ℕ

-- The loop over the digits of one part.
unfoldable pub octet_digits : ℕ → Bytes → Option ℕ
octet_digits value [] = some value
octet_digits value (c ∷ cs) =
    let next = value * 10 + (c - b'0') in
    let rest = octet_digits next cs in
    if not (is_digit c) then none else if ltb 255 next then none else rest

unfoldable pub octet : Bytes → Option ℕ
octet token = do unless (is_empty token || has_leading_zero token); octet_digits 0 token

unfoldable pub four_octets : List Bytes → Option Ipv4
four_octets (p ∷ q ∷ r ∷ s ∷ []) = do
  a ← octet p
  b ← octet q
  c ← octet r
  d ← octet s
  some (record { a = a; b = b; c = c; d = d })
four_octets _ = none

unfoldable pub parse_canonical_ipv4 : Bytes → Option Ipv4
parse_canonical_ipv4 text = four_octets (split b'.' text)

unfoldable pub is_public_ipv4 : Ipv4 → Bool
is_public_ipv4 ip =
    not (ip.a == 0 || ip.a == 10 || ip.a == 127 || leb 224 ip.a)
    && not (ip.a == 100 && leb 64 ip.b && leb ip.b 127)
    && not (ip.a == 169 && ip.b == 254)
    && not (ip.a == 172 && leb 16 ip.b && leb ip.b 31)
    && not (ip.a == 192 && (ip.b == 0 || ip.b == 168 || (ip.b == 0 && ip.c == 2)))
    && not (ip.a == 198 && (ip.b == 18 || ip.b == 19 || (ip.b == 51 && ip.c == 100)))
    && not (ip.a == 203 && ip.b == 0 && ip.c == 113)

-- The loop over the digits of a group of sixteen bits.
unfoldable pub group_digits : ℕ → Bytes → Option ℕ
group_digits value [] = some value
group_digits value (c ∷ cs) = do digit ← hex_value c; group_digits (value * 16 + digit) cs

-- The groups of one part between colons.
unfoldable pub side_token : Bool → Bool → Bytes → Option (List ℕ)
side_token ipv4_may_appear last token = do
  unless (is_empty token)
  if contains b'.' token
      then (do
        unless (not ipv4_may_appear || not last)
        ip ← parse_canonical_ipv4 token
        some ((ip.a * 256 + ip.b) ∷ (ip.c * 256 + ip.d) ∷ []))
      else (do unless (ltb 4 (length token)); group ← group_digits 0 token; some (group ∷ []))

unfoldable pub side_tokens : Bool → List Bytes → Option (List ℕ)
side_tokens ipv4_may_appear [] = some []
side_tokens ipv4_may_appear (token ∷ tokens) = do
  groups ← side_token ipv4_may_appear (is_empty tokens) token
  rest ← side_tokens ipv4_may_appear tokens
  some (groups ++ rest)

unfoldable pub parse_ipv6_side : Bytes → Bool → Option (List ℕ)
parse_ipv6_side [] ipv4_may_appear = some []
parse_ipv6_side (c ∷ cs) ipv4_may_appear = side_tokens ipv4_may_appear (split b':' (c ∷ cs))

-- The text before the first double colon and the text after it.
unfoldable pub cut_double_colon : Bytes → Option (Bytes × Bytes)
cut_double_colon [] = none
cut_double_colon (c ∷ []) = none
cut_double_colon (c ∷ d ∷ rest) = elim (c == b':' && d == b':') [
  | true ↦ some ([], rest)
  | false ↦ do (front, back) ← cut_double_colon (d ∷ rest); some (c ∷ front, back)
]

abbrev repeat_zero : ℕ → List ℕ
repeat_zero zero = []
repeat_zero (suc n) = 0 ∷ repeat_zero n

abbrev is_some {ℓ} : {A : Type ℓ} → Option A → Bool
is_some none = false
is_some (some a) = true

-- The eight groups of the two sides.
unfoldable pub ipv6_groups : Bytes → Option (List ℕ)
ipv6_groups text = elim (cut_double_colon text) [
  | none ↦ do left ← parse_ipv6_side text true; unless (not (length left == 8)); some left
  | some (front, back) ↦ do
    unless (is_some (cut_double_colon back))
    left ← parse_ipv6_side front false
    right ← parse_ipv6_side back true
    unless (leb 8 (length left + length right))
    some (left ++ repeat_zero (8 - length left - length right) ++ right)
]

unfoldable pub group_bytes : List ℕ → List ℕ
group_bytes [] = []
group_bytes (g ∷ gs) = (g / 256) ∷ (g % 256) ∷ group_bytes gs

unfoldable pub parse_ipv6 : Bytes → Option (List ℕ)
parse_ipv6 text = do
  unless (is_empty text || contains b'%' text)
  groups ← ipv6_groups text
  unless (not (length groups == 8))
  some (group_bytes groups)

unfoldable pub is_public_ipv6 : List ℕ → Bool
is_public_ipv6 (i ∷ j ∷ k ∷ l ∷ rest) =
    i / 32 == 1 && not (i == 32 && j == 1 && k == 13 && l == 184)
is_public_ipv6 _ = false

abbrev lower_hex : ℕ → ℕ
lower_hex n = if ltb n 10 then b'0' + n else b'a' + (n - 10)

-- std::hex, without padding.
hex_rounds : ℕ → ℕ → Bytes
hex_rounds zero n = []
hex_rounds (suc fuel) n =
    let front = hex_rounds fuel (n / 16) in
    if ltb n 16 then lower_hex n ∷ [] else front ++ lower_hex (n % 16) ∷ []

unfoldable pub hex_text : ℕ → Bytes
unfolding hex_rounds
hex_text n = hex_rounds 8 n

unfoldable pub canonical_ipv6 : List ℕ → Bytes
canonical_ipv6 [] = []
canonical_ipv6 (high ∷ []) = []
canonical_ipv6 (high ∷ low ∷ []) = hex_text (high * 256 + low)
canonical_ipv6 (high ∷ low ∷ next ∷ rest) =
    hex_text (high * 256 + low) ++ b':' ∷ canonical_ipv6 (next ∷ rest)
