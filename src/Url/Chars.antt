-- ===== src/Url/Chars.antt =====
-- The character classes and the percent escapes of src/util/UrlUtil.cpp.
use lib_auto_updater.Base.{
  ℕ, ◌+◌, ◌-◌, ◌*◌, ◌%◌, Bool, true, false, not, ◌&&◌, ◌||◌, Option, none, some, [], ◌∷◌, map, ltb,
  leb, ◌==◌, if◌then◌else◌, any_of,
}
use lib_auto_updater.Base.Text.{Bytes, codes}
use lib_auto_updater.Error.{Result, ok, fail, ◌>>=◌, ◌>>◌, reject_if, security_policy_violation}
use lib_auto_updater.ManagedPath.{to_lower}

unfoldable pub is_control_or_space : ℕ → Bool
is_control_or_space c = leb c 32 || c == 127

unfoldable pub is_control : ℕ → Bool
is_control c = ltb c 32 || c == 127

unfoldable pub hex_value : ℕ → Option ℕ
hex_value c =
    if leb b'0' c && leb c b'9'
    then some (c - b'0')
    else if leb b'a' c && leb c b'f'
    then some (10 + (c - b'a'))
    else if leb b'A' c && leb c b'F'
    then some (10 + (c - b'A'))
    else none

-- The digit for the low four bits.
unfoldable pub upper_hex : ℕ → ℕ
upper_hex value = if ltb (value % 16) 10 then b'0' + value % 16 else b'A' + (value % 16 - 10)

abbrev pub is_ascii_alpha : ℕ → Bool
is_ascii_alpha c = (leb b'A' c && leb c b'Z') || (leb b'a' c && leb c b'z')

abbrev pub is_digit : ℕ → Bool
is_digit c = leb b'0' c && leb c b'9'

abbrev pub is_ascii_alnum : ℕ → Bool
is_ascii_alnum c = is_ascii_alpha c || is_digit c

unfoldable pub is_unreserved : ℕ → Bool
is_unreserved c = is_ascii_alnum c || c == b'-' || c == b'.' || c == b'_' || c == b'~'

unfoldable pub is_sub_delimiter : ℕ → Bool
is_sub_delimiter c = any_of (λ d. c == d) (codes "!$&'()*+,;=")

pub data UriComponent : Type 0 where
  path_segment query : UriComponent

unfoldable pub is_allowed_raw_character : ℕ → UriComponent → Bool
is_allowed_raw_character c path_segment =
    is_unreserved c || is_sub_delimiter c || c == b':' || c == b'@'
is_allowed_raw_character c query =
    is_unreserved c || is_sub_delimiter c || c == b':' || c == b'@' || c == b'/' || c == b'?'

unfoldable pub lower_ascii : Bytes → Bytes
lower_ascii = map to_lower

-- A character that no URL has.
unfoldable pub is_forbidden : ℕ → Bool
unfolding is_control_or_space
is_forbidden c = is_control_or_space c || c == b'\\' || leb 128 c

-- One round of the loop at a character that begins no escape; `rest` is what the later rounds give.
unfoldable pub raw_character : UriComponent → ℕ → Result Bytes → Result Bytes
raw_character component c rest = do
  reject_if (is_forbidden c) security_policy_violation
  reject_if (not (is_allowed_raw_character c component)) security_policy_violation
  output ← rest
  ok (c ∷ output)

abbrev is_path_segment : UriComponent → Bool
is_path_segment path_segment = true
is_path_segment query = false

-- A byte that must not be escaped.
unfoldable pub is_refused_escape : UriComponent → ℕ → Bool
is_refused_escape component decoded =
    is_control decoded || decoded == b'\\' || (is_path_segment component && decoded == b'/')

-- The escape of a byte whose digits are known.
unfoldable pub decoded_escape : UriComponent → ℕ → ℕ → Result Bytes → Result Bytes
decoded_escape component high low rest = do
  let decoded = high * 16 + low
  reject_if (is_refused_escape component decoded) security_policy_violation
  output ← rest
  ok (
      if is_unreserved decoded
      then decoded ∷ output
      else b'%' ∷ upper_hex high ∷ upper_hex low ∷ output)

-- One round at an escape.
unfoldable pub escape : UriComponent → ℕ → ℕ → Result Bytes → Result Bytes
escape component h l rest = elim (hex_value h) [
  | none ↦ fail security_policy_violation
  | some high ↦ elim (hex_value l) [
    | none ↦ fail security_policy_violation
    | some low ↦ decoded_escape component high low rest
  ]
]

unfoldable pub normalize_percent_encoded : UriComponent → Bytes → Result Bytes
normalize_percent_encoded component [] = ok []
normalize_percent_encoded component (c ∷ []) = elim (c == b'%') [
  | true ↦ fail security_policy_violation
  | false ↦ raw_character component c (ok [])
]
normalize_percent_encoded component (c ∷ d ∷ []) = elim (c == b'%') [
  | true ↦ fail security_policy_violation
  | false ↦ raw_character component c (normalize_percent_encoded component (d ∷ []))
]
normalize_percent_encoded component (c ∷ h ∷ l ∷ rest) = elim (c == b'%') [
  | true ↦ escape component h l (normalize_percent_encoded component rest)
  | false ↦ raw_character component c (normalize_percent_encoded component (h ∷ l ∷ rest))
]

abbrev has_value : ℕ → Option ℕ → Bool
has_value n none = false
has_value n (some m) = m == n

unfoldable pub contains_encoded_dot : Bytes → Bool
contains_encoded_dot (a ∷ b ∷ c ∷ rest) =
    (a == b'%' && has_value 2 (hex_value b) && has_value 14 (hex_value c))
    || contains_encoded_dot (b ∷ c ∷ rest)
contains_encoded_dot _ = false

abbrev decoded_byte : ℕ → ℕ → Option ℕ
decoded_byte h l = elim (hex_value h) [
  | none ↦ none
  | some high ↦ elim (hex_value l) [ none ↦ none | some low ↦ some (high * 16 + low) ]
]

unfoldable pub percent_decode : Bytes → Bytes
percent_decode [] = []
percent_decode (c ∷ []) = c ∷ []
percent_decode (c ∷ d ∷ []) = c ∷ percent_decode (d ∷ [])
percent_decode (c ∷ h ∷ l ∷ rest) = elim (c == b'%') [
  | true ↦ elim (decoded_byte h l) [
    | some byte ↦ byte ∷ percent_decode rest
    | none ↦ c ∷ percent_decode (h ∷ l ∷ rest)
  ]
  | false ↦ c ∷ percent_decode (h ∷ l ∷ rest)
]
