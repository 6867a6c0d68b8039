-- ===== src/Version.antt =====
-- src/Version.cpp: semantic versions. A version's numbers are at least 0 and at most INT_MAX, as
-- the parser leaves them; the public constructor with a negative number is not modelled.
pub mod Order
pub mod Numeric
pub mod Decimal
pub mod Padded
pub mod Suffix
pub mod RoundTrip
pub mod Precedence
use lib_auto_updater.Base.{
  ℕ, zero, suc, ◌+◌, ◌-◌, ◌*◌, ◌/◌, ◌%◌, compare, Ordering, Bool, true, false, not, ◌&&◌, ◌||◌,
  Option, none, some, List, [], ◌∷◌, ◌++◌, ltb, leb, ◌==◌, if◌then◌else◌, length, is_empty, all_of,
}
use lib_auto_updater.Base.Compare.{is_lt, is_eq, then_compare}
use lib_auto_updater.Base.Text.{Bytes, codes, bytes_eq, bytes_compare}
use lib_auto_updater.Base.Text.Split.{cut, split}
use lib_auto_updater.Error.{Result, ok, fail, ◌>>=◌, ◌>>◌, reject_if, version_parse_failed}

pub record Version : Type 0 where
  pub major : ℕ
  pub minor : ℕ
  pub patch : ℕ
  pub prerelease : Bytes
  pub build_metadata : Bytes

abbrev pub int_max : ℕ
int_max = 2147483647

unfoldable pub is_ascii_digit : ℕ → Bool
is_ascii_digit c = leb b'0' c && leb c b'9'

unfoldable pub is_identifier_char : ℕ → Bool
unfolding is_ascii_digit
is_identifier_char c =
    is_ascii_digit c || (leb b'A' c && leb c b'Z') || (leb b'a' c && leb c b'z') || (c == b'-')

unfoldable pub is_numeric_identifier : Bytes → Bool
is_numeric_identifier text = not (is_empty text) && all_of is_ascii_digit text

-- size() > 1 && front() == '0'
unfoldable pub has_leading_zero : Bytes → Bool
has_leading_zero [] = false
has_leading_zero (c ∷ []) = false
has_leading_zero (c ∷ d ∷ rest) = c == b'0'

-- One round of the loop of `validDotIdentifiers`.
valid_identifier : Bool → Bytes → Bool
valid_identifier reject part =
    not (is_empty part)
    && all_of is_identifier_char part
    && not (reject && is_numeric_identifier part && has_leading_zero part)

unfoldable pub valid_dot_identifiers : Bytes → Bool → Bool
unfolding valid_identifier
valid_dot_identifiers text reject =
    not (is_empty text) && all_of (valid_identifier reject) (split b'.' text)

unfoldable pub compare_numeric_identifier : Bytes → Bytes → Ordering
compare_numeric_identifier lhs rhs =
    then_compare (compare (length lhs) (length rhs)) (bytes_compare lhs rhs)

-- std::from_chars in base 10: the value of the digits, without a bound.
unfoldable pub digits_value : ℕ → Bytes → ℕ
digits_value acc [] = acc
digits_value acc (c ∷ cs) = digits_value (acc * 10 + (c - b'0')) cs

unfoldable pub parse_number : Bytes → Result ℕ
parse_number text = do
  reject_if (is_empty text) version_parse_failed
  reject_if (has_leading_zero text) version_parse_failed
  reject_if (not (all_of is_ascii_digit text)) version_parse_failed
  reject_if (ltb int_max (digits_value 0 text)) version_parse_failed
  ok (digits_value 0 text)

-- std::to_chars in base 10 with as many rounds as `fuel` allows.
decimal_rounds : ℕ → ℕ → Bytes
decimal_rounds zero n = []
decimal_rounds (suc fuel) n =
    let front = decimal_rounds fuel (n / 10) in
    if ltb n 10 then (b'0' + n) ∷ [] else front ++ (b'0' + n % 10) ∷ []

-- 32 places, as the buffer has.
unfoldable pub decimal_text : ℕ → Bytes
unfolding decimal_rounds
decimal_text n = decimal_rounds 32 n

-- One round of the loop of `comparePrerelease`.
unfoldable pub compare_identifier : Bytes → Bytes → Ordering
compare_identifier l r =
    if is_numeric_identifier l && is_numeric_identifier r
    then compare_numeric_identifier l r
    else if is_numeric_identifier l
    then Ordering.lt
    else if is_numeric_identifier r
    then Ordering.gt
    else bytes_compare l r

-- The loop of `comparePrerelease` and the comparison of the sizes after it.
unfoldable pub compare_identifiers : List Bytes → List Bytes → Ordering
compare_identifiers [] [] = Ordering.eq
compare_identifiers [] (r ∷ rs) = Ordering.lt
compare_identifiers (l ∷ ls) [] = Ordering.gt
compare_identifiers (l ∷ ls) (r ∷ rs) =
    then_compare (compare_identifier l r) (compare_identifiers ls rs)

unfoldable pub compare_prerelease : Bytes → Bytes → Ordering
compare_prerelease lhs rhs =
    if is_empty lhs && is_empty rhs
    then Ordering.eq
    else if is_empty lhs
    then Ordering.gt
    else if is_empty rhs
    then Ordering.lt
    else compare_identifiers (split b'.' lhs) (split b'.' rhs)

-- The text before a mark and the identifiers after it, which must be valid where the mark stands.
checked_suffix : Bool → Bytes × Option Bytes → Result (Bytes × Bytes)
checked_suffix reject (front, none) = ok (front, [])
checked_suffix reject (front, some rest) = do
  reject_if (not (valid_dot_identifiers rest reject)) version_parse_failed
  ok (front, rest)

unfoldable pub take_suffix : ℕ → Bool → Bytes → Result (Bytes × Bytes)
unfolding checked_suffix
take_suffix mark reject text = checked_suffix reject (cut mark text)

unfoldable pub parse_core : List Bytes → Bytes → Bytes → Result Version
parse_core (a ∷ b ∷ c ∷ []) prerelease build = do
  major ← parse_number a
  minor ← parse_number b
  patch ← parse_number c
  ok (record {
    major = major;
    minor = minor;
    patch = patch;
    prerelease = prerelease;
    build_metadata = build;
  })
parse_core _ prerelease build = fail version_parse_failed

unfoldable pub parse : Bytes → Result Version
parse text = do
  reject_if (is_empty text) version_parse_failed
  with_build ← take_suffix b'+' false text
  with_prerelease ← take_suffix b'-' true with_build.0
  parse_core (split b'.' with_prerelease.0) with_prerelease.1 with_build.1

-- A mark and the text behind it, where there is such a text.
abbrev pub marked : ℕ → Bytes → Bytes
marked mark [] = []
marked mark (c ∷ cs) = mark ∷ c ∷ cs

unfoldable pub to_string : Version → Bytes
to_string v =
    (decimal_text v.major ++ b'.' ∷ decimal_text v.minor ++ b'.' ∷ decimal_text v.patch)
    ++ marked b'-' v.prerelease
    ++ marked b'+' v.build_metadata

unfoldable pub version_eq : Version → Version → Bool
version_eq l r =
    l.major == r.major
    && l.minor == r.minor
    && l.patch == r.patch
    && bytes_eq l.prerelease r.prerelease

unfoldable pub version_lt : Version → Version → Bool
version_lt l r =
    if not (l.major == r.major)
    then ltb l.major r.major
    else if not (l.minor == r.minor)
    then ltb l.minor r.minor
    else if not (l.patch == r.patch)
    then ltb l.patch r.patch
    else is_lt (compare_prerelease l.prerelease r.prerelease)

-- operator> and operator<= and operator>= by operator<.
abbrev pub version_le : Version → Version → Bool
version_le l r = not (version_lt r l)
