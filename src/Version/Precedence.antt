-- ===== src/Version/Precedence.antt =====
-- Semantic Versioning 2.0.0, section 11, written over the numbers and identifiers themselves, and
-- the comparison of Version.cpp as an implementation of it.
use lib_auto_updater.Base.{
  ℕ, ◌≡◌, refl, ap₂, compare, Ordering, true, List, [], ◌∷◌, map, arith, all_of, if◌then◌else◌,
  &&_true,
}
use lib_auto_updater.Base.Compare.{lex, then_compare, is_lt}
use lib_auto_updater.Base.Text.{Bytes, bytes_compare}
use lib_auto_updater.Base.Text.Split.{split}
use lib_auto_updater.Version.{
  Version, version_lt, compare_identifier, compare_identifiers, compare_prerelease,
  valid_identifier, valid_dot_identifiers, is_numeric_identifier, digits_value,
}
use lib_auto_updater.Version.Numeric.{compare_numeric_identifier-value}
use lib_auto_updater.Version.RoundTrip.{IsValid}
use lib_auto_updater.Version.Suffix.{IsSuffix}

pub data Identifier : Type 0 where
  numeric : ℕ → Identifier
  alphanumeric : Bytes → Identifier

abbrev pub classify : Bytes → Identifier
classify t = if is_numeric_identifier t then numeric (digits_value 0 t) else alphanumeric t

-- Numbers by size, text in byte order, and a number before any text.
abbrev pub identifier_precedence : Identifier → Identifier → Ordering
identifier_precedence (numeric m) (numeric n) = compare m n
identifier_precedence (numeric m) (alphanumeric t) = Ordering.lt
identifier_precedence (alphanumeric s) (numeric n) = Ordering.gt
identifier_precedence (alphanumeric s) (alphanumeric t) = bytes_compare s t

-- A release comes after its prereleases; these go by their identifiers, left to right.
abbrev pub prerelease_precedence : Bytes → Bytes → Ordering
prerelease_precedence [] [] = Ordering.eq
prerelease_precedence [] (c ∷ cs) = Ordering.gt
prerelease_precedence (c ∷ cs) [] = Ordering.lt
prerelease_precedence (c ∷ cs) (d ∷ ds) =
    lex identifier_precedence (map classify (split b'.' (c ∷ cs)))
      (map classify (split b'.' (d ∷ ds)))

abbrev pub precedence : Version → Version → Ordering
precedence a b = then_compare (compare a.major b.major) (
    then_compare (compare a.minor b.minor)
      (then_compare (compare a.patch b.patch) (prerelease_precedence a.prerelease b.prerelease)))

compare_identifier-precedence :
    (l r : Bytes)
    → valid_identifier true l ≡ true
    → valid_identifier true r ≡ true
    → compare_identifier l r ≡ identifier_precedence (classify l) (classify r)
unfolding compare_identifier valid_identifier
compare_identifier-precedence l r h k = ground (arith, compare_numeric_identifier-value l r)

compare_identifiers-precedence :
    (ls rs : List Bytes)
    → all_of (valid_identifier true) ls ≡ true
    → all_of (valid_identifier true) rs ≡ true
    → compare_identifiers ls rs ≡ lex identifier_precedence (map classify ls) (map classify rs)
unfolding compare_identifiers
compare_identifiers-precedence [] [] h k = refl
compare_identifiers-precedence [] (r ∷ rs) h k = refl
compare_identifiers-precedence (l ∷ ls) [] h k = refl
compare_identifiers-precedence (l ∷ ls) (r ∷ rs) h k =
    let (hl, hls) = &&_true (valid_identifier true l) _ h in
    let (kr, krs) = &&_true (valid_identifier true r) _ k in
    ap₂ then_compare (compare_identifier-precedence l r hl kr)
      (compare_identifiers-precedence ls rs hls krs)

compare_prerelease-precedence :
    (l r : Bytes)
    → IsSuffix true l
    → IsSuffix true r
    → compare_prerelease l r ≡ prerelease_precedence l r
unfolding compare_prerelease valid_dot_identifiers
compare_prerelease-precedence [] [] h k = refl
compare_prerelease-precedence [] (d ∷ ds) h k = refl
compare_prerelease-precedence (c ∷ cs) [] h k = refl
compare_prerelease-precedence (c ∷ cs) (d ∷ ds) h k =
    compare_identifiers-precedence (split b'.' (c ∷ cs)) (split b'.' (d ∷ ds)) h k

-- On valid versions `operator<` is the precedence of the specification; numbers of any length are
-- compared exactly.
pub version_lt-precedence :
    (a b : Version) → IsValid a → IsValid b → version_lt a b ≡ is_lt (precedence a b)
unfolding version_lt
version_lt-precedence a b h k = ground (
  arith,
  compare_prerelease-precedence a.prerelease b.prerelease h.prerelease_valid k.prerelease_valid,
)
