-- ===== src/Tests/Versions.antt =====
-- Versions: the order, the numbers and the texts.
use lib_auto_updater.Base.{◌≡◌, refl, true, false, [], ◌⊎◌}
use lib_auto_updater.Base.Text.{Bytes, codes, bytes_eq, bytes_compare}
use lib_auto_updater.Base.Compare.{is_lt}
use lib_auto_updater.Base.Text.Split.{cut, split}
use lib_auto_updater.Error.{ok}
use lib_auto_updater.Version.{
  Version, compare_prerelease, compare_identifiers, compare_identifier, take_suffix,
  valid_dot_identifiers, is_identifier_char, is_numeric_identifier, has_leading_zero, parse_core,
  digits_value, is_ascii_digit, version_lt, version_eq, parse, to_string, parse_number,
  compare_numeric_identifier,
}
use lib_auto_updater.Version.Order.{trichotomy, lt_trans}
use lib_auto_updater.Version.RoundTrip.{IsValid, parse-to_string, to_string-parse}
use lib_auto_updater.Version.Precedence.{precedence, version_lt-precedence}

abbrev alpha : Version
alpha = record {
  major = 1;
  minor = 2;
  patch = 3;
  prerelease = codes "alpha.2";
  build_metadata = codes "b7";
}

abbrev alpha_ten : Version
alpha_ten = record {
  major = 1;
  minor = 2;
  patch = 3;
  prerelease = codes "alpha.10";
  build_metadata = [];
}

abbrev release : Version
release = record { major = 1; minor = 2; patch = 3; prerelease = []; build_metadata = [] }

alpha_parses : parse (codes "1.2.3-alpha.2+b7") ≡ ok alpha
unfolding parse take_suffix valid_dot_identifiers is_identifier_char is_numeric_identifier
    has_leading_zero parse_core parse_number digits_value is_ascii_digit cut split
alpha_parses = refl

alpha_ten_parses : parse (codes "1.2.3-alpha.10") ≡ ok alpha_ten
unfolding parse take_suffix valid_dot_identifiers is_identifier_char is_numeric_identifier
    has_leading_zero parse_core parse_number digits_value is_ascii_digit cut split
alpha_ten_parses = refl

alpha-IsValid : IsValid alpha
alpha-IsValid = (to_string-parse (codes "1.2.3-alpha.2+b7") alpha alpha_parses).1

alpha_ten-IsValid : IsValid alpha_ten
alpha_ten-IsValid = (to_string-parse (codes "1.2.3-alpha.10") alpha_ten alpha_ten_parses).1

alpha_lt : version_lt alpha alpha_ten ≡ true
unfolding version_lt compare_prerelease compare_identifiers compare_identifier
    compare_numeric_identifier is_numeric_identifier split is_ascii_digit bytes_eq bytes_compare
alpha_lt = refl

alpha_ten_lt : version_lt alpha_ten release ≡ true
unfolding version_lt compare_prerelease bytes_eq
alpha_ten_lt = refl

lt_trans_example : version_lt alpha release ≡ true
lt_trans_example = lt_trans alpha alpha_ten release alpha_lt alpha_ten_lt

trichotomy_example :
    ((version_lt alpha release ≡ true)
      × (version_eq alpha release ≡ false)
      × (version_lt release alpha ≡ false))
    ⊎ (((version_lt alpha release ≡ false)
          × (version_eq alpha release ≡ true)
          × (version_lt release alpha ≡ false))
        ⊎ ((version_lt alpha release ≡ false)
            × (version_eq alpha release ≡ false)
            × (version_lt release alpha ≡ true)))
trichotomy_example = trichotomy alpha release

parse-to_string_example : parse (to_string alpha) ≡ ok alpha
parse-to_string_example = parse-to_string alpha alpha-IsValid

to_string-parse_example : (to_string alpha ≡ codes "1.2.3-alpha.2+b7") × IsValid alpha
to_string-parse_example = to_string-parse (codes "1.2.3-alpha.2+b7") alpha alpha_parses

number_2026 : parse_number (codes "2026") ≡ ok 2026
unfolding parse_number has_leading_zero is_ascii_digit digits_value
number_2026 = refl

version_lt-precedence_example : version_lt alpha alpha_ten ≡ is_lt (precedence alpha alpha_ten)
version_lt-precedence_example =
    version_lt-precedence alpha alpha_ten alpha-IsValid alpha_ten-IsValid

-- Two numbers that no machine integer holds.
abbrev long_number : Bytes
long_number = codes "99999999999999999999999"

abbrev longer_number : Bytes
longer_number = codes "100000000000000000000000"
