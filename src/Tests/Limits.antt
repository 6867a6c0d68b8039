-- ===== src/Tests/Limits.antt =====
-- A response with two headers.
use lib_auto_updater.Base.{◌≤◌, ◌≡◌, ◌↔◌, refl, true, false, List, [], ◌∷◌, all_of, is_empty}
use lib_auto_updater.Base.Text.{codes, bytes_eq}
use lib_auto_updater.Error.{ok, fail, network_error}
use lib_auto_updater.Json.{u64_max}
use lib_auto_updater.Version.{is_ascii_digit, digits_value}
use lib_auto_updater.NetworkLimits.{
  Header, add_field, content_digits, declared_content_length, equals_header_name,
  find_content_length, headers_budget, max_network_response_header_bytes, parse_content_length,
  trim_optional_whitespace, validate_response_body_budget, validate_response_headers_budget,
}
use lib_auto_updater.Manifest.Fields.{checked_add}
use lib_auto_updater.ManagedPath.{to_lower}
use lib_auto_updater.NetworkLimits.Body.{
  FitsDeclared, content_lengths, validate_response_body_budget_iff,
}
use lib_auto_updater.NetworkLimits.Budget.{
  header_bytes, parse_content_length_iff, validate_response_headers_budget_iff,
}

abbrev headers : List Header
headers =
    record { name = codes "Content-Length"; value = codes " 12" }
    ∷ record { name = codes "Server"; value = codes "s" }
    ∷ []

parse_content_length_iff_example : (parse_content_length (codes " 12 ") network_error ≡ ok 12) ↔ (
    (is_empty (trim_optional_whitespace (codes " 12 ")) ≡ false)
    × (all_of is_ascii_digit (trim_optional_whitespace (codes " 12 ")) ≡ true)
    × (digits_value 0 (trim_optional_whitespace (codes " 12 ")) ≡ 12)
    × (12 ≤ u64_max))
parse_content_length_iff_example = parse_content_length_iff (codes " 12 ") network_error 12

validate_response_headers_budget_iff_example :
    (validate_response_headers_budget headers ≡ ok tt)
    ↔ (header_bytes headers ≤ max_network_response_header_bytes)
validate_response_headers_budget_iff_example = validate_response_headers_budget_iff headers

validate_response_body_budget_iff_example :
    (validate_response_body_budget headers 12 20 network_error ≡ ok tt) ↔ (
      (header_bytes headers ≤ max_network_response_header_bytes)
      × (12 ≤ 20)
      × FitsDeclared (content_lengths headers) 20)
validate_response_body_budget_iff_example =
    validate_response_body_budget_iff headers 12 20 network_error

one_length : content_lengths headers ≡ codes " 12" ∷ []
unfolding to_lower bytes_eq
one_length = refl

two_lengths :
    validate_response_body_budget
      (record { name = codes "content-length"; value = codes "3" } ∷ headers)
      3
      20
      network_error
    ≡ fail network_error
unfolding validate_response_body_budget validate_response_headers_budget headers_budget add_field
    checked_add declared_content_length find_content_length equals_header_name parse_content_length
    trim_optional_whitespace content_digits is_ascii_digit to_lower bytes_eq
two_lengths = refl
