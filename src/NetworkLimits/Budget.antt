-- ===== src/NetworkLimits/Budget.antt =====
-- The checked sums and numbers are the mathematical ones, within their limits.
use lib_auto_updater.Base.{
  ℕ, ◌+◌, ◌-◌, ◌*◌, ◌≤◌, ◌≡◌, ◌↔◌, refl, true, false, List, [], ◌∷◌, arith, length, all_of,
  is_empty,
}
use lib_auto_updater.Base.Text.{Bytes}
use lib_auto_updater.Error.{ok, ErrorCode, >>=-eq-ok, reject_if, reject_if-eq-ok}
use lib_auto_updater.Json.{u64_max}
use lib_auto_updater.Manifest.Fields.{checked_add}
use lib_auto_updater.Version.{is_ascii_digit, digits_value}
use lib_auto_updater.NetworkLimits.{
  Header, add_field, content_digits, headers_budget, max_network_response_header_bytes,
  parse_content_length, trim_optional_whitespace, validate_response_headers_budget,
}

pub digits_value-grows : (acc : ℕ) (cs : Bytes) → acc ≤ digits_value acc cs
unfolding digits_value
digits_value-grows acc [] = omega arith
digits_value-grows acc (c ∷ cs) = omega (arith, digits_value-grows (acc * 10 + (c - b'0')) cs)

content_digits-eq-ok :
    (code : ErrorCode) (acc n : ℕ) (cs : Bytes)
    → acc ≤ u64_max
    → content_digits code acc cs ≡ ok n
    → (all_of is_ascii_digit cs ≡ true) × (digits_value acc cs ≡ n) × (n ≤ u64_max)
unfolding content_digits digits_value is_ascii_digit
content_digits-eq-ok code acc n [] le h = ground arith
content_digits-eq-ok code acc n (c ∷ cs) le h =
    ground (arith, content_digits-eq-ok code (acc * 10 + (c - b'0')) n cs)

eq-ok-content_digits :
    (code : ErrorCode) (acc : ℕ) (cs : Bytes)
    → all_of is_ascii_digit cs ≡ true
    → digits_value acc cs ≤ u64_max
    → content_digits code acc cs ≡ ok (digits_value acc cs)
unfolding content_digits digits_value
eq-ok-content_digits code acc [] d le = refl
eq-ok-content_digits code acc (c ∷ cs) d le = ground (
  arith,
  eq-ok-content_digits code (acc * 10 + (c - b'0')) cs,
  digits_value-grows (acc * 10 + (c - b'0')) cs,
)

abbrev pub header_bytes : List Header → ℕ
header_bytes [] = 0
header_bytes (h ∷ hs) = length h.name + length h.value + 4 + header_bytes hs

headers_budget_iff :
    (total : ℕ) (hs : List Header)
    → total ≤ max_network_response_header_bytes
    → (headers_budget total hs ≡ ok tt)
      ↔ (total + header_bytes hs ≤ max_network_response_header_bytes)
unfolding headers_budget add_field checked_add
headers_budget_iff total [] le = ground arith
headers_budget_iff total (h ∷ hs) le =
    ground (arith, headers_budget_iff (total + (length h.name + length h.value + 4)) hs)

-- A Content-Length is accepted exactly if, without the blanks round it, it has digits only and at
-- least one, and its number, which is the result, fits 64 bits.
pub parse_content_length_iff :
    (raw : Bytes) (code : ErrorCode) (n : ℕ)
    → (parse_content_length raw code ≡ ok n) ↔ (
        (is_empty (trim_optional_whitespace raw) ≡ false)
        × (all_of is_ascii_digit (trim_optional_whitespace raw) ≡ true)
        × (digits_value 0 (trim_optional_whitespace raw) ≡ n)
        × (n ≤ u64_max))
unfolding parse_content_length
parse_content_length_iff raw code n = (
  λ h.
      let text = trim_optional_whitespace raw in
      let (u, e, h1) = >>=-eq-ok (reject_if (is_empty text) code) _ h in
      let (digits, value, fits) = content_digits-eq-ok code 0 n text (omega arith) h1 in
      (reject_if-eq-ok (is_empty text) code e, digits, value, fits),
  λ h.
      ground
        (arith, h.0, h.1, h.2, h.3, eq-ok-content_digits code 0 (trim_optional_whitespace raw) h.1),
)

-- The headers pass exactly if their names and values, with four bytes for each field, are within the
-- limit as a sum of natural numbers.
pub validate_response_headers_budget_iff :
    (headers : List Header)
    → (validate_response_headers_budget headers ≡ ok tt)
      ↔ (header_bytes headers ≤ max_network_response_header_bytes)
unfolding validate_response_headers_budget
validate_response_headers_budget_iff headers =
    let e = headers_budget_iff 0 headers (omega arith) in
    (λ h. let fits = e.0 h in omega (arith, fits), λ h. e.1 (omega (arith, h)))
