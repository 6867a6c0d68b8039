-- ===== src/NetworkLimits.antt =====
-- src/NetworkLimits.cpp: the byte limits on the headers and the body of a response.
pub mod Budget
pub mod Trim
pub mod Body
use lib_auto_updater.Base.{
  ℕ, ◌+◌, ◌-◌, ◌*◌, ◌/◌, ◌==◌, Bool, true, false, not, ◌&&◌, ◌||◌, Option, some, none, List, [],
  ◌∷◌, map, ltb, length, is_empty, if◌then◌else◌,
}
use lib_auto_updater.Base.Text.{Bytes, codes, bytes_eq}
use lib_auto_updater.Error.{
  Result, ok, fail, ◌>>=◌, ◌>>◌, ErrorCode, reject_if, resource_limit_exceeded,
}
use lib_auto_updater.Json.{u64_max}
use lib_auto_updater.Manifest.Fields.{checked_add}
use lib_auto_updater.ManagedPath.{to_lower}
use lib_auto_updater.Version.{is_ascii_digit}

pub record Header : Type 0 where
  pub name : Bytes
  pub value : Bytes

abbrev pub max_network_response_header_bytes : ℕ
max_network_response_header_bytes = 65536

unfoldable pub equals_header_name : Bytes → Bytes → Bool
equals_header_name left right = bytes_eq (map to_lower left) (map to_lower right)

abbrev is_blank : ℕ → Bool
is_blank c = c == b' ' || c == 9

drop_blanks : Bytes → Bytes
drop_blanks [] = []
drop_blanks (c ∷ cs) = if is_blank c then drop_blanks cs else c ∷ cs

drop_last_blanks : Bytes → Bytes
drop_last_blanks [] = []
drop_last_blanks (c ∷ cs) =
    let rest = drop_last_blanks cs in if is_blank c && is_empty rest then [] else c ∷ rest

unfoldable pub trim_optional_whitespace : Bytes → Bytes
unfolding drop_blanks drop_last_blanks
trim_optional_whitespace value = drop_last_blanks (drop_blanks value)

-- The loop over the characters.
unfoldable pub content_digits : ErrorCode → ℕ → Bytes → Result ℕ
content_digits code parsed [] = ok parsed
content_digits code parsed (c ∷ cs) =
    let rest = content_digits code (parsed * 10 + (c - b'0')) cs in
    if not (is_ascii_digit c)
    then fail code
    else if ltb ((u64_max - (c - b'0')) / 10) parsed
    then fail resource_limit_exceeded
    else rest

unfoldable pub parse_content_length : Bytes → ErrorCode → Result ℕ
parse_content_length raw code = do
  let value = trim_optional_whitespace raw
  reject_if (is_empty value) code
  content_digits code 0 value

-- The bytes of a field with its separators, added to a total, where no sum overflows.
unfoldable pub add_field : ℕ → Header → Option ℕ
add_field total header = elim (checked_add (length header.name) (length header.value)) [
  | none ↦ none
  | some both ↦ elim (checked_add both 4) [
    | none ↦ none
    | some field_bytes ↦ checked_add total field_bytes
  ]
]

abbrev pub within_headers : Option ℕ → Result ℕ
within_headers none = fail resource_limit_exceeded
within_headers (some total) = do
  reject_if (ltb max_network_response_header_bytes total) resource_limit_exceeded
  ok total

unfoldable pub headers_budget : ℕ → List Header → Result (Unit {0})
headers_budget total [] = ok tt
headers_budget total (h ∷ hs) = do next ← within_headers (add_field total h); headers_budget next hs

unfoldable pub validate_response_headers_budget : List Header → Result (Unit {0})
validate_response_headers_budget headers = headers_budget 0 headers

abbrev is_some {ℓ} : {A : Type ℓ} → Option A → Bool
is_some none = false
is_some (some a) = true

-- The loop over the headers; `found` is the length so far.
unfoldable pub find_content_length : ErrorCode → Option ℕ → List Header → Result (Option ℕ)
find_content_length code found [] = ok found
find_content_length code found (h ∷ hs) =
    elim (equals_header_name h.name (codes "content-length")) [
      | false ↦ find_content_length code found hs
      | true ↦ do
        reject_if (is_some found) code
        parsed ← parse_content_length h.value code
        find_content_length code (some parsed) hs
    ]

unfoldable pub declared_content_length : List Header → ErrorCode → Result (Option ℕ)
declared_content_length headers code = find_content_length code none headers

abbrev pub exceeds : Option ℕ → ℕ → Bool
exceeds none most = false
exceeds (some n) most = ltb most n

unfoldable pub validate_response_body_budget : List Header → ℕ → ℕ → ErrorCode → Result (Unit {0})
validate_response_body_budget headers actual_bytes max_bytes code = do
  validate_response_headers_budget headers
  declared ← declared_content_length headers code
  reject_if (exceeds declared max_bytes || ltb max_bytes actual_bytes) resource_limit_exceeded

unfoldable pub remaining_transfer_budget : ℕ → ℕ → Result ℕ
remaining_transfer_budget initial_bytes max_total_bytes = do
  reject_if (ltb max_total_bytes initial_bytes) resource_limit_exceeded
  ok (max_total_bytes - initial_bytes)
