-- ===== src/Journal/Fields.antt =====
-- The fields of the records of updater/ApplyJournal.cpp, from the parsed JSON value on.
use lib_auto_updater.Base.{
  ℕ, ◌+◌, ◌-◌, ◌*◌, ◌/◌, Bool, not, ◌&&◌, ◌||◌, Option, none, some, List, [], ◌∷◌, all_of, any_of,
  ltb, ◌==◌, is_empty, if◌then◌else◌,
}
use lib_auto_updater.Base.Text.{Bytes, codes, bytes_eq, bytes_lt}
use lib_auto_updater.Error.{Result, ok, fail, ◌>>=◌, ◌>>◌, reject_if, apply_failed}
use lib_auto_updater.Version.{is_ascii_digit, has_leading_zero}
use lib_auto_updater.Json.{
  Json, string, object, Fields, no_field, field, get, keys, as_object?, as_string?, as_bool?,
  u64_max,
}

-- std::map::emplace: a key that is there keeps its value.
unfoldable pub emplace : Bytes → Json → Fields → Fields
emplace key value no_field = field key value no_field
emplace key value (field k v fs) =
    let rest = emplace key value fs in
    if bytes_eq key k
    then field k v fs
    else if bytes_lt key k
    then field key value (field k v fs)
    else field k v rest

-- The fields that a sequence of emplaces gives.
unfoldable pub emplaced : List (Bytes × Json) → Fields → Fields
emplaced [] fs = fs
emplaced ((key, value) ∷ rest) fs = emplaced rest (emplace key value fs)

abbrev pub needed {ℓ} : {A : Type ℓ} → Option A → Result A
needed none = fail apply_failed
needed (some a) = ok a

unfoldable pub require_only_keys : Fields → List Bytes → Result (Unit {0})
require_only_keys fs allowed =
    reject_if (not (all_of (λ key. any_of (bytes_eq key) allowed) (keys fs))) apply_failed

unfoldable pub required_string : Json → Bytes → Result Bytes
required_string json key = do value ← needed (get json key); needed (as_string? value)

unfoldable pub required_bool : Json → Bytes → Result Bool
required_bool json key = do value ← needed (get json key); needed (as_bool? value)

-- The loop over the characters.
unfoldable pub decimal_digits : ℕ → Bytes → Result ℕ
decimal_digits value [] = ok value
decimal_digits value (c ∷ cs) = do
  reject_if (not (is_ascii_digit c)) apply_failed
  reject_if (ltb ((u64_max - (c - b'0')) / 10) value) apply_failed
  decimal_digits (value * 10 + (c - b'0')) cs

unfoldable pub decimal_value : Bytes → Result ℕ
decimal_value text = do
  reject_if (is_empty text) apply_failed
  reject_if (has_leading_zero text) apply_failed
  decimal_digits 0 text

unfoldable pub parse_decimal : Json → Bytes → Result ℕ
parse_decimal json key = do text ← required_string json key; decimal_value text

pub record JournalError : Type 0 where
  pub code : Bytes
  pub message : Bytes

-- An error has both parts or none.
abbrev pub is_incomplete : Bytes → Bytes → Bool
is_incomplete code message =
    (is_empty code && not (is_empty message)) || (not (is_empty code) && is_empty message)

unfoldable pub error_to_json : JournalError → Json
error_to_json error = object (
    emplaced ((codes "code", string error.code) ∷ (codes "message", string error.message) ∷ [])
      no_field)

unfoldable pub error_from_json : Json → Bytes → Result JournalError
error_from_json json key = do
  value ← needed (get json key)
  fields ← needed (as_object? value)
  require_only_keys fields (codes "code" ∷ codes "message" ∷ [])
  code ← required_string value (codes "code")
  message ← required_string value (codes "message")
  reject_if (is_incomplete code message) apply_failed
  ok (record { code = code; message = message })

-- What parseObject checks of the parsed value: an object with a version that is supported.
abbrev supported_version : List ℕ → Json → Result ℕ
supported_version supported (Json.uint64 n) =
    if any_of (λ m. m == n) supported then ok n else fail apply_failed
supported_version supported _ = fail apply_failed

unfoldable pub object_of : Json → List ℕ → Result (Fields × ℕ)
object_of json supported = do
  fields ← needed (as_object? json)
  schema ← needed (get json (codes "schemaVersion"))
  version ← supported_version supported schema
  ok (fields, version)
