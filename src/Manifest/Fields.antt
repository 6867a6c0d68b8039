-- ===== src/Manifest/Fields.antt =====
-- The helpers of src/Manifest.cpp that read one field of an object.
use lib_auto_updater.Base.{
  ℕ, ◌+◌, ◌-◌, Bool, not, ◌&&◌, ◌||◌, Option, none, some, List, [], any_of, all_of, ltb, leb, ◌==◌,
  if◌then◌else◌, length, is_empty,
}
use lib_auto_updater.Base.Text.{Bytes, codes, bytes_eq}
use lib_auto_updater.Error.{
  Result, ok, fail, ◌>>=◌, ◌>>◌, reject_if, is_ok, manifest_parse_failed, resource_limit_exceeded,
}
use lib_auto_updater.Version.{Version, parse}
use lib_auto_updater.Rfc3339.{parse_rfc3339}
use lib_auto_updater.Json.{
  Json, Fields, get, keys, as_object?, as_string?, as_bool?, is_null, is_non_negative_integer,
  as_uint64, u64_max,
}

-- A value of the wanted kind, or the parse error.
abbrev pub wanted {ℓ} : {A : Type ℓ} → Option A → Result A
wanted none = fail manifest_parse_failed
wanted (some a) = ok a

-- A field that may be missing.
abbrev or_default {ℓ} : {A : Type ℓ} → (Json → Option A) → A → Option Json → Result A
or_default kind fallback none = ok fallback
or_default kind fallback (some j) = wanted (kind j)

unfoldable pub required_string : Json → Bytes → Result Bytes
required_string json key = do value ← wanted (get json key); wanted (as_string? value)

unfoldable pub optional_string : Json → Bytes → Result Bytes
optional_string json key = or_default as_string? [] (get json key)

unfoldable pub optional_bool : Json → Bytes → Bool → Result Bool
optional_bool json key fallback = or_default as_bool? fallback (get json key)

abbrev valid_timestamp : Option Json → Result (Unit {0})
valid_timestamp none = ok tt
valid_timestamp (some j) = do
  text ← wanted (as_string? j)
  reject_if (is_empty text) manifest_parse_failed
  reject_if (not (is_ok (parse_rfc3339 text))) manifest_parse_failed

unfoldable pub validate_optional_timestamp : Json → Bytes → Result (Unit {0})
validate_optional_timestamp json key = valid_timestamp (get json key)

-- asObject of what is no object is the empty object.
abbrev keys_of : Option Fields → List Bytes
keys_of none = []
keys_of (some fs) = keys fs

unfoldable pub require_only_keys : Json → List Bytes → Result (Unit {0})
require_only_keys json allowed =
    reject_if (not (all_of (λ key. any_of (bytes_eq key) allowed) (keys_of (as_object? json))))
      manifest_parse_failed

abbrev version_or_none : Option Json → Result (Option Version)
version_or_none none = ok none
version_or_none (some j) =
    if is_null j
    then ok none
    else (do text ← wanted (as_string? j); version ← parse text; ok (some version))

unfoldable pub optional_version : Json → Bytes → Result (Option Version)
optional_version json key = version_or_none (get json key)

-- isLowerHexSha256 of src/util/Sha256.cpp.
unfoldable pub is_lower_hex_sha256 : Bytes → Bool
is_lower_hex_sha256 value =
    length value == 64
    && all_of (λ c. (leb b'0' c && leb c b'9') || (leb b'a' c && leb c b'f')) value

unfoldable pub artifact_size : Json → ℕ → Result ℕ
artifact_size json max_artifact_bytes = do
  value ← wanted (get json (codes "size"))
  reject_if (not (is_non_negative_integer value)) manifest_parse_failed
  reject_if (ltb max_artifact_bytes (as_uint64 value 0)) resource_limit_exceeded
  ok (as_uint64 value 0)

-- The sum of two uint64, where it is one.
unfoldable pub checked_add : ℕ → ℕ → Option ℕ
checked_add left right = if ltb (u64_max - left) right then none else some (left + right)
