-- ===== src/Json.antt =====
-- src/util/Json.h and the accessors of src/util/Json.cpp: JSON values as the program holds them. A
-- string is its bytes and a double the number of its 64 bits, which no modelled code looks into.
use lib_auto_updater.Base.{
  ℕ, ◌-◌, ◌^◌, Bool, true, false, not, Option, none, some, List, [], ◌∷◌, leb, if◌then◌else◌,
}
use lib_auto_updater.Base.Int.{ℤ, pos, negsuc, ltb_ℤ}
use lib_auto_updater.Base.Text.{Bytes, bytes_eq}

mutual
  pub data Json : Type 0 where
    null : Json
    bool : Bool → Json
    int64 : ℤ → Json
    uint64 : ℕ → Json
    double : ℕ → Json
    string : Bytes → Json
    object : Fields → Json
    array : Items → Json

  -- A std::map in the order of its keys.
  pub data Fields : Type 0 where
    no_field : Fields
    field : Bytes → Json → Fields → Fields

  pub data Items : Type 0 where
    no_item : Items
    item : Json → Items → Items

unfoldable pub elements : Items → List Json
elements no_item = []
elements (item j js) = j ∷ elements js

unfoldable pub keys : Fields → List Bytes
keys no_field = []
keys (field k j fs) = k ∷ keys fs

-- std::map::find.
unfoldable pub find_field : Bytes → Fields → Option Json
find_field key no_field = none
find_field key (field k j fs) = if bytes_eq k key then some j else find_field key fs

-- Nothing is found in a value that is no object.
unfoldable pub get : Json → Bytes → Option Json
get (object fs) key = find_field key fs
get _ key = none

abbrev pub is_null : Json → Bool
is_null null = true
is_null _ = false

abbrev pub as_object? : Json → Option Fields
as_object? (object fs) = some fs
as_object? _ = none

abbrev pub as_array? : Json → Option (List Json)
as_array? (array js) = some (elements js)
as_array? _ = none

abbrev pub as_string? : Json → Option Bytes
as_string? (string s) = some s
as_string? _ = none

abbrev pub as_bool? : Json → Option Bool
as_bool? (bool b) = some b
as_bool? _ = none

abbrev pub u64_max : ℕ
u64_max = 2 ^ 64 - 1

abbrev pub i64_max : ℕ
i64_max = 2 ^ 63 - 1

-- asInt64 with its fallback.
unfoldable pub as_int64 : Json → ℤ → ℤ
as_int64 (int64 z) fallback = z
as_int64 (uint64 n) fallback = if leb n i64_max then pos n else fallback
as_int64 _ fallback = fallback

-- asUInt64 with its fallback.
unfoldable pub as_uint64 : Json → ℕ → ℕ
as_uint64 (uint64 n) fallback = n
as_uint64 (int64 (pos n)) fallback = n
as_uint64 _ fallback = fallback

-- isNonNegativeInteger of src/Manifest.cpp.
unfoldable pub is_non_negative_integer : Json → Bool
unfolding as_int64
is_non_negative_integer (uint64 n) = true
is_non_negative_integer (int64 z) = not (ltb_ℤ (as_int64 (int64 z) (negsuc 0)) (pos 0))
is_non_negative_integer _ = false
