-- ===== src/ManagedPath.antt =====
-- src/util/PathUtil.cpp: the paths that the updater may touch. A path is its bytes. A
-- std::filesystem::path is a list of components; its operator/= puts an absolute operand (one that
-- starts with a slash) in place of the path, and appends any other.
pub mod Covers
pub mod Sorted
pub mod Device
pub mod Segments
pub mod Targets
pub mod Join
pub mod Whitelist
use lib_auto_updater.Base.{
  ℕ, ◌+◌, ◌-◌, Ordering, Bool, true, false, not, ◌&&◌, ◌||◌, Option, none, some, List, [], ◌∷◌,
  ◌++◌, map, ltb, leb, ◌==◌, if◌then◌else◌, length, is_empty, all_of, any_of, last?, get_elem?,
}
use lib_auto_updater.Base.Compare.{is_lt}
use lib_auto_updater.Base.Text.{Bytes, codes, bytes_eq, bytes_lt, starts_with}
use lib_auto_updater.Base.Text.Split.{cut, split}
use lib_auto_updater.Error.{
  Result, ok, fail, ◌>>=◌, ◌>>◌, reject_if, path_traversal_rejected, security_policy_violation,
}

-- std::isalpha in the C locale.
abbrev is_alpha : ℕ → Bool
is_alpha c = (leb b'A' c && leb c b'Z') || (leb b'a' c && leb c b'z')

-- std::toupper in the C locale.
unfoldable pub to_upper : ℕ → ℕ
to_upper c = if leb b'a' c && leb c b'z' then c - 32 else c

-- `character - 'A' + 'a'` on capitals.
unfoldable pub to_lower : ℕ → ℕ
to_lower c = if leb b'A' c && leb c b'Z' then c - b'A' + b'a' else c

abbrev pub contains : ℕ → Bytes → Bool
contains d = any_of (λ c. c == d)

unfoldable pub has_drive_prefix : Bytes → Bool
has_drive_prefix (a ∷ b ∷ rest) = is_alpha a && b == b':'
has_drive_prefix _ = false

is_one_of : Bytes → List Bytes → Bool
is_one_of text = any_of (bytes_eq text)

-- COM1 to COM9 and LPT1 to LPT9.
is_port_name : Bytes → Bool
is_port_name (a ∷ b ∷ c ∷ d ∷ []) =
    leb b'1' d
    && leb d b'9'
    && (bytes_eq (a ∷ b ∷ c ∷ []) (codes "COM") || bytes_eq (a ∷ b ∷ c ∷ []) (codes "LPT"))
is_port_name _ = false

unfoldable pub is_windows_device_name : Bytes → Bool
unfolding is_one_of is_port_name
is_windows_device_name segment =
    let base = map to_upper (cut b'.' segment).0 in
    is_one_of base (codes "CON" ∷ codes "PRN" ∷ codes "AUX" ∷ codes "NUL" ∷ codes "CLOCK$" ∷ [])
    || is_port_name base

-- back() == end on a string that is not empty.
abbrev pub ends_with : ℕ → Bytes → Bool
ends_with d text = elim (last? text) [ none ↦ false | some c ↦ c == d ]

abbrev is_control : ℕ → Bool
is_control c = ltb c 0x20 || c == 0x7f

unfoldable pub is_unsafe_portable_segment : Bytes → Bool
is_unsafe_portable_segment segment =
    is_empty segment
    || bytes_eq segment (codes ".")
    || bytes_eq segment (codes "..")
    || ends_with b'.' segment
    || ends_with b' ' segment
    || contains b':' segment
    || is_windows_device_name segment
    || any_of is_control segment

unfoldable pub is_updater_state_segment : Bytes → Bool
is_updater_state_segment segment = bytes_eq (map to_lower segment) (codes ".autoupdater")

unfoldable pub validate_managed_path : Bytes → Result (Unit {0})
validate_managed_path path = do
  reject_if (is_empty path) path_traversal_rejected
  reject_if (starts_with path (codes "/") || starts_with path (codes "\\") || has_drive_prefix path)
      path_traversal_rejected
  reject_if (contains b'\\' path) path_traversal_rejected
  reject_if (any_of is_unsafe_portable_segment (split b'/' path)) path_traversal_rejected

unfoldable pub validate_managed_target_path : Bytes → Result (Unit {0})
validate_managed_target_path path = do
  validate_managed_path path
  let first_segment = (cut b'/' path).0
  reject_if (is_updater_state_segment first_segment || contains b'~' first_segment)
      security_policy_violation

abbrev pub lookup_byte : ℕ → ℕ
lookup_byte c = if c == b'/' then 0 else to_lower c

unfoldable pub managed_path_lookup_key : Bytes → Bytes
managed_path_lookup_key = map lookup_byte

-- std::sort by operator<.
unfoldable pub insert_key : Bytes → List Bytes → List Bytes
insert_key k [] = k ∷ []
insert_key k (x ∷ xs) = if bytes_lt x k then x ∷ insert_key k xs else k ∷ x ∷ xs

unfoldable pub sort_keys : List Bytes → List Bytes
unfolding insert_key
sort_keys [] = []
sort_keys (k ∷ ks) = insert_key k (sort_keys ks)

-- `current` lies below `previous`: it goes on after it with the separator.
unfoldable pub is_descendant_key : Bytes → Bytes → Bool
is_descendant_key previous current =
    ltb (length previous) (length current) && starts_with current (previous ++ 0 ∷ [])

-- One round of the loop over the sorted keys.
abbrev pub neighbours_conflict : Bytes → Bytes → Bool
neighbours_conflict previous current =
    bytes_eq previous current || is_descendant_key previous current

unfoldable pub any_neighbours_conflict : List Bytes → Bool
any_neighbours_conflict [] = false
any_neighbours_conflict (k ∷ []) = false
any_neighbours_conflict (k ∷ l ∷ ks) = neighbours_conflict k l || any_neighbours_conflict (l ∷ ks)

unfoldable pub lookup_keys : List Bytes → Result (List Bytes)
lookup_keys [] = ok []
lookup_keys (path ∷ paths) = do
  validate_managed_target_path path
  keys ← lookup_keys paths
  ok (managed_path_lookup_key path ∷ keys)

unfoldable pub validate_managed_target_paths : List Bytes → Result (Unit {0})
validate_managed_target_paths paths = do
  keys ← lookup_keys paths
  reject_if (any_neighbours_conflict (sort_keys keys)) security_policy_violation

abbrev pub FilePath : Type 0
FilePath = List Bytes

-- operator/= of std::filesystem::path with one component.
append_component : FilePath → Bytes → FilePath
append_component path segment =
    if starts_with segment (codes "/") then segment ∷ [] else path ++ segment ∷ []

append_components : FilePath → List Bytes → FilePath
append_components path [] = path
append_components path (s ∷ ss) = append_components (append_component path s) ss

unfoldable pub safe_join : FilePath → Bytes → Result FilePath
unfolding append_component append_components
safe_join root relative_path = do
  validate_managed_path relative_path
  ok (append_components root (split b'/' relative_path))

-- One rule of the whitelist; an empty rule allows nothing.
unfoldable pub rule_allows : Bytes → Bytes → Bool
rule_allows path rule =
    not (is_empty rule)
    && (if ends_with b'/' rule
        then starts_with path rule
        else bytes_eq path rule || starts_with path (rule ++ codes "/"))

unfoldable pub path_allowed_by_whitelist : Bytes → List Bytes → Bool
path_allowed_by_whitelist path whitelist = is_empty whitelist || any_of (rule_allows path) whitelist

drop_slashes : Bytes → Bytes
drop_slashes [] = []
drop_slashes (c ∷ cs) = if c == b'/' then drop_slashes cs else c ∷ cs

unfoldable pub normalize_manifest_path : Bytes → Bytes
unfolding drop_slashes
normalize_manifest_path path = drop_slashes (map (λ c. if c == b'\\' then b'/' else c) path)
