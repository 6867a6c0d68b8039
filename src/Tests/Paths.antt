-- ===== src/Tests/Paths.antt =====
-- Managed paths: validation, joining, rules and normal forms.
use lib_auto_updater.Base.{
  ◌≡◌, ◌↔◌, refl, true, false, not, ◌&&◌, List, [], ◌∷◌, ◌++◌, All, length, is_empty,
}
use lib_auto_updater.Base.Text.{Bytes, codes, bytes_eq, starts_with}
use lib_auto_updater.Base.Text.Split.{cut, split}
use lib_auto_updater.Error.{ok}
use lib_auto_updater.ManagedPath.{
  FilePath, has_drive_prefix, is_unsafe_portable_segment, is_windows_device_name, to_upper,
  normalize_manifest_path, rule_allows, safe_join, validate_managed_path,
  validate_managed_target_path, validate_managed_target_paths,
}
use lib_auto_updater.ManagedPath.Covers.{is_prefix}
use lib_auto_updater.ManagedPath.Sorted.{AllPairs}
use lib_auto_updater.ManagedPath.Segments.{IsManaged, validate_managed_path_iff}
use lib_auto_updater.ManagedPath.Targets.{
  IsTarget, Separate, validate_managed_target_path_iff, validate_managed_target_paths_iff,
}
use lib_auto_updater.ManagedPath.Join.{resolve, safe_join_iff, safe_join-inside}
use lib_auto_updater.ManagedPath.Whitelist.{
  IsNormal, rule_allows-segments, normalize_manifest_path-IsNormal,
}

abbrev library_path : Bytes
library_path = codes "lib/core.so"

abbrev program_path : Bytes
program_path = codes "Lib-x/run"

abbrev root : FilePath
root = codes "opt" ∷ codes "app" ∷ []

abbrev joined_path : FilePath
joined_path = codes "opt" ∷ codes "app" ∷ codes "lib" ∷ codes "core.so" ∷ []

validate_managed_path_iff_example :
    (validate_managed_path library_path ≡ ok tt) ↔ IsManaged library_path
validate_managed_path_iff_example = validate_managed_path_iff library_path

validate_managed_target_path_iff_example :
    (validate_managed_target_path library_path ≡ ok tt) ↔ IsTarget library_path
validate_managed_target_path_iff_example = validate_managed_target_path_iff library_path

validate_managed_target_paths_iff_example :
    (validate_managed_target_paths (library_path ∷ program_path ∷ []) ≡ ok tt) ↔ (
      All IsTarget (library_path ∷ program_path ∷ [])
      × AllPairs Separate (library_path ∷ program_path ∷ []))
validate_managed_target_paths_iff_example =
    validate_managed_target_paths_iff (library_path ∷ program_path ∷ [])

safe_join_iff_example :
    (safe_join root library_path ≡ ok joined_path)
    ↔ (IsManaged library_path × (joined_path ≡ root ++ split b'/' library_path))
safe_join_iff_example = safe_join_iff root library_path joined_path

library_joins : safe_join root library_path ≡ ok joined_path
unfolding safe_join validate_managed_path starts_with bytes_eq split cut has_drive_prefix
    is_unsafe_portable_segment is_windows_device_name to_upper
library_joins = refl

safe_join-inside_example :
    (inner : List Bytes) × (resolve [] joined_path ≡ inner ++ resolve [] root)
    × (length inner ≡ length (split b'/' library_path))
safe_join-inside_example = safe_join-inside [] root library_path joined_path library_joins

rule_allows-segments_example :
    (rule_allows library_path (codes "lib") ≡ (
      not (is_empty (codes "lib"))
      && is_prefix (split b'/' (codes "lib")) (split b'/' library_path)))
    × (rule_allows library_path (codes "lib" ++ codes "/") ≡ (
        is_prefix (split b'/' (codes "lib")) (split b'/' library_path)
        && not (bytes_eq library_path (codes "lib"))))
rule_allows-segments_example = rule_allows-segments library_path (codes "lib") refl

normalize_manifest_path-IsNormal_example :
    IsNormal (normalize_manifest_path (codes "/lib/core.so"))
    × ((normalize_manifest_path (codes "/lib/core.so") ≡ codes "/lib/core.so")
        ↔ IsNormal (codes "/lib/core.so"))
    × (normalize_manifest_path (codes "//lib/core.so")
        ≡ normalize_manifest_path (codes "/lib/core.so"))
    × (normalize_manifest_path (codes "lib\\core.so")
        ≡ normalize_manifest_path (codes "lib/core.so"))
normalize_manifest_path-IsNormal_example =
    normalize_manifest_path-IsNormal (codes "/lib/core.so") (codes "lib") (codes "core.so")

backslashes : normalize_manifest_path (codes "\\lib\\core.so") ≡ codes "lib/core.so"
unfolding normalize_manifest_path
backslashes = refl

serial_port : is_windows_device_name (codes "Com1.txt") ≡ true
unfolding is_windows_device_name to_upper cut bytes_eq
serial_port = refl

no_serial_port : is_windows_device_name (codes "com10") ≡ false
unfolding is_windows_device_name to_upper cut bytes_eq
no_serial_port = refl
