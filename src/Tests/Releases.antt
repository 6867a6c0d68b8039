-- ===== src/Tests/Releases.antt =====
-- A release manifest with one source path for two files, and a path to remove.
use lib_auto_updater.Base.{false, none, ◌≡◌, refl, [], ◌∷◌}
use lib_auto_updater.Base.Text.{Bytes, codes, bytes_eq, bytes_compare, starts_with}
use lib_auto_updater.Error.{ok}
use lib_auto_updater.Json.{
  get, find_field, keys, elements, is_non_negative_integer, as_uint64, Json, object, array, string,
  uint64, field, no_field, item, no_item,
}
use lib_auto_updater.Manifest.{
  check_schema, parse_header, parse_files, parse_removes, validate_source_topology,
  any_neighbour_descends, portable_source_key, parse_file, admit_file, record_evidence,
  find_evidence, ArtifactLimits, Manifest, manifest_of_json,
}
use lib_auto_updater.Manifest.Fields.{
  require_only_keys, checked_add, artifact_size, is_lower_hex_sha256, optional_version,
  validate_optional_timestamp, optional_bool, optional_string, required_string,
}
use lib_auto_updater.ManagedPath.{
  validate_managed_target_paths, lookup_keys, validate_managed_target_path, validate_managed_path,
  has_drive_prefix, is_unsafe_portable_segment, is_windows_device_name, to_upper, to_lower,
  is_updater_state_segment, any_neighbours_conflict, sort_keys, insert_key, is_descendant_key,
  managed_path_lookup_key,
}
use lib_auto_updater.Version.{
  parse, parse_core, parse_number, take_suffix, has_leading_zero, digits_value, is_ascii_digit,
}
use lib_auto_updater.Base.Text.Split.{cut, split}
use lib_auto_updater.Manifest.Release.{IsRelease, manifest_of_json-IsRelease}

abbrev limits : ArtifactLimits
limits = record { max_artifact_bytes = 10; max_total_artifact_bytes = 15 }

abbrev digest : Bytes
digest = codes "0123456789abcdef0123456789abcdef0123456789abcdef0123456789abcdef"

abbrev file_json : Bytes → Json
file_json local = object (
    field (codes "localPath") (string local) (
      field (codes "path") (string (codes "a"))
        (field (codes "sha256") (string digest) (field (codes "size") (uint64 7) no_field))))

abbrev release_json : Json
release_json = object (
    field (codes "files")
      (array (item (file_json (codes "b")) (item (file_json (codes "c")) no_item)))
      (field (codes "remove") (array (item (string (codes "d/e")) no_item)) (
        field (codes "schemaVersion") (uint64 1)
          (field (codes "version") (string (codes "2.0.0")) no_field))))

abbrev release : Manifest
release = record {
  schema_version = 1;
  app_id = [];
  channel = [];
  platform = [];
  arch = [];
  version = record { major = 2; minor = 0; patch = 0; prerelease = []; build_metadata = [] };
  release_id = [];
  release_date = [];
  published_at = [];
  expires_at = [];
  min_version = none;
  min_client_version = none;
  mandatory = false;
  allow_downgrade = false;
  notes = [];
  base_url = [];
  files =
      record { path = codes "a"; local_path = codes "b"; sha256 = digest; size = 7 }
      ∷ record { path = codes "a"; local_path = codes "c"; sha256 = digest; size = 7 }
      ∷ [];
  remove = codes "d/e" ∷ [];
}

release_parses : manifest_of_json limits release_json ≡ ok release
unfolding manifest_of_json check_schema require_only_keys parse_header parse_files parse_removes
    validate_source_topology validate_managed_target_paths lookup_keys validate_managed_target_path
    validate_managed_path has_drive_prefix is_unsafe_portable_segment is_windows_device_name
    to_upper to_lower is_updater_state_segment any_neighbours_conflict any_neighbour_descends
    sort_keys insert_key is_descendant_key managed_path_lookup_key portable_source_key parse_file
    admit_file record_evidence find_evidence checked_add artifact_size is_lower_hex_sha256
    optional_version validate_optional_timestamp optional_bool optional_string required_string get
    find_field keys elements is_non_negative_integer as_uint64 parse parse_core parse_number
    take_suffix has_leading_zero digits_value is_ascii_digit bytes_eq bytes_compare starts_with cut
    split
release_parses = refl

manifest_of_json-IsRelease_example : IsRelease limits release
manifest_of_json-IsRelease_example =
    manifest_of_json-IsRelease limits release_json release release_parses
