-- ===== src/Tests/Manifests.antt =====
-- An index manifest with two targets.
use lib_auto_updater.Manifest.Fields.{
  required_string, validate_optional_timestamp, optional_string, require_only_keys,
}
use lib_auto_updater.Manifest.{check_schema}
use lib_auto_updater.Base.{◌≡◌, refl, [], ◌∷◌, All}
use lib_auto_updater.Base.Text.{Bytes, codes, bytes_eq}
use lib_auto_updater.Error.{ok}
use lib_auto_updater.Json.{
  elements, keys, as_uint64, is_non_negative_integer, find_field, get, Json, object, array, string,
  uint64, field, no_field, item, no_item,
}
use lib_auto_updater.ManagedPath.Sorted.{AllPairs}
use lib_auto_updater.IndexManifest.{parse_target, parse_targets, IndexManifest, index_of_json}
use lib_auto_updater.IndexManifest.Selectors.{HasUrl, OtherSelector, index_of_json-selectors}

abbrev target_json : Bytes → Bytes → Json
target_json platform url =
    object (
      field (codes "manifestUrl") (string url)
        (field (codes "platform") (string platform) no_field))

abbrev index_json : Json
index_json = object (
    field (codes "appId") (string (codes "app")) (
      field (codes "schemaVersion") (uint64 1) (
        field (codes "targets")
          (array (
            item (target_json (codes "linux") (codes "l.json"))
              (item (target_json (codes "macos") (codes "m.json")) no_item)))
          no_field)))

abbrev index : IndexManifest
index = record {
  schema_version = 1;
  app_id = codes "app";
  channel = [];
  generated_at = [];
  targets =
      record { platform = codes "linux"; arch = []; manifest_url = codes "l.json" }
      ∷ record { platform = codes "macos"; arch = []; manifest_url = codes "m.json" }
      ∷ [];
}

index_parses : index_of_json index_json ≡ ok index
unfolding index_of_json bytes_eq check_schema get find_field is_non_negative_integer as_uint64
    require_only_keys keys optional_string validate_optional_timestamp parse_targets elements
    parse_target required_string
index_parses = refl

index_of_json-selectors_example : AllPairs OtherSelector index.targets × All HasUrl index.targets
index_of_json-selectors_example = index_of_json-selectors index_json index index_parses
