-- ===== src/IndexManifest.antt =====
-- src/Manifest.cpp: index manifests, read from the JSON value that their text parses to.
pub mod Selectors
use lib_auto_updater.Base.{
  ℕ, Bool, true, false, not, ◌&&◌, Option, none, some, List, [], ◌∷◌, ◌++◌, ◌==◌, is_empty, any_of,
}
use lib_auto_updater.Base.Text.{Bytes, codes, bytes_eq}
use lib_auto_updater.Error.{Result, ok, fail, ◌>>=◌, ◌>>◌, reject_if, manifest_parse_failed}
use lib_auto_updater.Json.{Json, get, as_object?, as_array?}
use lib_auto_updater.Manifest.{check_schema, supported_manifest_schema}
use lib_auto_updater.Manifest.Fields.{
  wanted, required_string, optional_string, validate_optional_timestamp, require_only_keys,
}

pub record IndexTarget : Type 0 where
  pub platform : Bytes
  pub arch : Bytes
  pub manifest_url : Bytes

pub record IndexManifest : Type 0 where
  pub schema_version : ℕ
  pub app_id : Bytes
  pub channel : Bytes
  pub generated_at : Bytes
  pub targets : List IndexTarget

-- Two targets with one pair of platform and architecture.
abbrev pub same_selector : IndexTarget → IndexTarget → Bool
same_selector a b = bytes_eq a.platform b.platform && bytes_eq a.arch b.arch

unfoldable pub parse_target : Json → Result IndexTarget
parse_target item = do
  wanted (as_object? item)
  require_only_keys item (codes "platform" ∷ codes "arch" ∷ codes "manifestUrl" ∷ [])
  platform ← optional_string item (codes "platform")
  arch ← optional_string item (codes "arch")
  url ← required_string item (codes "manifestUrl")
  reject_if (is_empty url) manifest_parse_failed
  ok (record { platform = platform; arch = arch; manifest_url = url })

-- `seen` are the targets so far, newest last; their selectors are the std::set of the source.
unfoldable pub parse_targets : List IndexTarget → List Json → Result (List IndexTarget)
parse_targets seen [] = ok seen
parse_targets seen (i ∷ items) = do
  target ← parse_target i
  reject_if (any_of (same_selector target) seen) manifest_parse_failed
  parse_targets (seen ++ target ∷ []) items

unfoldable pub index_of_json : Json → Result IndexManifest
index_of_json json = do
  check_schema json
  require_only_keys json (
      codes "schemaVersion"
      ∷ codes "appId"
      ∷ codes "channel"
      ∷ codes "generatedAt"
      ∷ codes "targets"
      ∷ [])
  app_id ← optional_string json (codes "appId")
  channel ← optional_string json (codes "channel")
  generated_at ← optional_string json (codes "generatedAt")
  validate_optional_timestamp json (codes "generatedAt")
  value ← wanted (get json (codes "targets"))
  items ← wanted (as_array? value)
  targets ← parse_targets [] items
  ok (record {
    schema_version = supported_manifest_schema;
    app_id = app_id;
    channel = channel;
    generated_at = generated_at;
    targets = targets;
  })
