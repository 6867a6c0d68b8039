-- ===== src/Manifest.antt =====
-- src/Manifest.cpp: release manifests, read from the JSON value that their text parses to. The size
-- limit on the text and the JSON parser stand before what is modelled here.
pub mod Fields
pub mod Topology
pub mod Evidence
pub mod Release
use lib_auto_updater.Base.{
  ℕ, ◌+◌, ◌-◌, Bool, true, false, not, ◌&&◌, ◌||◌, Option, none, some, List, [], ◌∷◌, ◌++◌, map,
  ltb, leb, ◌==◌, if◌then◌else◌, length, is_empty, all_of,
}
use lib_auto_updater.Base.Text.{Bytes, codes, bytes_eq}
use lib_auto_updater.Error.{
  Result, ok, fail, ◌>>=◌, ◌>>◌, reject_if, manifest_parse_failed, resource_limit_exceeded,
  unsupported_manifest_schema,
}
use lib_auto_updater.Version.{Version, parse}
use lib_auto_updater.Json.{
  Json, get, as_object?, as_array?, as_string?, is_non_negative_integer, as_uint64,
}
use lib_auto_updater.ManagedPath.{
  lookup_byte, sort_keys, is_descendant_key, validate_managed_path, validate_managed_target_paths,
}
use Fields.{
  wanted, required_string, optional_string, optional_bool, validate_optional_timestamp,
  require_only_keys, optional_version, is_lower_hex_sha256, artifact_size, checked_add,
}

pub record ManifestFile : Type 0 where
  pub path : Bytes
  pub local_path : Bytes
  pub sha256 : Bytes
  pub size : ℕ

pub record Manifest : Type 0 where
  pub schema_version : ℕ
  pub app_id : Bytes
  pub channel : Bytes
  pub platform : Bytes
  pub arch : Bytes
  pub version : Version
  pub release_id : Bytes
  pub release_date : Bytes
  pub published_at : Bytes
  pub expires_at : Bytes
  pub min_version : Option Version
  pub min_client_version : Option Version
  pub mandatory : Bool
  pub allow_downgrade : Bool
  pub notes : Bytes
  pub base_url : Bytes
  pub files : List ManifestFile
  pub remove : List Bytes

-- The limits of include/libAutoUpdater/ResourceLimits.h that the manifest parser reads.
pub record ArtifactLimits : Type 0 where
  pub max_artifact_bytes : ℕ
  pub max_total_artifact_bytes : ℕ

abbrev pub supported_manifest_schema : ℕ
supported_manifest_schema = 1

-- Where a file is installed.
abbrev pub target_of : ManifestFile → Bytes
target_of file = if is_empty file.local_path then file.path else file.local_path

-- portableSourceKey
unfoldable pub portable_source_key : Bytes → Bytes
portable_source_key = map lookup_byte

-- The size and the digest that a source path was seen with, by its key.
abbrev pub Evidence : Type 0
Evidence = List (Bytes × Bytes × ℕ)

unfoldable pub find_evidence : Bytes → Evidence → Option (Bytes × ℕ)
find_evidence key [] = none
find_evidence key ((k, sha, size) ∷ rest) =
    if bytes_eq k key then some (sha, size) else find_evidence key rest

-- What the loop over the files has gathered.
pub record FilesSoFar : Type 0 where
  pub total_artifact_bytes : ℕ
  pub source_evidence : Evidence
  pub files : List ManifestFile

abbrev pub none_so_far : FilesSoFar
none_so_far = record { total_artifact_bytes = 0; source_evidence = []; files = [] }

-- Two entries with one source path must describe the same bytes.
unfoldable pub record_evidence : ManifestFile → Evidence → Result Evidence
record_evidence file evidence =
    let key = portable_source_key file.path in
    elim (find_evidence key evidence) [
      | none ↦ ok ((key, file.sha256, file.size) ∷ evidence)
      | some (sha, size) ↦ do
        reject_if (not (bytes_eq sha file.sha256) || not (size == file.size)) manifest_parse_failed
        ok evidence
    ]

-- The fields of one item of "files", up to its size.
unfoldable pub parse_file : ArtifactLimits → Json → Result ManifestFile
parse_file limits item = do
  wanted (as_object? item)
  require_only_keys item (codes "path" ∷ codes "localPath" ∷ codes "sha256" ∷ codes "size" ∷ [])
  path ← required_string item (codes "path")
  sha ← required_string item (codes "sha256")
  local_path ← optional_string item (codes "localPath")
  reject_if (not (is_lower_hex_sha256 sha)) manifest_parse_failed
  size ← artifact_size item limits.max_artifact_bytes
  ok (record { path = path; local_path = local_path; sha256 = sha; size = size })

abbrev pub within_total : ℕ → Option ℕ → Result ℕ
within_total most none = fail resource_limit_exceeded
within_total most (some total) = do reject_if (ltb most total) resource_limit_exceeded; ok total

-- The rest of the round: the total, the paths and the evidence.
unfoldable pub admit_file : ArtifactLimits → FilesSoFar → ManifestFile → Result FilesSoFar
admit_file limits so_far file = do
  total ←
      within_total limits.max_total_artifact_bytes
        (checked_add so_far.total_artifact_bytes file.size)
  validate_managed_path file.path
  (if is_empty file.local_path then ok tt else validate_managed_path file.local_path)
  evidence ← record_evidence file so_far.source_evidence
  ok (record {
    total_artifact_bytes = total;
    source_evidence = evidence;
    files = so_far.files ++ file ∷ [];
  })

unfoldable pub parse_files : ArtifactLimits → FilesSoFar → List Json → Result FilesSoFar
parse_files limits so_far [] = ok so_far
parse_files limits so_far (item ∷ items) = do
  file ← parse_file limits item
  next ← admit_file limits so_far file
  parse_files limits next items

unfoldable pub parse_removes : List Json → Result (List Bytes)
parse_removes [] = ok []
parse_removes (item ∷ items) = do
  path ← wanted (as_string? item)
  validate_managed_path path
  rest ← parse_removes items
  ok (path ∷ rest)

-- The neighbours in a std::map have different keys, so only descent is looked for.
unfoldable pub any_neighbour_descends : List Bytes → Bool
any_neighbour_descends [] = false
any_neighbour_descends (k ∷ []) = false
any_neighbour_descends (k ∷ l ∷ ks) = is_descendant_key k l || any_neighbour_descends (l ∷ ks)

unfoldable pub validate_source_topology : Evidence → Result (Unit {0})
validate_source_topology evidence =
    reject_if (any_neighbour_descends (sort_keys (map (λ e. e.0) evidence))) manifest_parse_failed

-- A field that holds an array, or is missing.
abbrev pub optional_array : Option Json → Result (List Json)
optional_array none = ok []
optional_array (some json) = wanted (as_array? json)

abbrev pub root_keys : List Bytes
root_keys =
    codes "schemaVersion"
    ∷ codes "appId"
    ∷ codes "channel"
    ∷ codes "platform"
    ∷ codes "arch"
    ∷ codes "version"
    ∷ codes "releaseId"
    ∷ codes "releaseDate"
    ∷ codes "publishedAt"
    ∷ codes "expiresAt"
    ∷ codes "minVersion"
    ∷ codes "minClientVersion"
    ∷ codes "mandatory"
    ∷ codes "allowDowngrade"
    ∷ codes "notes"
    ∷ codes "baseUrl"
    ∷ codes "files"
    ∷ codes "remove"
    ∷ []

unfoldable pub check_schema : Json → Result (Unit {0})
check_schema json = do
  wanted (as_object? json)
  schema ← wanted (get json (codes "schemaVersion"))
  reject_if (not (is_non_negative_integer schema)) manifest_parse_failed
  reject_if (not (as_uint64 schema 0 == supported_manifest_schema)) unsupported_manifest_schema

-- The fields in front of "files" and "remove".
unfoldable pub parse_header : Json → Result Manifest
parse_header json = do
  version_text ← required_string json (codes "version")
  version ← parse version_text
  app_id ← optional_string json (codes "appId")
  channel ← optional_string json (codes "channel")
  platform ← optional_string json (codes "platform")
  arch ← optional_string json (codes "arch")
  release_id ← optional_string json (codes "releaseId")
  release_date ← optional_string json (codes "releaseDate")
  published_at ← optional_string json (codes "publishedAt")
  expires_at ← optional_string json (codes "expiresAt")
  notes ← optional_string json (codes "notes")
  base_url ← optional_string json (codes "baseUrl")
  mandatory ← optional_bool json (codes "mandatory") false
  allow_downgrade ← optional_bool json (codes "allowDowngrade") false
  validate_optional_timestamp json (codes "releaseDate")
  validate_optional_timestamp json (codes "publishedAt")
  validate_optional_timestamp json (codes "expiresAt")
  min_version ← optional_version json (codes "minVersion")
  min_client_version ← optional_version json (codes "minClientVersion")
  ok (record {
    schema_version = supported_manifest_schema;
    app_id = app_id;
    channel = channel;
    platform = platform;
    arch = arch;
    version = version;
    release_id = release_id;
    release_date = release_date;
    published_at = published_at;
    expires_at = expires_at;
    min_version = min_version;
    min_client_version = min_client_version;
    mandatory = mandatory;
    allow_downgrade = allow_downgrade;
    notes = notes;
    base_url = base_url;
    files = [];
    remove = [];
  })

unfoldable pub manifest_of_json : ArtifactLimits → Json → Result Manifest
manifest_of_json limits json = do
  check_schema json
  require_only_keys json root_keys
  header ← parse_header json
  file_items ← optional_array (get json (codes "files"))
  found ← parse_files limits none_so_far file_items
  remove_items ← optional_array (get json (codes "remove"))
  removes ← parse_removes remove_items
  validate_source_topology found.source_evidence
  validate_managed_target_paths (map target_of found.files ++ removes)
  ok (record header { files = found.files; remove = removes })
