-- ===== src/Tests/Plans.antt =====
-- A plan for an installation with one file that is current, one that is missing and one to remove.
use lib_auto_updater.Base.{
  ℕ, if◌then◌else◌, ◌≡◌, refl, true, false, some, none, [], ◌∷◌, ◌++◌, ◌⊎◌, arith,
}
use lib_auto_updater.Base.Int.{pos}
use lib_auto_updater.Base.Text.{Bytes, codes, bytes_eq, bytes_compare, starts_with}
use lib_auto_updater.Base.Text.Split.{cut, split}
use lib_auto_updater.Error.{ok}
use lib_auto_updater.Version.{compare_prerelease, Version, version_lt, version_eq}
use lib_auto_updater.Rfc3339.{UtcInstant}
use lib_auto_updater.Manifest.{Manifest, ManifestFile}
use lib_auto_updater.ManagedPath.{
  validate_managed_target_paths, lookup_keys, validate_managed_target_path, validate_managed_path,
  has_drive_prefix, is_unsafe_portable_segment, is_windows_device_name, to_upper, to_lower,
  is_updater_state_segment, any_neighbours_conflict, sort_keys, insert_key, is_descendant_key,
  managed_path_lookup_key, path_allowed_by_whitelist, safe_join,
}
use lib_auto_updater.Planner.{
  plan_update, validate_manifest_against_config, check_target, plan_changes, plan_download,
  plan_file, plan_files, plan_removes,
}
use lib_auto_updater.Planner.Outcome.{Checked, Outcome, plan_update-Outcome}
use lib_auto_updater.Planner.Effect.{Describes, Reaches, plan_update-Reaches}
use lib_auto_updater.Planner.Run.{Tree, run_operations}
use lib_auto_updater.Planner.Gate.{NotAbove, Meant, plan_update-gate, plan_update-Meant}
use lib_auto_updater.Planner.Types.{
  check_snapshot, downgrade_baseline, parse_optional_timestamp, Config, LocalSnapshot,
  ManifestEnvelope, UpdateDecision, find_local, portable_directory, remove, replace,
}
use lib_auto_updater.Planner.Urls.{ParsedUrl, UrlRules, https}

abbrev url_at : Bytes → Bytes → ParsedUrl
url_at path canonical = record {
  scheme = https;
  host = codes "h";
  port = 443;
  ipv6_host = false;
  path = path;
  query = [];
  has_query = false;
  canonical = canonical;
}

-- Every URL is authorized; its path is all of it.
abbrev pub all_urls : UrlRules
all_urls = record {
  Policy = Unit {0};
  policy = ok tt;
  authorize = λ policy text. ok (url_at text text);
  authorize_transition = λ policy from to. ok tt;
  append_encoded_path = λ base path. ok (url_at (base.path ++ path) (base.canonical ++ path));
}

abbrev pub version_of : ℕ → Version
version_of n = record { major = n; minor = 0; patch = 0; prerelease = []; build_metadata = [] }

abbrev kept_file : ManifestFile
kept_file = record { path = codes "a"; local_path = []; sha256 = codes "aa"; size = 1 }

abbrev pub new_file : ManifestFile
new_file = record { path = codes "b"; local_path = codes "c"; sha256 = codes "bb"; size = 2 }

abbrev pub manifest : Manifest
manifest = record {
  schema_version = 1;
  app_id = codes "app";
  channel = [];
  platform = [];
  arch = [];
  version = version_of 2;
  release_id = [];
  release_date = [];
  published_at = [];
  expires_at = [];
  min_version = none;
  min_client_version = none;
  mandatory = false;
  allow_downgrade = false;
  notes = [];
  base_url = [];
  files = kept_file ∷ new_file ∷ [];
  remove = codes "d" ∷ [];
}

abbrev pub envelope : ManifestEnvelope
envelope = record {
  manifest = manifest;
  source_url = codes "m";
  artifact_base_url = codes "f/";
  release_manifest_signature_verified = true;
}

abbrev pub config : Config
config = record {
  app_id = codes "app";
  channel = [];
  platform = [];
  arch = [];
  current_version = version_of 1;
  client_version = version_of 1;
  temp_dir = codes "t" ∷ [];
  install_layout = portable_directory;
  require_manifest_signature = true;
  reject_expired_manifest = true;
  reject_downgrade = true;
  managed_path_whitelist = [];
}

abbrev pub snapshot : LocalSnapshot
snapshot =
    record { path = codes "a"; is_present = true; sha256 = codes "aa"; size = 1 }
    ∷ record { path = codes "c"; is_present = false; sha256 = []; size = 0 }
    ∷ []

abbrev pub now : UtcInstant
now = record { unix_seconds = pos 0; nanoseconds = 0 }

abbrev pub decision : UpdateDecision
decision = record {
  check_result = record {
    update_available = true;
    reinstall_required = false;
    is_mandatory = false;
    current_version = version_of 1;
    remote_version = version_of 2;
    release_id = [];
    notes = [];
  };
  downloads =
      record { file = new_file; url = codes "f/b"; staging_path = codes "t" ∷ codes "b" ∷ [] } ∷ [];
  operations = replace (codes "b") (codes "c") (codes "bb") 2 ∷ remove (codes "d") ∷ [];
}

pub planned : plan_update all_urls config envelope snapshot (some (version_of 1)) now ≡ ok decision
unfolding plan_update validate_manifest_against_config check_target plan_changes plan_download
    plan_file plan_files plan_removes validate_managed_target_paths lookup_keys
    validate_managed_target_path validate_managed_path has_drive_prefix is_unsafe_portable_segment
    is_windows_device_name to_upper to_lower is_updater_state_segment any_neighbours_conflict
    sort_keys insert_key is_descendant_key managed_path_lookup_key path_allowed_by_whitelist
    safe_join check_snapshot downgrade_baseline parse_optional_timestamp version_eq version_lt
    find_local bytes_eq bytes_compare starts_with cut split compare_prerelease
planned = refl

-- The installation that the snapshot was taken of; it also has a file that no manifest names.
abbrev pub tree : Tree
tree key =
    if bytes_eq (codes "a") key
    then some (codes "aa")
    else if bytes_eq (codes "d") key
    then some (codes "dd")
    else if bytes_eq (codes "e") key
    then some (codes "ee")
    else none

key_a : managed_path_lookup_key (codes "a") ≡ codes "a"
unfolding managed_path_lookup_key to_lower
key_a = refl

tree-Describes : Describes snapshot tree
unfolding find_local
tree-Describes key local found there = ground (arith, key_a)

plan_update-Outcome_example :
    Checked all_urls config envelope snapshot (some (version_of 1)) now
    × Outcome all_urls config envelope snapshot (some (version_of 1)) now decision
plan_update-Outcome_example =
    plan_update-Outcome all_urls config envelope snapshot (some (version_of 1)) now decision planned

plan_update-Reaches_example :
    ((true ≡ true) × Reaches manifest tree (run_operations decision.operations tree))
    ⊎ ((true ≡ false) × (decision.operations ≡ []))
plan_update-Reaches_example =
    plan_update-Reaches all_urls config envelope snapshot (some (version_of 1)) now tree decision
      planned tree-Describes

plan_update-gate_example :
    ((version_lt (version_of 1) (version_of 2) ≡ true)
      × NotAbove (some (version_of 1)) (version_of 2))
    ⊎ ((version_eq (version_of 2) (version_of 1) ≡ false)
        × (true ≡ false)
        × (true ≡ true)
        × (true ≡ true)
        × (false ≡ true))
plan_update-gate_example =
    plan_update-gate all_urls config envelope snapshot (some (version_of 1)) now decision planned
      refl

plan_update-Meant_example : Meant config manifest now
plan_update-Meant_example =
    plan_update-Meant all_urls config envelope snapshot (some (version_of 1)) now decision planned
