-- ===== src/Planner.antt =====
-- src/UpdatePlanner.cpp: from a manifest and a snapshot of the installation to the downloads and the
-- operations of an update. The URL functions of src/UrlPolicy.cpp and src/util/UrlUtil.cpp enter as
-- the interface `UrlRules`.
pub mod Urls
pub mod Types
pub mod Decision
pub mod Outcome
pub mod Run
pub mod Effect
pub mod Gate
pub mod Fetch
pub mod Network
use lib_auto_updater.Base.{
  ℕ, Bool, true, false, not, ◌&&◌, ◌||◌, Option, none, some, List, [], ◌∷◌, ◌++◌, map, is_empty,
  if◌then◌else◌,
}
use lib_auto_updater.Base.Text.{Bytes, codes, bytes_eq}
use lib_auto_updater.Error.{
  Result, ok, fail, ◌>>=◌, ◌>>◌, reject_if, security_policy_violation, unsupported_install_layout,
  unsupported_manifest_schema, manifest_parse_failed,
}
use lib_auto_updater.Version.{Version, version_lt, version_eq}
use lib_auto_updater.Rfc3339.{UtcInstant, instant_ge, parse_rfc3339}
use lib_auto_updater.ManagedPath.{
  FilePath, ends_with, managed_path_lookup_key, path_allowed_by_whitelist, safe_join,
  validate_managed_target_path, validate_managed_target_paths,
}
use lib_auto_updater.Manifest.{Manifest, ManifestFile, target_of}
use Urls.{ParsedUrl, UrlRules}
use Types.{
  InstallLayout, is_package_manager_owned, Config, ManifestEnvelope, LocalFileInfo, ApplyOperation,
  PlannedDownload, CheckResult, UpdateDecision, differ, some_or_parse_failed,
  parse_optional_timestamp, older_than, passed, downgrade_baseline, LocalSnapshot, find_local,
  check_snapshot, is_current, needs_download, replacement, first_result, no_change, is_downgrade_of,
  downgrade_allowed, remove,
}

module _ (urls : UrlRules) where
  open urls use {Policy, authorize, authorize_transition, append_encoded_path}

  check_artifact_base : Policy → Bytes → Bytes → Result (Unit {0})
  check_artifact_base policy source_url artifact_base_url = do
    source ← authorize policy source_url
    base ← authorize policy artifact_base_url
    reject_if (is_empty base.path || not (ends_with b'/' base.path) || base.has_query)
        security_policy_violation
    authorize_transition policy source base

  unfoldable pub validate_manifest_against_config :
      Config → ManifestEnvelope → Policy → UtcInstant → Result (Unit {0})
  unfolding check_artifact_base
  validate_manifest_against_config config envelope policy now = do
    let manifest = envelope.manifest
    validate_managed_target_paths (map target_of manifest.files ++ manifest.remove)
    reject_if (is_package_manager_owned config.install_layout) unsupported_install_layout
    reject_if (differ config.app_id manifest.app_id) security_policy_violation
    reject_if (differ config.channel manifest.channel) security_policy_violation
    reject_if (differ config.platform manifest.platform) security_policy_violation
    reject_if (differ config.arch manifest.arch) security_policy_violation
    reject_if (older_than config.client_version manifest.min_client_version)
        unsupported_manifest_schema
    parse_optional_timestamp manifest.release_date
    parse_optional_timestamp manifest.published_at
    expires_at ← parse_optional_timestamp manifest.expires_at
    reject_if (config.reject_expired_manifest && passed now expires_at) security_policy_violation
    check_artifact_base policy envelope.source_url envelope.artifact_base_url

  -- The download of one file that is to be replaced.
  unfoldable pub plan_download : Config → Policy → ParsedUrl → ManifestFile → Result PlannedDownload
  plan_download config policy base file = do
    url ← append_encoded_path base file.path
    authorize_transition policy base url
    staging_path ← safe_join config.temp_dir file.path
    ok (record { file = file; url = url.canonical; staging_path = staging_path })

  unfoldable pub check_target : Config → Bytes → Result (Unit {0})
  check_target config path = do
    validate_managed_target_path path
    reject_if (not (path_allowed_by_whitelist path config.managed_path_whitelist))
        security_policy_violation

  -- One round of the loop over the files: its download and its operation, or neither.
  unfoldable pub plan_file :
      Config
      → Policy
      → ParsedUrl
      → LocalSnapshot
      → ManifestFile
      → Result (List PlannedDownload × List ApplyOperation)
  plan_file config policy base snapshot file = do
    check_target config (target_of file)
    if needs_download snapshot file
        then (do
          download ← plan_download config policy base file
          ok (download ∷ [], replacement file ∷ []))
        else ok ([], [])

  unfoldable pub plan_files :
      Config
      → Policy
      → ParsedUrl
      → LocalSnapshot
      → List ManifestFile
      → Result (List PlannedDownload × List ApplyOperation)
  plan_files config policy base snapshot [] = ok ([], [])
  plan_files config policy base snapshot (file ∷ files) = do
    planned ← plan_file config policy base snapshot file
    rest ← plan_files config policy base snapshot files
    ok (planned.0 ++ rest.0, planned.1 ++ rest.1)

  unfoldable pub plan_removes : Config → List Bytes → Result (List ApplyOperation)
  plan_removes config [] = ok []
  plan_removes config (path ∷ paths) = do
    check_target config path
    rest ← plan_removes config paths
    ok (remove path ∷ rest)

  -- The last part of planUpdate, where an update is available.
  unfoldable pub plan_changes :
      Config → Manifest → Policy → ParsedUrl → LocalSnapshot → CheckResult → Result UpdateDecision
  plan_changes config manifest policy base snapshot check_result = do
    check_snapshot snapshot
    planned ← plan_files config policy base snapshot manifest.files
    removes ← plan_removes config manifest.remove
    ok (record {
      check_result = record check_result { update_available = true };
      downloads = planned.0;
      operations = planned.1 ++ removes;
    })

  unfoldable pub plan_update :
      Config
      → ManifestEnvelope
      → LocalSnapshot
      → Option Version
      → UtcInstant
      → Result UpdateDecision
  plan_update config envelope snapshot last_accepted_version now = do
    let manifest = envelope.manifest
    policy ← urls.policy
    validate_manifest_against_config config envelope policy now
    base ← authorize policy envelope.artifact_base_url
    let is_downgrade = is_downgrade_of config envelope last_accepted_version
    let authorized = is_downgrade && downgrade_allowed config envelope
    reject_if (is_downgrade && not authorized) security_policy_violation
    if older_than config.current_version manifest.min_version
        then ok (no_change (record (first_result config manifest) { reinstall_required = true }))
        else if not (version_lt config.current_version manifest.version)
            && not (authorized && not (version_eq manifest.version config.current_version))
        then ok (no_change (first_result config manifest))
        else plan_changes config manifest policy base snapshot (first_result config manifest)
