-- ===== src/Planner/Types.antt =====
-- The data of src/UpdatePlanner.cpp and src/UpdateTypes.h, and the tests of the planner that need no
-- URL: what a snapshot says of a file, and which versions count as a downgrade.
use lib_auto_updater.Base.{
  ℕ, Bool, true, false, not, ◌&&◌, Option, none, some, List, [], ◌∷◌, is_empty, if◌then◌else◌,
}
use lib_auto_updater.Base.Text.{Bytes, bytes_eq}
use lib_auto_updater.Error.{Result, ok, fail, ◌>>◌, manifest_parse_failed}
use lib_auto_updater.Version.{Version, version_lt}
use lib_auto_updater.Rfc3339.{UtcInstant, instant_ge, parse_rfc3339}
use lib_auto_updater.ManagedPath.{FilePath, managed_path_lookup_key, validate_managed_target_path}
use lib_auto_updater.Manifest.{Manifest, ManifestFile, target_of}

pub data InstallLayout : Type 0 where
  portable_directory windows_directory macos_app_bundle : InstallLayout
  linux_app_image package_manager_owned : InstallLayout

abbrev pub is_package_manager_owned : InstallLayout → Bool
is_package_manager_owned package_manager_owned = true
is_package_manager_owned _ = false

-- The fields of Config and SecurityOptions that the planner reads.
pub record Config : Type 0 where
  pub app_id : Bytes
  pub channel : Bytes
  pub platform : Bytes
  pub arch : Bytes
  pub current_version : Version
  pub client_version : Version
  pub temp_dir : FilePath
  pub install_layout : InstallLayout
  pub require_manifest_signature : Bool
  pub reject_expired_manifest : Bool
  pub reject_downgrade : Bool
  pub managed_path_whitelist : List Bytes

pub record ManifestEnvelope : Type 0 where
  pub manifest : Manifest
  pub source_url : Bytes
  pub artifact_base_url : Bytes
  pub release_manifest_signature_verified : Bool

pub record LocalFileInfo : Type 0 where
  pub path : Bytes
  pub is_present : Bool
  pub sha256 : Bytes
  pub size : ℕ

pub data ApplyOperation : Type 0 where
  replace : Bytes → Bytes → Bytes → ℕ → ApplyOperation
  remove : Bytes → ApplyOperation

pub record PlannedDownload : Type 0 where
  pub file : ManifestFile
  pub url : Bytes
  pub staging_path : FilePath

pub record CheckResult : Type 0 where
  pub update_available : Bool
  pub reinstall_required : Bool
  pub is_mandatory : Bool
  pub current_version : Version
  pub remote_version : Version
  pub release_id : Bytes
  pub notes : Bytes

pub record UpdateDecision : Type 0 where
  pub check_result : CheckResult
  pub downloads : List PlannedDownload
  pub operations : List ApplyOperation

-- Both texts are given and they differ.
abbrev pub differ : Bytes → Bytes → Bool
differ a b = not (is_empty a) && not (is_empty b) && not (bytes_eq a b)

abbrev pub some_or_parse_failed : Result UtcInstant → Result (Option UtcInstant)
some_or_parse_failed (ok instant) = ok (some instant)
some_or_parse_failed (fail e) = fail manifest_parse_failed

unfoldable pub parse_optional_timestamp : Bytes → Result (Option UtcInstant)
parse_optional_timestamp value =
    if is_empty value then ok none else some_or_parse_failed (parse_rfc3339 value)

abbrev pub older_than : Version → Option Version → Bool
older_than version none = false
older_than version (some least) = version_lt version least

abbrev pub passed : UtcInstant → Option UtcInstant → Bool
passed now none = false
passed now (some end) = instant_ge now end

-- The higher one of the installed version and the one accepted last.
unfoldable pub downgrade_baseline : Version → Option Version → Version
downgrade_baseline current none = current
downgrade_baseline current (some accepted) =
    if version_lt current accepted then accepted else current

abbrev pub LocalSnapshot : Type 0
LocalSnapshot = List LocalFileInfo

-- std::map::try_emplace keeps the first record of a key, so the map is searched from the front.
unfoldable pub find_local : Bytes → LocalSnapshot → Option LocalFileInfo
find_local key [] = none
find_local key (local ∷ rest) =
    if bytes_eq (managed_path_lookup_key local.path) key then some local else find_local key rest

unfoldable pub check_snapshot : LocalSnapshot → Result (Unit {0})
check_snapshot [] = ok tt
check_snapshot (local ∷ rest) = do validate_managed_target_path local.path; check_snapshot rest

abbrev pub is_current : ManifestFile → Option LocalFileInfo → Bool
is_current file none = false
is_current file (some local) = local.is_present && bytes_eq local.sha256 file.sha256

abbrev pub needs_download : LocalSnapshot → ManifestFile → Bool
needs_download snapshot file =
    not (is_current file (find_local (managed_path_lookup_key (target_of file)) snapshot))

abbrev pub replacement : ManifestFile → ApplyOperation
replacement file = replace file.path (target_of file) file.sha256 file.size

-- The decision before any test on it.
abbrev pub first_result : Config → Manifest → CheckResult
first_result config manifest = record {
  update_available = false;
  reinstall_required = false;
  is_mandatory = manifest.mandatory;
  current_version = config.current_version;
  remote_version = manifest.version;
  release_id = manifest.release_id;
  notes = manifest.notes;
}

abbrev pub no_change : CheckResult → UpdateDecision
no_change result = record { check_result = result; downloads = []; operations = [] }

-- isDowngrade of planUpdate.
abbrev pub is_downgrade_of : Config → ManifestEnvelope → Option Version → Bool
is_downgrade_of config envelope accepted =
    version_lt envelope.manifest.version (downgrade_baseline config.current_version accepted)

-- The rest of downgradeAuthorized.
abbrev pub downgrade_allowed : Config → ManifestEnvelope → Bool
downgrade_allowed config envelope =
    not config.reject_downgrade
    && config.require_manifest_signature
    && envelope.release_manifest_signature_verified
    && envelope.manifest.allow_downgrade
