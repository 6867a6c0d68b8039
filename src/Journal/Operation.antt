-- ===== src/Journal/Operation.antt =====
-- The record of one operation in updater/ApplyJournal.cpp.
use lib_auto_updater.Base.{
  ℕ, ◌/◌, Bool, not, ◌&&◌, ◌||◌, List, [], ◌∷◌, ltb, ◌==◌, is_empty, if◌then◌else◌,
}
use lib_auto_updater.Base.Text.{Bytes, codes, bytes_eq}
use lib_auto_updater.Error.{Result, ok, ◌>>=◌, ◌>>◌, reject_if, apply_failed}
use lib_auto_updater.Version.{decimal_text}
use lib_auto_updater.Json.{Json, bool, uint64, string, object, no_field}
use lib_auto_updater.Manifest.Fields.{is_lower_hex_sha256}
use lib_auto_updater.Journal.States.{
  JournalBackupState, JournalApplyState, JournalRollbackState, journal_backup_state_name,
  journal_apply_state_name, journal_rollback_state_name, backup_state_from_name,
  apply_state_from_name, rollback_state_from_name,
}
use lib_auto_updater.Journal.Fields.{
  JournalError, is_incomplete, emplaced, require_only_keys, required_string, required_bool,
  parse_decimal, error_to_json, error_from_json, object_of,
}

pub record ApplyJournalOperation : Type 0 where
  pub schema_version : ℕ
  pub transaction_id : Bytes
  pub index : ℕ
  pub operation_id : Bytes
  pub intent : Bytes
  pub original_exists : Bool
  pub original_identity : Bytes
  pub original_size : ℕ
  pub original_sha256 : Bytes
  pub original_permissions_known : Bool
  pub original_permissions : ℕ
  pub backup_state : JournalBackupState
  pub apply_state : JournalApplyState
  pub installed_identity : Bytes
  pub rollback_state : JournalRollbackState
  pub error : JournalError

-- The checks on the evidence of the original file.
unfoldable pub validate_original : ApplyJournalOperation → Result (Unit {0})
validate_original operation =
    if operation.original_exists
    then (do
      reject_if
          (is_empty operation.original_identity
            || not (is_lower_hex_sha256 operation.original_sha256))
          apply_failed
      reject_if
          (not operation.original_permissions_known && not (operation.original_permissions == 0))
          apply_failed
      reject_if (not (operation.original_permissions / 512 == 0)) apply_failed)
    else reject_if
        (not (is_empty operation.original_identity)
          || not (operation.original_size == 0)
          || not (is_empty operation.original_sha256)
          || operation.original_permissions_known
          || not (operation.original_permissions == 0))
        apply_failed

unfoldable pub validate_operation_record : ApplyJournalOperation → Result (Unit {0})
validate_operation_record operation = do
  reject_if (not (is_lower_hex_sha256 operation.transaction_id)) apply_failed
  reject_if (not (is_lower_hex_sha256 operation.operation_id)) apply_failed
  reject_if
      (not (bytes_eq operation.intent (codes "replace"))
        && not (bytes_eq operation.intent (codes "remove")))
      apply_failed
  validate_original operation
  reject_if (is_incomplete operation.error.code operation.error.message) apply_failed

abbrev pub operation_schema_version : ℕ
operation_schema_version = 2

-- The members of the JSON object, in the order of the emplaces.
abbrev pub operation_members : ApplyJournalOperation → List (Bytes × Json)
operation_members operation =
    (codes "schemaVersion", uint64 operation_schema_version)
    ∷ (codes "transactionId", string operation.transaction_id)
    ∷ (codes "index", string (decimal_text operation.index))
    ∷ (codes "operationId", string operation.operation_id)
    ∷ (codes "intent", string operation.intent)
    ∷ (codes "originalExists", bool operation.original_exists)
    ∷ (codes "originalIdentity", string operation.original_identity)
    ∷ (codes "originalSize", string (decimal_text operation.original_size))
    ∷ (codes "originalSha256", string operation.original_sha256)
    ∷ (codes "originalPermissionsKnown", bool operation.original_permissions_known)
    ∷ (codes "originalPermissions", string (decimal_text operation.original_permissions))
    ∷ (codes "backupState", string (journal_backup_state_name operation.backup_state))
    ∷ (codes "applyState", string (journal_apply_state_name operation.apply_state))
    ∷ (codes "installedIdentity", string operation.installed_identity)
    ∷ (codes "rollbackState", string (journal_rollback_state_name operation.rollback_state))
    ∷ (codes "error", error_to_json operation.error)
    ∷ []

-- serializeApplyJournalOperation up to the value that is printed.
unfoldable pub operation_to_json : ApplyJournalOperation → Result Json
operation_to_json operation = do
  validate_operation_record operation
  ok (object (emplaced (operation_members operation) no_field))

abbrev pub operation_keys : List Bytes
operation_keys =
    codes "schemaVersion"
    ∷ codes "transactionId"
    ∷ codes "index"
    ∷ codes "operationId"
    ∷ codes "intent"
    ∷ codes "originalExists"
    ∷ codes "originalIdentity"
    ∷ codes "originalSize"
    ∷ codes "originalSha256"
    ∷ codes "originalPermissionsKnown"
    ∷ codes "originalPermissions"
    ∷ codes "backupState"
    ∷ codes "applyState"
    ∷ codes "installedIdentity"
    ∷ codes "rollbackState"
    ∷ codes "error"
    ∷ []

abbrev pub u32_max : ℕ
u32_max = 4294967295

-- The record that the fields of an object give.
unfoldable pub operation_of_fields : Json → Result ApplyJournalOperation
operation_of_fields json = do
  transaction_id ← required_string json (codes "transactionId")
  index ← parse_decimal json (codes "index")
  operation_id ← required_string json (codes "operationId")
  intent ← required_string json (codes "intent")
  original_exists ← required_bool json (codes "originalExists")
  original_identity ← required_string json (codes "originalIdentity")
  original_size ← parse_decimal json (codes "originalSize")
  original_sha256 ← required_string json (codes "originalSha256")
  original_permissions_known ← required_bool json (codes "originalPermissionsKnown")
  original_permissions ← parse_decimal json (codes "originalPermissions")
  backup_state_text ← required_string json (codes "backupState")
  apply_state_text ← required_string json (codes "applyState")
  installed_identity ← required_string json (codes "installedIdentity")
  rollback_state_text ← required_string json (codes "rollbackState")
  error ← error_from_json json (codes "error")
  reject_if (ltb u32_max original_permissions) apply_failed
  backup_state ← backup_state_from_name backup_state_text
  apply_state ← apply_state_from_name apply_state_text
  rollback_state ← rollback_state_from_name rollback_state_text
  ok (record {
    schema_version = operation_schema_version;
    transaction_id = transaction_id;
    index = index;
    operation_id = operation_id;
    intent = intent;
    original_exists = original_exists;
    original_identity = original_identity;
    original_size = original_size;
    original_sha256 = original_sha256;
    original_permissions_known = original_permissions_known;
    original_permissions = original_permissions;
    backup_state = backup_state;
    apply_state = apply_state;
    installed_identity = installed_identity;
    rollback_state = rollback_state;
    error = error;
  })

-- parseApplyJournalOperation from the parsed value on. A size_t has 64 bits, so no index is too large
-- for it.
unfoldable pub operation_of_json : Json → Result ApplyJournalOperation
operation_of_json json = do
  (fields, version) ← object_of json (operation_schema_version ∷ [])
  require_only_keys fields operation_keys
  operation ← operation_of_fields json
  validate_operation_record operation
  ok operation
