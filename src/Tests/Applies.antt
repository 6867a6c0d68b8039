-- ===== src/Tests/Applies.antt =====
-- A plan with one replacement and one removal, and the journal record of its first operation.
use lib_auto_updater.Manifest.Fields.{is_lower_hex_sha256}
use lib_auto_updater.Base.{ℕ, ◌≡◌, refl, true, some, none, [], ◌∷◌, arith}
use lib_auto_updater.Base.Text.{bytes_eq, Bytes, codes, bytes_compare, starts_with}
use lib_auto_updater.Error.{ok, fail, resource_limit_exceeded}
use lib_auto_updater.Json.{Json}
use lib_auto_updater.ManagedPath.{
  validate_managed_target_paths, lookup_keys, validate_managed_target_path, validate_managed_path,
  has_drive_prefix, is_unsafe_portable_segment, is_windows_device_name, to_upper, to_lower,
  is_updater_state_segment, any_neighbours_conflict, sort_keys, insert_key, is_descendant_key,
  managed_path_lookup_key,
}
use lib_auto_updater.Base.Text.Split.{cut, split}
use lib_auto_updater.ApplyPlan.{
  check_intent, consume_plan_text_budget, consume_texts, check_precondition, add_artifact,
  check_operation, check_operations, ApplyPlan, PlanLimits, replaces, removes, rollback,
  validate_apply_plan_resources,
}
use lib_auto_updater.ApplyPlan.Valid.{IsAccepted, validate_apply_plan_resources-IsAccepted}
use lib_auto_updater.Journal.States.{JournalBackupState, JournalApplyState, JournalRollbackState}
use lib_auto_updater.Journal.Operation.{
  validate_original, ApplyJournalOperation, validate_operation_record, operation_to_json,
  operation_of_json,
}
use lib_auto_updater.Journal.RoundTrip.{
  operation_of_json-IsOperation, IsOperation, operation_of_json-operation_to_json,
}

abbrev digest : Bytes
digest = codes "0123456789abcdef0123456789abcdef0123456789abcdef0123456789abcdef"

abbrev rollback_plan : ApplyPlan
rollback_plan = record {
  schema_version = 2;
  plan_intent = rollback;
  rollback_of = some (record { transaction_id = digest; plan_digest = digest });
  app_id = codes "app";
  from_version = codes "2.0.0";
  to_version = codes "1.0.0";
  release_id = [];
  manifest_sha256 = digest;
  install_dir = codes "/opt/app";
  staging_dir = codes "/opt/app/.autoupdater/s";
  backup_dir = codes "/opt/app/.autoupdater/b";
  restart_command = codes "/opt/app/run" ∷ [];
  operations =
      record {
        kind = replaces;
        source = codes "lib/a";
        target = codes "lib/a";
        sha256 = digest;
        size = 700;
        permissions = some 493;
        precondition =
            some (record { was_there = true; size = 9; sha256 = digest; permissions = none });
      }
      ∷ record {
        kind = removes;
        source = [];
        target = codes "lib/b";
        sha256 = [];
        size = 0;
        permissions = none;
        precondition = none;
      }
      ∷ [];
}

abbrev limits_of : ℕ → PlanLimits
limits_of total = record {
  max_string_bytes = 1048576;
  max_container_entries = 10000;
  max_apply_plan_bytes = 8388608;
  max_artifact_bytes = 8589934592;
  max_total_artifact_bytes = total;
}

plan_accepted : validate_apply_plan_resources rollback_plan (limits_of 700) ≡ ok tt
unfolding validate_apply_plan_resources check_intent consume_plan_text_budget consume_texts
    check_precondition add_artifact check_operation check_operations validate_managed_target_paths
    lookup_keys validate_managed_target_path validate_managed_path has_drive_prefix
    is_unsafe_portable_segment is_windows_device_name to_upper to_lower is_updater_state_segment
    any_neighbours_conflict sort_keys insert_key is_descendant_key managed_path_lookup_key
    is_lower_hex_sha256 bytes_eq bytes_compare starts_with cut split
plan_accepted = refl

plan_too_large :
    validate_apply_plan_resources rollback_plan (limits_of 699) ≡ fail resource_limit_exceeded
unfolding validate_apply_plan_resources check_intent consume_plan_text_budget consume_texts
    check_precondition add_artifact check_operation check_operations validate_managed_target_paths
    lookup_keys validate_managed_target_path validate_managed_path has_drive_prefix
    is_unsafe_portable_segment is_windows_device_name to_upper to_lower is_updater_state_segment
    any_neighbours_conflict sort_keys insert_key is_descendant_key managed_path_lookup_key
    is_lower_hex_sha256 bytes_eq bytes_compare starts_with cut split
plan_too_large = refl

validate_apply_plan_resources-IsAccepted_example : IsAccepted rollback_plan (limits_of 700)
validate_apply_plan_resources-IsAccepted_example =
    validate_apply_plan_resources-IsAccepted rollback_plan (limits_of 700) plan_accepted

abbrev first_operation : ApplyJournalOperation
first_operation = record {
  schema_version = 2;
  transaction_id = digest;
  index = 12;
  operation_id = digest;
  intent = codes "replace";
  original_exists = true;
  original_identity = codes "1:2";
  original_size = 9;
  original_sha256 = digest;
  original_permissions_known = true;
  original_permissions = 420;
  backup_state = JournalBackupState.durable;
  apply_state = JournalApplyState.intent;
  installed_identity = [];
  rollback_state = JournalRollbackState.not_started;
  error = record { code = []; message = [] };
}

operation_valid : validate_operation_record first_operation ≡ ok tt
unfolding validate_operation_record is_lower_hex_sha256 bytes_eq validate_original
operation_valid = refl

first_operation-IsOperation : IsOperation first_operation
first_operation-IsOperation = record {
  version = refl;
  small_index = omega arith;
  small_size = omega arith;
  small_permissions = omega arith;
  valid = operation_valid;
}

operation_of_json-operation_to_json_example :
    (json : Json) × (operation_to_json first_operation ≡ ok json)
    × (operation_of_json json ≡ ok first_operation)
operation_of_json-operation_to_json_example =
    operation_of_json-operation_to_json first_operation first_operation-IsOperation

written :
    (json : Json) × (operation_to_json first_operation ≡ ok json)
    × (operation_of_json json ≡ ok first_operation)
written = operation_of_json-operation_to_json first_operation first_operation-IsOperation

operation_of_json-IsOperation_example : IsOperation first_operation
operation_of_json-IsOperation_example =
    operation_of_json-IsOperation (written.0) first_operation (written.2)
