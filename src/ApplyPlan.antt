-- ===== src/ApplyPlan.antt =====
-- include/libAutoUpdater/ApplyPlan.h and the checks that updater/ApplyExecutor.cpp makes on a plan
-- before it touches a file.
pub mod Accepted
pub mod Valid
use lib_auto_updater.Base.{
  ℕ, ◌+◌, ◌-◌, Bool, true, false, not, ◌&&◌, ◌||◌, Option, none, some, List, [], ◌∷◌, ◌++◌, map,
  any_of, ltb, ◌==◌, is_empty, length, if◌then◌else◌,
}
use lib_auto_updater.Base.Text.{Bytes}
use lib_auto_updater.Error.{
  Result, ok, fail, ◌>>=◌, ◌>>◌, reject_if, apply_failed, resource_limit_exceeded,
  unsupported_manifest_schema,
}
use lib_auto_updater.ManagedPath.{
  validate_managed_path, validate_managed_target_path, validate_managed_target_paths,
}
use lib_auto_updater.Manifest.Fields.{is_lower_hex_sha256}

pub data ApplyOperationType : Type 0 where
  replaces removes : ApplyOperationType

pub data ApplyPlanIntent : Type 0 where
  install rollback : ApplyPlanIntent

pub record ApplyTransactionReference : Type 0 where
  pub transaction_id : Bytes
  pub plan_digest : Bytes

pub record ApplyOperationPrecondition : Type 0 where
  pub was_there : Bool
  pub size : ℕ
  pub sha256 : Bytes
  pub permissions : Option ℕ

pub record PlanOperation : Type 0 where
  pub kind : ApplyOperationType
  pub source : Bytes
  pub target : Bytes
  pub sha256 : Bytes
  pub size : ℕ
  pub permissions : Option ℕ
  pub precondition : Option ApplyOperationPrecondition

-- The directories are their texts.
pub record ApplyPlan : Type 0 where
  pub schema_version : ℕ
  pub plan_intent : ApplyPlanIntent
  pub rollback_of : Option ApplyTransactionReference
  pub app_id : Bytes
  pub from_version : Bytes
  pub to_version : Bytes
  pub release_id : Bytes
  pub manifest_sha256 : Bytes
  pub install_dir : Bytes
  pub staging_dir : Bytes
  pub backup_dir : Bytes
  pub restart_command : List Bytes
  pub operations : List PlanOperation

-- The limits that the checks read.
pub record PlanLimits : Type 0 where
  pub max_string_bytes : ℕ
  pub max_container_entries : ℕ
  pub max_apply_plan_bytes : ℕ
  pub max_artifact_bytes : ℕ
  pub max_total_artifact_bytes : ℕ

abbrev pub is_replace : ApplyOperationType → Bool
is_replace replaces = true
is_replace removes = false

abbrev pub is_rollback : ApplyPlanIntent → Bool
is_rollback install = false
is_rollback rollback = true

abbrev pub has {ℓ} : {A : Type ℓ} → Option A → Bool
has none = false
has (some a) = true

abbrev pub portable_permission_mask : ℕ
portable_permission_mask = 511

abbrev pub above_mask : Option ℕ → Bool
above_mask none = false
above_mask (some n) = ltb portable_permission_mask n

-- The text budget; `consumed` is what has been counted so far.
unfoldable pub consume_plan_text_budget : PlanLimits → ℕ → Bytes → Result ℕ
consume_plan_text_budget limits consumed value = do
  reject_if (ltb limits.max_string_bytes (length value)) resource_limit_exceeded
  reject_if
      (ltb limits.max_apply_plan_bytes consumed
        || ltb (limits.max_apply_plan_bytes - consumed) (length value))
      resource_limit_exceeded
  ok (consumed + length value)

unfoldable pub consume_texts : PlanLimits → ℕ → List Bytes → Result ℕ
consume_texts limits consumed [] = ok consumed
consume_texts limits consumed (value ∷ values) = do
  next ← consume_plan_text_budget limits consumed value
  consume_texts limits next values

abbrev pub has_later_field : PlanOperation → Bool
has_later_field operation = has operation.permissions || has operation.precondition

abbrev pub is_bad_reference : Option ApplyTransactionReference → Bool
is_bad_reference none = true
is_bad_reference (some reference) =
    not (is_lower_hex_sha256 reference.transaction_id)
    || not (is_lower_hex_sha256 reference.plan_digest)

unfoldable pub check_intent : ApplyPlan → Result (Unit {0})
check_intent plan =
    if is_rollback plan.plan_intent
    then reject_if (not (plan.schema_version == 2) || is_bad_reference plan.rollback_of)
        apply_failed
    else reject_if (has plan.rollback_of) apply_failed

abbrev pub reference_texts : Option ApplyTransactionReference → List Bytes
reference_texts none = []
reference_texts (some reference) = reference.transaction_id ∷ reference.plan_digest ∷ []

-- The texts of the plan outside its operations, in the order in which they are counted.
abbrev pub plan_texts : ApplyPlan → List Bytes
plan_texts plan =
    plan.app_id
      ∷ plan.from_version
      ∷ plan.to_version
      ∷ plan.release_id
      ∷ plan.manifest_sha256
      ∷ plan.install_dir
      ∷ plan.staging_dir
      ∷ plan.backup_dir
      ∷ reference_texts plan.rollback_of
    ++ plan.restart_command

abbrev pub is_bad_precondition : PlanLimits → ℕ → ApplyOperationPrecondition → Bool
is_bad_precondition limits schema_version p =
    ltb schema_version 2
    || above_mask p.permissions
    || (p.was_there && (not (is_lower_hex_sha256 p.sha256) || ltb limits.max_artifact_bytes p.size))
    || (not p.was_there && (not (p.size == 0) || not (is_empty p.sha256) || has p.permissions))

unfoldable pub check_precondition :
    PlanLimits → ℕ → ℕ → Option ApplyOperationPrecondition → Result ℕ
check_precondition limits schema_version consumed none = ok consumed
check_precondition limits schema_version consumed (some p) = do
  reject_if (is_bad_precondition limits schema_version p) apply_failed
  consume_plan_text_budget limits consumed p.sha256

abbrev pub check_source : PlanOperation → Result (Unit {0})
check_source operation =
    if is_replace operation.kind then validate_managed_path operation.source else ok tt

-- What a replacement adds to the sum of the artifacts.
unfoldable pub add_artifact : PlanLimits → ℕ → PlanOperation → Result ℕ
add_artifact limits total operation =
    if is_replace operation.kind
    then (do
      reject_if
          (ltb limits.max_total_artifact_bytes total
            || ltb (limits.max_total_artifact_bytes - total) operation.size)
          resource_limit_exceeded
      ok (total + operation.size))
    else ok total

-- One round of the loop over the operations: the bytes of text and of artifacts so far.
unfoldable pub check_operation : PlanLimits → ℕ → ℕ × ℕ → PlanOperation → Result (ℕ × ℕ)
check_operation limits schema_version (consumed, total) operation = do
  validate_managed_target_path operation.target
  check_source operation
  counted ←
      consume_texts limits consumed (operation.source ∷ operation.target ∷ operation.sha256 ∷ [])
  reject_if (ltb limits.max_artifact_bytes operation.size) resource_limit_exceeded
  reject_if
      (has operation.permissions
        && (not (is_replace operation.kind) || above_mask operation.permissions))
      apply_failed
  next ← check_precondition limits schema_version counted operation.precondition
  sum ← add_artifact limits total operation
  ok (next, sum)

unfoldable pub check_operations : PlanLimits → ℕ → ℕ × ℕ → List PlanOperation → Result (ℕ × ℕ)
check_operations limits schema_version sums [] = ok sums
check_operations limits schema_version sums (operation ∷ operations) = do
  next ← check_operation limits schema_version sums operation
  check_operations limits schema_version next operations

-- validateApplyPlanResources up to the plan being printed and parsed again.
unfoldable pub validate_apply_plan_resources : ApplyPlan → PlanLimits → Result (Unit {0})
validate_apply_plan_resources plan limits = do
  reject_if (not (plan.schema_version == 1) && not (plan.schema_version == 2))
      unsupported_manifest_schema
  reject_if (plan.schema_version == 1 && (is_rollback plan.plan_intent || has plan.rollback_of))
      apply_failed
  reject_if
      (ltb limits.max_container_entries (length plan.operations)
        || ltb limits.max_container_entries (length plan.restart_command))
      resource_limit_exceeded
  reject_if (plan.schema_version == 1 && any_of has_later_field plan.operations) apply_failed
  check_intent plan
  validate_managed_target_paths (map (λ operation. operation.target) plan.operations)
  reject_if (ltb limits.max_apply_plan_bytes 1024) resource_limit_exceeded
  counted ← consume_texts limits 1024 (plan_texts plan)
  check_operations limits plan.schema_version (counted, 0) plan.operations
  ok tt
