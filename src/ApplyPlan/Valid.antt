-- ===== src/ApplyPlan/Valid.antt =====
-- The checks on a plan, put together.
use lib_auto_updater.Base.{
  ℕ, ◌+◌, ◌≤◌, ◌≡◌, refl, Bool, true, false, not, ◌&&◌, ◌||◌, ◌⊎◌, Option, none, some, List, map,
  arith, All, any_of, ltb, ◌==◌, length, Bool-cases, inl, inr,
}
use lib_auto_updater.Base.Text.{Bytes}
use lib_auto_updater.Error.{
  ok, >>=-eq-ok, reject_if, reject_if-eq-ok, apply_failed, resource_limit_exceeded,
  unsupported_manifest_schema,
}
use lib_auto_updater.ManagedPath.{validate_managed_target_paths}
use lib_auto_updater.ManagedPath.Sorted.{AllPairs}
use lib_auto_updater.ManagedPath.Targets.{IsTarget, Separate, validate_managed_target_paths_iff}
use lib_auto_updater.ApplyPlan.{
  ApplyPlan, PlanLimits, ApplyTransactionReference, is_rollback, has, has_later_field,
  consume_texts, check_intent, plan_texts, check_operations, validate_apply_plan_resources,
  is_bad_reference,
}
use lib_auto_updater.ApplyPlan.Accepted.{
  IsSound, text_bytes, operation_bytes, artifact_bytes, consume_texts-sum, check_operations-sum,
}

abbrev pub targets_of : ApplyPlan → List Bytes
targets_of plan = map (λ operation. operation.target) plan.operations

pub record IsAccepted (plan : ApplyPlan) (limits : PlanLimits) : Type 0 where
  pub version : (plan.schema_version ≡ 1) ⊎ (plan.schema_version ≡ 2)
  pub reference : has plan.rollback_of ≡ is_rollback plan.plan_intent
  pub digests : is_rollback plan.plan_intent ≡ true → is_bad_reference plan.rollback_of ≡ false
  pub rollback_version : is_rollback plan.plan_intent ≡ true → plan.schema_version ≡ 2
  pub targets : All IsTarget (targets_of plan)
  pub separate : AllPairs Separate (targets_of plan)
  pub operations : All (IsSound limits) plan.operations
  pub text :
      1024 + text_bytes (plan_texts plan) + operation_bytes plan.operations
      ≤ limits.max_apply_plan_bytes
  pub artifacts : artifact_bytes plan.operations ≤ limits.max_total_artifact_bytes

-- What the checks on the intent leave.
IntentFits : ApplyPlan → Type 0
IntentFits plan =
    (has plan.rollback_of ≡ is_rollback plan.plan_intent)
    × (is_rollback plan.plan_intent ≡ true → is_bad_reference plan.rollback_of ≡ false)
    × (is_rollback plan.plan_intent ≡ true → plan.schema_version ≡ 2)

has_reference : (o : Option ApplyTransactionReference) → is_bad_reference o ≡ false → has o ≡ true
has_reference none h = cc
has_reference (some r) h = refl

check_intent-IntentFits : (plan : ApplyPlan) → check_intent plan ≡ ok tt → IntentFits plan
unfolding check_intent IntentFits
check_intent-IntentFits plan h = elim (Bool-cases (is_rollback plan.plan_intent)) [
  | inl e ↦
      let fine =
        reject_if-eq-ok (not (plan.schema_version == 2) || is_bad_reference plan.rollback_of)
          apply_failed (rw (check_intent, e) at h) in
      let good = no_bad plan.schema_version (is_bad_reference plan.rollback_of) fine in
      rw e (has_reference plan.rollback_of good.0, (λ k. good.0), (λ k. good.1))
  | inr e ↦
      let none_there =
        reject_if-eq-ok (has plan.rollback_of) apply_failed (rw (check_intent, e) at h) in
      rw e (none_there, (λ k. cc), (λ k. cc))
]
  where
    no_bad : (n : ℕ) (b : Bool) → (not (n == 2) || b) ≡ false → (b ≡ false) × (n ≡ 2)
    no_bad n b k = (ground arith, ground arith)

-- An accepted plan has valid targets that are pairwise separate and managed sources; its texts and its
-- artifacts fit their limits as sums of natural numbers; and it refers to a transaction exactly if it is
-- a rollback.
pub validate_apply_plan_resources-IsAccepted :
    (plan : ApplyPlan) (limits : PlanLimits)
    → validate_apply_plan_resources plan limits ≡ ok tt
    → IsAccepted plan limits
unfolding validate_apply_plan_resources IntentFits
validate_apply_plan_resources-IsAccepted plan limits h =
    let (a, e1, h1) =
      >>=-eq-ok
        (reject_if (not (plan.schema_version == 1) && not (plan.schema_version == 2))
          unsupported_manifest_schema)
        _ h in
    let (b, e2, h2) =
      >>=-eq-ok
        (reject_if
          (plan.schema_version == 1 && (is_rollback plan.plan_intent || has plan.rollback_of))
          apply_failed)
        _ h1 in
    let (c, e3, h3) =
      >>=-eq-ok
        (reject_if
          (ltb limits.max_container_entries (length plan.operations)
            || ltb limits.max_container_entries (length plan.restart_command))
          resource_limit_exceeded)
        _ h2 in
    let (d, e4, h4) =
      >>=-eq-ok
        (reject_if (plan.schema_version == 1 && any_of has_later_field plan.operations)
          apply_failed)
        _ h3 in
    let (e, e5, h5) = >>=-eq-ok (check_intent plan) _ h4 in
    let (f, e6, h6) = >>=-eq-ok (validate_managed_target_paths (targets_of plan)) _ h5 in
    let (g, e7, h7) =
      >>=-eq-ok (reject_if (ltb limits.max_apply_plan_bytes 1024) resource_limit_exceeded) _ h6 in
    let (counted, e8, h8) = >>=-eq-ok (consume_texts limits 1024 (plan_texts plan)) _ h7 in
    let (sums, e9, h9) =
      >>=-eq-ok (check_operations limits plan.schema_version (counted, 0) plan.operations) _ h8 in
    let room = reject_if-eq-ok (ltb limits.max_apply_plan_bytes 1024) resource_limit_exceeded e7 in
    let (s, le) =
      consume_texts-sum limits 1024 (plan_texts plan) counted
        (at_least limits.max_apply_plan_bytes room) e8 in
    let (sound, text, artifacts) =
      check_operations-sum limits plan.schema_version counted 0 plan.operations sums le
        (omega arith) e9 in
    let (reference, digests, rollback_version) = check_intent-IntentFits plan e5 in
    let (targets, separate) = (validate_managed_target_paths_iff (targets_of plan)).0 e6 in
    record {
      version = one_or_two plan.schema_version (
          reject_if-eq-ok (not (plan.schema_version == 1) && not (plan.schema_version == 2))
            unsupported_manifest_schema e1);
      reference = reference;
      digests = digests;
      rollback_version = rollback_version;
      targets = targets;
      separate = separate;
      operations = sound;
      text = omega (arith, s, text);
      artifacts = omega (arith, artifacts);
    }
  where
    at_least : (n : ℕ) → ltb n 1024 ≡ false → 1024 ≤ n
    at_least n k = ground arith

    one_or_two : (n : ℕ) → (not (n == 1) && not (n == 2)) ≡ false → (n ≡ 1) ⊎ (n ≡ 2)
    one_or_two n k = ground arith
