-- ===== src/ApplyPlan/Accepted.antt =====
-- What an accepted plan is like.
use lib_auto_updater.Base.{
  ℕ, ◌+◌, ◌-◌, ◌≤◌, ◌≡◌, refl, subst, sym, Bool, true, false, not, ◌&&◌, ◌||◌, Option, none, some,
  List, [], ◌∷◌, arith, All, ltb, length, Bool-cases, inl, inr, if◌then◌else◌,
}
use lib_auto_updater.Base.Text.{Bytes}
use lib_auto_updater.Error.{
  ok, ok_inj, >>=-eq-ok, reject_if, reject_if-eq-ok, apply_failed, resource_limit_exceeded,
}
use lib_auto_updater.ManagedPath.{validate_managed_target_path}
use lib_auto_updater.ManagedPath.Segments.{IsManaged, validate_managed_path_iff}
use lib_auto_updater.Base.Options.{some_inj}
use lib_auto_updater.Manifest.Fields.{is_lower_hex_sha256}
use lib_auto_updater.ApplyPlan.{
  PlanLimits, PlanOperation, ApplyOperationPrecondition, is_replace, has, above_mask,
  consume_plan_text_budget, consume_texts, is_bad_precondition, check_precondition, check_source,
  add_artifact, check_operation, check_operations,
}

-- The bytes of some texts.
abbrev pub text_bytes : List Bytes → ℕ
text_bytes [] = 0
text_bytes (t ∷ ts) = length t + text_bytes ts

abbrev precondition_bytes : Option ApplyOperationPrecondition → ℕ
precondition_bytes none = 0
precondition_bytes (some p) = length p.sha256

-- The bytes of text in some operations.
abbrev pub operation_bytes : List PlanOperation → ℕ
operation_bytes [] = 0
operation_bytes (o ∷ os) =
    length o.source
    + length o.target
    + length o.sha256
    + precondition_bytes o.precondition
    + operation_bytes os

-- The bytes of the artifacts that some operations install.
abbrev pub artifact_bytes : List PlanOperation → ℕ
artifact_bytes [] = 0
artifact_bytes (o ∷ os) = (if is_replace o.kind then o.size else 0) + artifact_bytes os

module _ (limits : PlanLimits) where
  consume_plan_text_budget-sum :
      (consumed : ℕ) (value : Bytes) (next : ℕ)
      → consume_plan_text_budget limits consumed value ≡ ok next
      → (next ≡ consumed + length value) × (next ≤ limits.max_apply_plan_bytes)
  unfolding consume_plan_text_budget
  consume_plan_text_budget-sum consumed value next h =
      let (u, e, h1) =
        >>=-eq-ok (reject_if (ltb limits.max_string_bytes (length value)) resource_limit_exceeded) _
          h in
      let (v, e1, h2) =
        >>=-eq-ok
          (reject_if
            (ltb limits.max_apply_plan_bytes consumed
              || ltb (limits.max_apply_plan_bytes - consumed) (length value))
            resource_limit_exceeded)
          _ h1 in
      let fits =
        reject_if-eq-ok
          (ltb limits.max_apply_plan_bytes consumed
            || ltb (limits.max_apply_plan_bytes - consumed) (length value))
          resource_limit_exceeded e1 in
      let same = ok_inj h2 in (sym same, ground arith)

  pub consume_texts-sum :
      (consumed : ℕ) (ts : List Bytes) (next : ℕ)
      → consumed ≤ limits.max_apply_plan_bytes
      → consume_texts limits consumed ts ≡ ok next
      → (next ≡ consumed + text_bytes ts) × (next ≤ limits.max_apply_plan_bytes)
  unfolding consume_texts
  consume_texts-sum consumed [] next k h = let same = ok_inj h in (ground arith, ground arith)
  consume_texts-sum consumed (t ∷ ts) next k h =
      let (n, e, h1) = >>=-eq-ok (consume_plan_text_budget limits consumed t) _ h in
      let (s, le) = consume_plan_text_budget-sum consumed t n e in
      let (s', le') = consume_texts-sum n ts next le h1 in (omega (arith, s, s'), le')

  check_precondition-sum :
      (schema_version consumed : ℕ) (p : Option ApplyOperationPrecondition) (next : ℕ)
      → consumed ≤ limits.max_apply_plan_bytes
      → check_precondition limits schema_version consumed p ≡ ok next
      → (next ≡ consumed + precondition_bytes p) × (next ≤ limits.max_apply_plan_bytes)
  unfolding check_precondition
  check_precondition-sum schema_version consumed none next k h =
      let same = ok_inj h in (ground arith, ground arith)
  check_precondition-sum schema_version consumed (some p) next k h =
      let (u, e, h1) =
        >>=-eq-ok (reject_if (is_bad_precondition limits schema_version p) apply_failed) _ h in
      consume_plan_text_budget-sum consumed p.sha256 next h1

  add_artifact-sum :
      (total : ℕ) (o : PlanOperation) (next : ℕ)
      → total ≤ limits.max_total_artifact_bytes
      → add_artifact limits total o ≡ ok next
      → (next ≡ total + (if is_replace o.kind then o.size else 0))
        × (next ≤ limits.max_total_artifact_bytes)
  unfolding add_artifact
  add_artifact-sum total o next k h = elim (Bool-cases (is_replace o.kind)) [
    | inl e ↦
        let (u, e1, h1) =
          >>=-eq-ok
            (reject_if
              (ltb limits.max_total_artifact_bytes total
                || ltb (limits.max_total_artifact_bytes - total) o.size)
              resource_limit_exceeded)
            _ (rw (add_artifact, e) at h) in
        let fits =
          reject_if-eq-ok
            (ltb limits.max_total_artifact_bytes total
              || ltb (limits.max_total_artifact_bytes - total) o.size)
            resource_limit_exceeded e1 in
        let same = ok_inj h1 in rw e (sym same, ground arith)
    | inr e ↦ let same = ok_inj (rw (add_artifact, e) at h) in rw e (ground arith, ground arith)
  ]

-- An operation that is let through.
pub record IsSound (limits : PlanLimits) (o : PlanOperation) : Type 0 where
  pub source : is_replace o.kind ≡ true → IsManaged o.source
  pub small : o.size ≤ limits.max_artifact_bytes
  pub permissions : above_mask o.permissions ≡ false
  pub precondition :
      (p : ApplyOperationPrecondition)
      → o.precondition ≡ some p
      → p.was_there ≡ true
      → is_lower_hex_sha256 p.sha256 ≡ true

source_of :
    (o : PlanOperation) → check_source o ≡ ok tt → is_replace o.kind ≡ true → IsManaged o.source
source_of o h e = (validate_managed_path_iff o.source).0 (rw e at h)

precondition_of :
    (limits : PlanLimits) (schema_version consumed : ℕ) (q : Option ApplyOperationPrecondition)
    (next : ℕ)
    → check_precondition limits schema_version consumed q ≡ ok next
    → (p : ApplyOperationPrecondition) → q ≡ some p
    → p.was_there ≡ true
    → is_lower_hex_sha256 p.sha256 ≡ true
unfolding check_precondition
precondition_of limits schema_version consumed none next h p e k = cc
precondition_of limits schema_version consumed (some q) next h p e k =
    let (u, e1, h1) =
      >>=-eq-ok (reject_if (is_bad_precondition limits schema_version q) apply_failed) _ h in
    subst (λ x. x.was_there ≡ true → is_lower_hex_sha256 x.sha256 ≡ true) (some_inj e)
      (λ there.
        digest q there
          (reject_if-eq-ok (is_bad_precondition limits schema_version q) apply_failed e1))
      k
  where
    digest :
        (x : ApplyOperationPrecondition)
        → x.was_there ≡ true
        → is_bad_precondition limits schema_version x ≡ false
        → is_lower_hex_sha256 x.sha256 ≡ true
    digest x there fine = ground arith

-- The sums after one operation and what it is like.
record Step (limits : PlanLimits) (before : ℕ × ℕ) (o : PlanOperation) (after : ℕ × ℕ)
    : Type 0 where
  sound : IsSound limits o
  text :
      after.0
      ≡ before.0
        + (length o.source + length o.target + length o.sha256 + precondition_bytes o.precondition)
  text_fits : after.0 ≤ limits.max_apply_plan_bytes
  artifacts : after.1 ≡ before.1 + (if is_replace o.kind then o.size else 0)
  artifacts_fit : after.1 ≤ limits.max_total_artifact_bytes

check_operation-Step :
    (limits : PlanLimits) (schema_version consumed total : ℕ) (o : PlanOperation) (after : ℕ × ℕ)
    → consumed ≤ limits.max_apply_plan_bytes
    → total ≤ limits.max_total_artifact_bytes
    → check_operation limits schema_version (consumed, total) o ≡ ok after
    → Step limits (consumed, total) o after
unfolding check_operation
check_operation-Step limits schema_version consumed total o after k l h =
    let (u, e1, h1) = >>=-eq-ok (validate_managed_target_path o.target) _ h in
    let (v, e2, h2) = >>=-eq-ok (check_source o) _ h1 in
    let (counted, e3, h3) =
      >>=-eq-ok (consume_texts limits consumed (o.source ∷ o.target ∷ o.sha256 ∷ [])) _ h2 in
    let (w, e4, h4) =
      >>=-eq-ok (reject_if (ltb limits.max_artifact_bytes o.size) resource_limit_exceeded) _ h3 in
    let (x, e5, h5) =
      >>=-eq-ok
        (reject_if (has o.permissions && (not (is_replace o.kind) || above_mask o.permissions))
          apply_failed)
        _ h4 in
    let (next, e6, h6) =
      >>=-eq-ok (check_precondition limits schema_version counted o.precondition) _ h5 in
    let (sum, e7, h7) = >>=-eq-ok (add_artifact limits total o) _ h6 in
    let small = reject_if-eq-ok (ltb limits.max_artifact_bytes o.size) resource_limit_exceeded e4 in
    let mask =
      reject_if-eq-ok (has o.permissions && (not (is_replace o.kind) || above_mask o.permissions))
        apply_failed e5 in
    let (s, le) =
      consume_texts-sum limits consumed (o.source ∷ o.target ∷ o.sha256 ∷ []) counted k e3 in
    let (s', le') =
      check_precondition-sum limits schema_version counted o.precondition next le e6 in
    let (t, le'') = add_artifact-sum limits total o sum l e7 in
    subst (Step limits (consumed, total) o) (ok_inj h7) (record {
      sound = record {
        source = source_of o e2;
        small = fits o.size small;
        permissions = no_mask o.permissions (is_replace o.kind) mask;
        precondition = precondition_of limits schema_version counted o.precondition next e6;
      };
      text = omega (arith, s, s');
      text_fits = le';
      artifacts = t;
      artifacts_fit = le'';
    })
  where
    fits : (n : ℕ) → ltb limits.max_artifact_bytes n ≡ false → n ≤ limits.max_artifact_bytes
    fits n e = ground arith

    no_mask :
        (p : Option ℕ) (b : Bool)
        → (has p && (not b || above_mask p)) ≡ false
        → above_mask p ≡ false
    no_mask none b e = refl
    no_mask (some n) b e = ground arith

pub check_operations-sum :
    (limits : PlanLimits) (schema_version consumed total : ℕ) (os : List PlanOperation)
    (after : ℕ × ℕ)
    → consumed ≤ limits.max_apply_plan_bytes
    → total ≤ limits.max_total_artifact_bytes
    → check_operations limits schema_version (consumed, total) os ≡ ok after
    → All (IsSound limits) os
      × (consumed + operation_bytes os ≤ limits.max_apply_plan_bytes)
      × (total + artifact_bytes os ≤ limits.max_total_artifact_bytes)
unfolding check_operations
check_operations-sum limits schema_version consumed total [] after k l h =
    (tt, omega (arith, k), omega (arith, l))
check_operations-sum limits schema_version consumed total (o ∷ os) after k l h =
    let ((c, t), e, h1) =
      >>=-eq-ok (check_operation limits schema_version (consumed, total) o) _ h in
    let s = check_operation-Step limits schema_version consumed total o (c, t) k l e in
    let (sound, text, artifacts) =
      check_operations-sum limits schema_version c t os after s.text_fits s.artifacts_fit h1 in
    ((s.sound, sound), omega (arith, s.text, text), omega (arith, s.artifacts, artifacts))
