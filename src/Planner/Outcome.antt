-- ===== src/Planner/Outcome.antt =====
-- The outcomes of `planUpdate`: what it has checked whenever it returns a decision, and which
-- decision it returns.
use lib_auto_updater.Base.{
  ◌≡◌, refl, Bool, true, false, not, ◌&&◌, Option, List, ◌++◌, map, arith, All, Bool-cases, inl,
  inr, ◌⊎◌, if◌then◌else◌,
}
use lib_auto_updater.Base.Text.{Bytes}
use lib_auto_updater.Error.{
  Result, ok, >>=-eq-ok, reject_if, reject_if-eq-ok, security_policy_violation,
}
use lib_auto_updater.Version.{Version, version_lt, version_eq}
use lib_auto_updater.Rfc3339.{UtcInstant}
use lib_auto_updater.ManagedPath.{validate_managed_target_paths, managed_path_lookup_key}
use lib_auto_updater.ManagedPath.Targets.{IsTarget, validate_managed_target_paths-keys}
use lib_auto_updater.ManagedPath.Sorted.{AllPairs, Apart}
use lib_auto_updater.Manifest.{Manifest, target_of}
use lib_auto_updater.Planner.{
  validate_manifest_against_config, plan_files, plan_removes, plan_changes, plan_update,
}
use lib_auto_updater.Planner.Decision.{
  select, IsAllowed, Staged, plan_files-PlansFiles, plan_removes-eq-ok,
}
use lib_auto_updater.Planner.Types.{
  Config, ManifestEnvelope, LocalSnapshot, UpdateDecision, remove, needs_download, replacement,
  first_result, no_change, is_downgrade_of, downgrade_allowed, older_than, check_snapshot,
}
use lib_auto_updater.Planner.Urls.{ParsedUrl, UrlRules}

-- The paths that a manifest names on the client.
abbrev pub named_targets : Manifest → List Bytes
named_targets m = map target_of m.files ++ m.remove

-- The decision to change the installation, in full.
pub record Changes (config : Config) (manifest : Manifest) (snapshot : LocalSnapshot)
    (d : UpdateDecision) : Type 0 where
  pub result :
      d.check_result
      ≡ (let r = first_result config manifest in record r { update_available = true })
  pub operations :
      d.operations
      ≡ map replacement (select (needs_download snapshot) manifest.files)
        ++ map remove manifest.remove
  pub downloads : Staged config (select (needs_download snapshot) manifest.files) d.downloads
  pub files_allowed : All (λ f. IsAllowed config (target_of f)) manifest.files
  pub removes_allowed : All (IsAllowed config) manifest.remove

module _ (urls : UrlRules) (config : Config) where
  plan_changes-Changes :
      (manifest : Manifest) (policy : urls.Policy) (base : ParsedUrl) (snapshot : LocalSnapshot)
      (d : UpdateDecision)
      → plan_changes urls config manifest policy base snapshot (first_result config manifest) ≡ ok d
      → Changes config manifest snapshot d
  unfolding plan_changes
  plan_changes-Changes manifest policy base snapshot d h =
      let (u, es, h1) = >>=-eq-ok (check_snapshot snapshot) _ h in
      let (p, ep, h2) =
        >>=-eq-ok (plan_files urls config policy base snapshot manifest.files) _ h1 in
      let (q, eq, h3) = >>=-eq-ok (plan_removes urls config manifest.remove) _ h2 in
      let files = plan_files-PlansFiles urls config policy base snapshot manifest.files p ep in
      let removes = plan_removes-eq-ok urls config manifest.remove q eq in
      let same : d ≡ record {
        check_result =
            (let r = first_result config manifest in record r { update_available = true });
        downloads = p.0;
        operations = p.1 ++ q;
      } =
        cc in
      rw same (record {
        result = refl;
        operations = rw (files.1, removes.0);
        downloads = files.2;
        files_allowed = files.0;
        removes_allowed = removes.1;
      })

  module _ (envelope : ManifestEnvelope) (snapshot : LocalSnapshot) (accepted : Option Version)
      (now : UtcInstant) where
    abbrev manifest : Manifest
    manifest = envelope.manifest

    -- What holds whenever a decision is returned.
    pub record Checked : Type 0 where
      pub targets : All IsTarget (named_targets manifest)
      pub apart : AllPairs Apart (map managed_path_lookup_key (named_targets manifest))
      pub gate :
          (is_downgrade_of config envelope accepted ≡ false)
          ⊎ (downgrade_allowed config envelope ≡ true)

    -- The three decisions.
    pub data Outcome (d : UpdateDecision) : Type 0 where
      reinstall :
          older_than config.current_version manifest.min_version ≡ true
          → d
            ≡ no_change
                (let r = first_result config manifest in record r { reinstall_required = true })
          → Outcome d
      up_to_date :
          version_lt config.current_version manifest.version ≡ false
          → d ≡ no_change (first_result config manifest)
          → Outcome d
      changed :
          older_than config.current_version manifest.min_version ≡ false
          → (version_lt config.current_version manifest.version ≡ true)
            ⊎ ((downgrade_allowed config envelope ≡ true)
                × (version_eq manifest.version config.current_version ≡ false))
          → Changes config manifest snapshot d
          → Outcome d

    validated_targets :
        (policy : urls.Policy)
        → validate_manifest_against_config urls config envelope policy now ≡ ok tt
        → validate_managed_target_paths (named_targets manifest) ≡ ok tt
    unfolding validate_manifest_against_config
    validated_targets policy h =
        (>>=-eq-ok (validate_managed_target_paths (named_targets manifest)) _ h).1

    abbrev down : Bool
    down = is_downgrade_of config envelope accepted

    abbrev allowed : Bool
    allowed = downgrade_allowed config envelope

    gate_of : (down && not (down && allowed)) ≡ false → (down ≡ false) ⊎ (allowed ≡ true)
    gate_of h = ground arith

    abbrev no_reason : Bool
    no_reason =
        not (version_lt config.current_version manifest.version)
        && not (down && allowed && not (version_eq manifest.version config.current_version))

    Outcome-of :
        (policy : urls.Policy) (base : ParsedUrl) (d : UpdateDecision)
        → (if older_than config.current_version manifest.min_version
            then ok (
                no_change
                  (let r = first_result config manifest in record r { reinstall_required = true }))
            else if not (version_lt config.current_version manifest.version)
                && not (down && allowed && not (version_eq manifest.version config.current_version))
            then ok (no_change (first_result config manifest))
            else plan_changes urls config manifest policy base snapshot
                (first_result config manifest))
          ≡ ok d
        → Outcome d
    Outcome-of policy base d h =
        elim (Bool-cases (older_than config.current_version manifest.min_version)) [
          | inl old ↦ reinstall old (first (rw old at h))
          | inr young ↦ elim (Bool-cases no_reason) [
            | inl same ↦ up_to_date (ground arith) (first (rw (young, same) at h))
            | inr more ↦
                changed young (ground arith)
                  (plan_changes-Changes manifest policy base snapshot d (rw (young, more) at h))
          ]
        ]
      where
        first : {x : UpdateDecision} → Result.ok x ≡ ok d → d ≡ x
        first e = cc

    -- Whenever a decision is returned, the targets are valid and apart and the downgrade gate was
    -- passed; and the decision is that a reinstall is required, that nothing changes, or, where the
    -- version is above the installed one or an allowed downgrade to another one, the changes in full.
    pub plan_update-Outcome :
        (d : UpdateDecision)
        → plan_update urls config envelope snapshot accepted now ≡ ok d
        → Checked × Outcome d
    unfolding plan_update
    plan_update-Outcome d h =
        let (policy, e0, h0) = >>=-eq-ok urls.policy _ h in
        let (u, e1, h1) =
          >>=-eq-ok (validate_manifest_against_config urls config envelope policy now) _ h0 in
        let (base, e2, h2) = >>=-eq-ok (urls.authorize policy envelope.artifact_base_url) _ h1 in
        let (v, e3, h3) = >>=-eq-ok (reject_if _ security_policy_violation) _ h2 in
        let (targets, apart) =
          validate_managed_target_paths-keys (named_targets manifest)
            (validated_targets policy e1) in
        (
          record { targets = targets; apart = apart; gate = gate_of (reject_if-eq-ok _ _ e3) },
          Outcome-of policy base d h3,
        )
