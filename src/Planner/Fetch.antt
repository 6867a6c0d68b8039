-- ===== src/Planner/Fetch.antt =====
-- Where the downloads of a decision are fetched from.
use lib_auto_updater.Base.{
  ◌≡◌, refl, subst, Bool, true, false, not, ◌&&◌, Option, List, [], ◌∷◌, All, All-append,
  Bool-cases, inl, inr, if◌then◌else◌,
}
use lib_auto_updater.Error.{ok, ok_inj, >>=-eq-ok, reject_if, security_policy_violation}
use lib_auto_updater.Version.{Version, version_lt, version_eq}
use lib_auto_updater.Rfc3339.{UtcInstant}
use lib_auto_updater.ManagedPath.{safe_join}
use lib_auto_updater.Manifest.{Manifest, ManifestFile, target_of}
use lib_auto_updater.Planner.{
  check_target, plan_download, plan_file, plan_files, plan_removes, plan_changes, plan_update,
  validate_manifest_against_config,
}
use lib_auto_updater.Planner.Types.{
  Config, ManifestEnvelope, LocalSnapshot, UpdateDecision, CheckResult, PlannedDownload,
  ApplyOperation, needs_download, first_result, no_change, is_downgrade_of, downgrade_allowed,
  older_than, check_snapshot,
}
use lib_auto_updater.Planner.Urls.{ParsedUrl, UrlRules}

module _ (urls : UrlRules) (policy : urls.Policy) (base : ParsedUrl) where
  -- A download goes to the authorized URL of its file below the base.
  pub record Fetches (d : PlannedDownload) : Type 0 where
    pub from : ParsedUrl
    pub appended : urls.append_encoded_path base d.file.path ≡ ok from
    pub authorized : urls.authorize_transition policy base from ≡ ok tt
    pub text : d.url ≡ from.canonical

  module _ (config : Config) where
    plan_download-Fetches :
        (file : ManifestFile) (d : PlannedDownload)
        → plan_download urls config policy base file ≡ ok d
        → Fetches d
    unfolding plan_download
    plan_download-Fetches file d h =
        let (url, eu, h1) = >>=-eq-ok (urls.append_encoded_path base file.path) _ h in
        let (u, et, h2) = >>=-eq-ok (urls.authorize_transition policy base url) _ h1 in
        let (path, ep, h3) = >>=-eq-ok (safe_join config.temp_dir file.path) _ h2 in
        subst Fetches (ok_inj h3)
          (record { from = url; appended = eu; authorized = et; text = refl })

    plan_file-Fetches :
        (snapshot : LocalSnapshot) (file : ManifestFile)
        (r : List PlannedDownload × List ApplyOperation)
        → plan_file urls config policy base snapshot file ≡ ok r
        → All Fetches r.0
    unfolding plan_file
    plan_file-Fetches snapshot file r h =
        let (u, e, h1) = >>=-eq-ok (check_target urls config (target_of file)) _ h in
        elim (Bool-cases (needs_download snapshot file)) [
          | inl needed ↦
              let (d, ed, h2) =
                >>=-eq-ok (plan_download urls config policy base file) _ (rw needed at h1) in
              subst (λ x. All Fetches x.0) (ok_inj h2) (plan_download-Fetches file d ed, tt)
          | inr kept ↦ subst (λ x. All Fetches x.0) (ok_inj (rw kept at h1)) tt
        ]

    plan_files-Fetches :
        (snapshot : LocalSnapshot) (files : List ManifestFile)
        (r : List PlannedDownload × List ApplyOperation)
        → plan_files urls config policy base snapshot files ≡ ok r
        → All Fetches r.0
    unfolding plan_files
    plan_files-Fetches snapshot [] r h = subst (λ x. All Fetches x.0) (ok_inj h) tt
    plan_files-Fetches snapshot (file ∷ files) r h =
        let (p, ep, h1) = >>=-eq-ok (plan_file urls config policy base snapshot file) _ h in
        let (q, eq, h2) = >>=-eq-ok (plan_files urls config policy base snapshot files) _ h1 in
        subst (λ x. All Fetches x.0) (ok_inj h2)
          (All-append Fetches p.0 q.0 (plan_file-Fetches snapshot file p ep)
            (plan_files-Fetches snapshot files q eq))

    plan_changes-Fetches :
        (manifest : Manifest) (snapshot : LocalSnapshot) (d : UpdateDecision)
        → plan_changes urls config manifest policy base snapshot (first_result config manifest)
          ≡ ok d
        → All Fetches d.downloads
    unfolding plan_changes
    plan_changes-Fetches manifest snapshot d h =
        let (u, es, h1) = >>=-eq-ok (check_snapshot snapshot) _ h in
        let (p, ep, h2) =
          >>=-eq-ok (plan_files urls config policy base snapshot manifest.files) _ h1 in
        let (q, eq, h3) = >>=-eq-ok (plan_removes urls config manifest.remove) _ h2 in
        subst (λ x. All Fetches x.downloads) (ok_inj h3)
          (plan_files-Fetches snapshot manifest.files p ep)

    -- A decision for no change has no downloads.
    pub decision-Fetches :
        (manifest : Manifest) (snapshot : LocalSnapshot) (old same : Bool) (a b : CheckResult)
        (d : UpdateDecision)
        → (if old
            then ok (no_change a)
            else if same
            then ok (no_change b)
            else plan_changes urls config manifest policy base snapshot
                (first_result config manifest))
          ≡ ok d
        → All Fetches d.downloads
    decision-Fetches manifest snapshot true same a b d h =
        subst (λ x. All Fetches x.downloads) (ok_inj h) tt
    decision-Fetches manifest snapshot false true a b d h =
        subst (λ x. All Fetches x.downloads) (ok_inj h) tt
    decision-Fetches manifest snapshot false false a b d h =
        plan_changes-Fetches manifest snapshot d h

-- The policy, the base and the downloads of a decision.
pub record Fetched (urls : UrlRules) (envelope : ManifestEnvelope) (d : UpdateDecision)
    : Type 0 where
  pub policy : urls.Policy
  pub made : urls.policy ≡ ok policy
  pub base : ParsedUrl
  pub authorized : urls.authorize policy envelope.artifact_base_url ≡ ok base
  pub downloads : All (Fetches urls policy base) d.downloads

module _ (urls : UrlRules) (config : Config) (envelope : ManifestEnvelope)
    (snapshot : LocalSnapshot) (accepted : Option Version) (now : UtcInstant) where
  -- Every download of a decision goes to the authorized URL of its file below the base of the release.
  pub plan_update-Fetched :
      (d : UpdateDecision)
      → plan_update urls config envelope snapshot accepted now ≡ ok d
      → Fetched urls envelope d
  unfolding plan_update
  plan_update-Fetched d h =
      let manifest = envelope.manifest in
      let (policy, e0, h0) = >>=-eq-ok urls.policy _ h in
      let (u, e1, h1) =
        >>=-eq-ok (validate_manifest_against_config urls config envelope policy now) _ h0 in
      let (base, e2, h2) = >>=-eq-ok (urls.authorize policy envelope.artifact_base_url) _ h1 in
      let down = is_downgrade_of config envelope accepted in
      let permitted = down && downgrade_allowed config envelope in
      let (v, e3, h3) =
        >>=-eq-ok (reject_if (down && not permitted) security_policy_violation) _ h2 in
      record {
        policy = policy;
        made = e0;
        base = base;
        authorized = e2;
        downloads =
            decision-Fetches urls policy base config manifest snapshot
              (older_than config.current_version manifest.min_version)
              (not (version_lt config.current_version manifest.version)
                && not (permitted && not (version_eq manifest.version config.current_version)))
              (let r = first_result config manifest in record r { reinstall_required = true })
              (first_result config manifest) d h3;
      }
