-- ===== src/Planner/Gate.antt =====
-- Which versions and which manifests `planUpdate` lets through.
use lib_auto_updater.Base.{
  ◌≡◌, true, false, ◌&&◌, Option, some, none, arith, Bool-cases, inl, inr, ◌⊎◌, is_empty, ◌≢◌,
}
use lib_auto_updater.Base.Text.{Bytes}
use lib_auto_updater.Error.{
  Result, Result-cases, ErrorCode, ok, fail, >>=-eq-ok, reject_if, reject_if-eq-ok,
  security_policy_violation, unsupported_install_layout, unsupported_manifest_schema,
}
use lib_auto_updater.Version.{Version, version_lt, version_eq}
use lib_auto_updater.Version.Order.{trichotomy, lt-not_lt}
use lib_auto_updater.Rfc3339.{UtcInstant, parse_rfc3339, instant_lt}
use lib_auto_updater.Rfc3339.Order.{IsBefore, instant_lt-IsBefore}
use lib_auto_updater.Planner.{plan_update, validate_manifest_against_config}
use lib_auto_updater.Planner.Outcome.{
  Checked, Outcome, reinstall, up_to_date, changed, plan_update-Outcome,
}
use lib_auto_updater.Planner.Types.{
  Config, ManifestEnvelope, LocalSnapshot, UpdateDecision, downgrade_baseline, older_than, passed,
  InstallLayout, portable_directory, windows_directory, macos_app_bundle, linux_app_image,
  parse_optional_timestamp, differ, package_manager_owned, is_package_manager_owned,
  some_or_parse_failed,
}
use lib_auto_updater.Manifest.{Manifest}
use lib_auto_updater.ManagedPath.{validate_managed_target_paths}
use lib_auto_updater.Planner.Urls.{UrlRules}

-- The version accepted last, where there is one, is not above.
abbrev pub NotAbove : Option Version → Version → Type 0
NotAbove none v = Unit {0}
NotAbove (some a) v = version_lt v a ≡ false

baseline-NotAbove :
    (current v : Version) (accepted : Option Version)
    → version_lt v (downgrade_baseline current accepted) ≡ false
    → NotAbove accepted v
unfolding downgrade_baseline
baseline-NotAbove current v none h = tt
baseline-NotAbove current v (some a) h = elim (Bool-cases (version_lt current a)) [
  | inl above ↦ rw above at h
  | inr below ↦ elim (Bool-cases (version_lt v a)) [
    | inl less ↦ absurd (above_and_not (rw below at h) (lt-not_lt v a current less below))
    | inr fine ↦ fine
  ]
]
  where
    above_and_not : version_lt v current ≡ false → version_lt v current ≡ true → ⊥
    above_and_not h k = ground arith

-- The manifest is meant for this client, and has not expired where the client minds.
pub record Meant (config : Config) (manifest : Manifest) (now : UtcInstant) : Type 0 where
  pub layout : config.install_layout ≢ package_manager_owned
  pub app_id : differ config.app_id manifest.app_id ≡ false
  pub channel : differ config.channel manifest.channel ≡ false
  pub platform : differ config.platform manifest.platform ≡ false
  pub arch : differ config.arch manifest.arch ≡ false
  pub client : older_than config.client_version manifest.min_client_version ≡ false
  pub fresh :
      (config.reject_expired_manifest ≡ false)
      ⊎ ((is_empty manifest.expires_at ≡ true)
          ⊎ ((end : UtcInstant) × (parse_rfc3339 manifest.expires_at ≡ ok end) × IsBefore now end))

module _ (urls : UrlRules) (config : Config) (envelope : ManifestEnvelope)
    (snapshot : LocalSnapshot) (accepted : Option Version) (now : UtcInstant)
    (d : UpdateDecision) where
  -- An update is announced only to a version above the installed one and not below the one accepted
  -- last; or, to another version than the installed one, where the configuration permits downgrades
  -- and requires signatures, and the manifest asks for the downgrade and its signature was verified.
  pub plan_update-gate :
      plan_update urls config envelope snapshot accepted now ≡ ok d
      → d.check_result.update_available ≡ true
      → ((version_lt config.current_version envelope.manifest.version ≡ true)
          × NotAbove accepted envelope.manifest.version)
        ⊎ ((version_eq envelope.manifest.version config.current_version ≡ false)
            × (config.reject_downgrade ≡ false)
            × (config.require_manifest_signature ≡ true)
            × (envelope.release_manifest_signature_verified ≡ true)
            × (envelope.manifest.allow_downgrade ≡ true))
  plan_update-gate h announced =
      let (checked, outcome) = plan_update-Outcome urls config envelope snapshot accepted now d h in
      by_outcome checked outcome
    where
      by_outcome :
          Checked urls config envelope snapshot accepted now
          → Outcome urls config envelope snapshot accepted now d
          → ((version_lt config.current_version envelope.manifest.version ≡ true)
              × NotAbove accepted envelope.manifest.version)
            ⊎ ((version_eq envelope.manifest.version config.current_version ≡ false)
                × (config.reject_downgrade ≡ false)
                × (config.require_manifest_signature ≡ true)
                × (envelope.release_manifest_signature_verified ≡ true)
                × (envelope.manifest.allow_downgrade ≡ true))
      by_outcome checked (reinstall old e) = absurd (ground arith)
      by_outcome checked (up_to_date same e) = absurd (ground arith)
      by_outcome checked (changed young (inr (allowed, other)) c) = inr (ground arith)
      by_outcome checked (changed young (inl above) c) = elim checked.gate [
        | inl kept ↦ inl (
          above,
          baseline-NotAbove config.current_version envelope.manifest.version accepted kept,
        )
        | inr allowed ↦ inr (other, ground arith, ground arith, ground arith, ground arith)
      ]
        where
          other : version_eq envelope.manifest.version config.current_version ≡ false
          other = ground (
            arith,
            trichotomy envelope.manifest.version config.current_version,
            trichotomy config.current_version envelope.manifest.version,
          )

  owned_lem : (l : InstallLayout) → is_package_manager_owned l ≡ false → l ≢ package_manager_owned
  owned_lem package_manager_owned h e = cc
  owned_lem portable_directory h e = cc
  owned_lem windows_directory h e = cc
  owned_lem macos_app_bundle h e = cc
  owned_lem linux_app_image h e = cc

  fresh_lem :
      (text : Bytes) (end : Option UtcInstant)
      → parse_optional_timestamp text ≡ ok end
      → passed now end ≡ false
      → is_empty text ≡ false
      → (e : UtcInstant) × (parse_rfc3339 text ≡ ok e) × IsBefore now e
  unfolding parse_optional_timestamp
  fresh_lem text end h k given = elim (Result-cases (parse_rfc3339 text)) [
    | inl (e, parsed) ↦
        (e, parsed, (instant_lt-IsBefore now e).0 (before e (rw (given, parsed) at h)))
    | inr (e, bad) ↦ absurd (never e (rw (given, bad) at h))
  ]
    where
      never : (e : ErrorCode) → some_or_parse_failed (fail e) ≡ ok end → ⊥
      never e g = cc

      before : (e : UtcInstant) → some_or_parse_failed (ok e) ≡ ok end → instant_lt now e ≡ true
      before e g = ground (arith, ok_inj g)
        where
          ok_inj : Result.ok (some e) ≡ ok end → end ≡ some e
          ok_inj g = cc

  validate-Meant :
      (policy : urls.Policy)
      → validate_manifest_against_config urls config envelope policy now ≡ ok tt
      → Meant config envelope.manifest now
  unfolding validate_manifest_against_config
  validate-Meant policy h =
      let (u, e0, h0) = >>=-eq-ok (validate_managed_target_paths _) _ h in
      let (u1, e1, h1) = >>=-eq-ok (reject_if _ unsupported_install_layout) _ h0 in
      let (u2, e2, h2) = >>=-eq-ok (reject_if _ security_policy_violation) _ h1 in
      let (u3, e3, h3) = >>=-eq-ok (reject_if _ security_policy_violation) _ h2 in
      let (u4, e4, h4) = >>=-eq-ok (reject_if _ security_policy_violation) _ h3 in
      let (u5, e5, h5) = >>=-eq-ok (reject_if _ security_policy_violation) _ h4 in
      let (u6, e6, h6) = >>=-eq-ok (reject_if _ unsupported_manifest_schema) _ h5 in
      let (r, e7, h7) = >>=-eq-ok (parse_optional_timestamp _) _ h6 in
      let (p, e8, h8) = >>=-eq-ok (parse_optional_timestamp _) _ h7 in
      let (end, e9, h9) = >>=-eq-ok (parse_optional_timestamp _) _ h8 in
      let (u10, e10, h10) = >>=-eq-ok (reject_if _ security_policy_violation) _ h9 in
      record {
        layout = owned_lem config.install_layout (reject_if-eq-ok _ _ e1);
        app_id = reject_if-eq-ok _ _ e2;
        channel = reject_if-eq-ok _ _ e3;
        platform = reject_if-eq-ok _ _ e4;
        arch = reject_if-eq-ok _ _ e5;
        client = reject_if-eq-ok _ _ e6;
        fresh = elim (Bool-cases config.reject_expired_manifest) [
          | inl strict ↦ elim (Bool-cases (is_empty envelope.manifest.expires_at)) [
            | inl missing ↦ inr (inl missing)
            | inr given ↦ inr (
                inr (
                  fresh_lem envelope.manifest.expires_at end e9
                    (not_both end strict (reject_if-eq-ok _ _ e10)) given))
          ]
          | inr lax ↦ inl lax
        ];
      }
    where
      not_both :
          (end : Option UtcInstant)
          → config.reject_expired_manifest ≡ true
          → (config.reject_expired_manifest && passed now end) ≡ false
          → passed now end ≡ false
      not_both end strict g = ground arith

  -- Whenever a decision is returned, the manifest is meant for this client: the layout is not owned by
  -- a package manager, no identity differs, the client is new enough, and where expired manifests are
  -- rejected a given expiry parses and lies after now.
  pub plan_update-Meant :
      plan_update urls config envelope snapshot accepted now ≡ ok d
      → Meant config envelope.manifest now
  unfolding plan_update
  plan_update-Meant h =
      let (policy, e0, h0) = >>=-eq-ok urls.policy _ h in
      let (u, e1, h1) =
        >>=-eq-ok (validate_manifest_against_config urls config envelope policy now) _ h0 in
      validate-Meant policy e1
