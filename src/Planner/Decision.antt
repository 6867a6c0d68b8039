-- ===== src/Planner/Decision.antt =====
-- The parts of a successful plan.
use lib_auto_updater.Base.{
  ◌≡◌, refl, ap, Bool, true, false, List, [], ◌∷◌, ◌++◌, map, arith, All, Bool-cases, inl, inr, ◌⊎◌,
  if◌then◌else◌,
}
use lib_auto_updater.Base.Text.{Bytes}
use lib_auto_updater.Base.Text.Split.{split}
use lib_auto_updater.Error.{Result, ok, ◌>>=◌, >>=-eq-ok}
use lib_auto_updater.ManagedPath.{
  path_allowed_by_whitelist, validate_managed_target_path, safe_join,
}
use lib_auto_updater.ManagedPath.Targets.{IsTarget, validate_managed_target_path_iff}
use lib_auto_updater.ManagedPath.Join.{safe_join_iff}
use lib_auto_updater.Manifest.{ManifestFile, target_of}
use lib_auto_updater.Planner.{plan_download, check_target, plan_file, plan_files, plan_removes}
use lib_auto_updater.Planner.Types.{
  Config, LocalSnapshot, ApplyOperation, PlannedDownload, remove, needs_download, replacement,
}
use lib_auto_updater.Planner.Urls.{ParsedUrl, UrlRules}

-- The members that pass a test, in their order.
abbrev pub select {ℓ} : {A : Type ℓ} → (A → Bool) → List A → List A
select p [] = []
select p (x ∷ xs) = if p x then x ∷ select p xs else select p xs

-- A path that an operation of the plan may name.
pub record IsAllowed (config : Config) (path : Bytes) : Type 0 where
  pub target : IsTarget path
  pub listed : path_allowed_by_whitelist path config.managed_path_whitelist ≡ true

module _ (config : Config) where
  -- A download of a file goes to its place below the staging directory.
  abbrev pub Stages : ManifestFile → PlannedDownload → Type 0
  Stages file d = (d.file ≡ file) × (d.staging_path ≡ config.temp_dir ++ split b'/' file.path)

  -- The downloads of some files, one for each and in their order.
  abbrev pub Staged : List ManifestFile → List PlannedDownload → Type 0
  Staged [] [] = Unit
  Staged [] (d ∷ ds) = ⊥
  Staged (f ∷ fs) [] = ⊥
  Staged (f ∷ fs) (d ∷ ds) = Stages f d × Staged fs ds

module _ (urls : UrlRules) (config : Config) where
  check_target-IsAllowed :
      (path : Bytes) → check_target urls config path ≡ ok tt → IsAllowed config path
  unfolding check_target
  check_target-IsAllowed path h =
      let (u, e, h1) = >>=-eq-ok (validate_managed_target_path path) _ h in
      record { target = (validate_managed_target_path_iff path).0 e; listed = ground arith }

  pub plan_removes-eq-ok :
      (paths : List Bytes) (ops : List ApplyOperation)
      → plan_removes urls config paths ≡ ok ops
      → (ops ≡ map remove paths) × All (IsAllowed config) paths
  unfolding plan_removes
  plan_removes-eq-ok [] ops h = (cc, tt)
  plan_removes-eq-ok (p ∷ ps) ops h =
      let (u, e, h1) = >>=-eq-ok (check_target urls config p) _ h in
      let (rest, er, h2) = >>=-eq-ok (plan_removes urls config ps) _ h1 in
      let (same, allowed) = plan_removes-eq-ok ps rest er in
      (ground arith, (check_target-IsAllowed p e, allowed))

  plan_download-Stages :
      (policy : urls.Policy) (base : ParsedUrl) (file : ManifestFile) (d : PlannedDownload)
      → plan_download urls config policy base file ≡ ok d
      → Stages config file d
  unfolding plan_download
  plan_download-Stages policy base file d h =
      let (url, eu, h1) = >>=-eq-ok (urls.append_encoded_path base file.path) _ h in
      let (u, et, h2) = >>=-eq-ok (urls.authorize_transition policy base url) _ h1 in
      let (path, ep, h3) = >>=-eq-ok (safe_join config.temp_dir file.path) _ h2 in
      let (m, same) = (safe_join_iff config.temp_dir file.path path).0 ep in
      (ground arith, ground arith)

  module _ (policy : urls.Policy) (base : ParsedUrl) (snapshot : LocalSnapshot) where
    abbrev Changes : Type 0
    Changes = List PlannedDownload × List ApplyOperation

    -- One file is left alone, or is downloaded and replaced.
    abbrev PlansFile : ManifestFile → Changes → Type 0
    PlansFile file r =
        ((needs_download snapshot file ≡ false) × (r ≡ ([], [])))
        ⊎ ((d : PlannedDownload) × (needs_download snapshot file ≡ true)
            × Stages config file d
            × (r ≡ (d ∷ [], replacement file ∷ [])))

    plan_file-PlansFile :
        (file : ManifestFile) (r : Changes)
        → plan_file urls config policy base snapshot file ≡ ok r
        → IsAllowed config (target_of file) × PlansFile file r
    unfolding plan_file
    plan_file-PlansFile file r h =
        let (u, e, h1) = >>=-eq-ok (check_target urls config (target_of file)) _ h in
        (
          check_target-IsAllowed (target_of file) e,
          elim (Bool-cases (needs_download snapshot file)) [
            | inl needed ↦ needed_case needed (rw needed at h1)
            | inr kept ↦ inl (kept, kept_case (rw kept at h1))
          ],
        )
      where
        kept_case : Result.ok ([], []) ≡ ok r → r ≡ ([], [])
        kept_case k = cc

        needed_case :
            needs_download snapshot file ≡ true
            → (plan_download urls config policy base file >>= λ d.
                ok (d ∷ [], replacement file ∷ []))
              ≡ ok r
            → PlansFile file r
        needed_case needed k =
            let (d, ed, k1) = >>=-eq-ok (plan_download urls config policy base file) _ k in
            inr (d, needed, plan_download-Stages policy base file d ed, cc)

    -- The loop over the files replaces exactly the files that need it, in the order of the manifest,
    -- and plans a download for each of them.
    abbrev pub PlansFiles : List ManifestFile → Changes → Type 0
    PlansFiles files r =
        All (λ f. IsAllowed config (target_of f)) files
        × (r.1 ≡ map replacement (select (needs_download snapshot) files))
        × Staged config (select (needs_download snapshot) files) r.0

    PlansFiles-cons :
        (file : ManifestFile) (files : List ManifestFile) (p q : Changes)
        → IsAllowed config (target_of file) × PlansFile file p
        → PlansFiles files q
        → PlansFiles (file ∷ files) (p.0 ++ q.0, p.1 ++ q.1)
    PlansFiles-cons file files p q (allowed, inl (kept, e)) h =
        rw (kept, e) ((allowed, h.0), h.1, h.2)
    PlansFiles-cons file files p q (allowed, inr (d, needed, staged, e)) h =
        rw (needed, e) ((allowed, h.0), ap (◌∷◌ (replacement file)) h.1, (staged, h.2))

    pub plan_files-PlansFiles :
        (files : List ManifestFile) (r : Changes)
        → plan_files urls config policy base snapshot files ≡ ok r
        → PlansFiles files r
    unfolding plan_files
    plan_files-PlansFiles [] r h = let e : r ≡ ([], []) = cc in rw e (tt, refl, tt)
    plan_files-PlansFiles (file ∷ files) r h =
        let (p, ep, h1) = >>=-eq-ok (plan_file urls config policy base snapshot file) _ h in
        let (q, eq, h2) = >>=-eq-ok (plan_files urls config policy base snapshot files) _ h1 in
        let e : r ≡ (p.0 ++ q.0, p.1 ++ q.1) = cc in
        rw e (
          PlansFiles-cons file files p q (plan_file-PlansFile file p ep)
            (plan_files-PlansFiles files q eq))
