-- ===== src/Planner/Network.antt =====
-- The planner with the URL functions of src/UrlPolicy.cpp and src/util/UrlUtil.cpp.
use lib_auto_updater.Base.{
  ◌<◌, ◌≡◌, refl, Bool, true, false, not, ◌&&◌, Option, List, [], ◌∷◌, ◌++◌, arith, All, All-map,
  any_of, Bool-cases, inl, inr,
}
use lib_auto_updater.Base.Text.{Bytes}
use lib_auto_updater.Base.Text.Split.{split}
use lib_auto_updater.Error.{ok}
use lib_auto_updater.Version.{Version}
use lib_auto_updater.Rfc3339.{UtcInstant}
use lib_auto_updater.ManagedPath.{ends_with}
use lib_auto_updater.ManagedPath.Segments.{IsManaged}
use lib_auto_updater.ManagedPath.Targets.{validate_managed_target_path_iff}
use lib_auto_updater.ManagedPath.Join.{safe_join_iff}
use lib_auto_updater.Manifest.{ManifestFile, target_of}
use lib_auto_updater.Url.{ParsedUrl, is_file, path_matches_boundary}
use lib_auto_updater.Url.Resolve.{same_origin, append_encoded_path}
use lib_auto_updater.Url.Boundary.{path_matches_boundary-append}
use lib_auto_updater.Url.Normalized.{IsNormalized}
use lib_auto_updater.Url.Kept.{append_encoded_path-IsNormalized}
use lib_auto_updater.Url.Artifact.{encoded_path, artifact_url, append_encoded_path-artifact_url}
use lib_auto_updater.UrlPolicy.{
  UrlConfig, UrlPolicy, Mode, local_file, network, from_config, allows, matches_network_scope,
  matches_local_scope, authorize_url, authorize, authorize_transition,
}
use lib_auto_updater.UrlPolicy.Chain.{
  IsStep, no_downgrade, no_change_of_kind, authorize_transition-eq-ok,
}
use lib_auto_updater.UrlPolicy.Config.{authorize-IsNormalized}
use lib_auto_updater.Planner.{plan_download, plan_file, plan_files, check_target, plan_update}
use lib_auto_updater.Planner.Decision.{IsAllowed}
use lib_auto_updater.Planner.Fetch.{Fetches, plan_update-Fetched}
use lib_auto_updater.Planner.Types.{
  Config, ManifestEnvelope, LocalSnapshot, UpdateDecision, PlannedDownload, ApplyOperation,
  needs_download, replacement,
}
use lib_auto_updater.Planner.Urls.{UrlRules}

-- UrlPolicy::fromConfig and the functions on the policy that it makes.
abbrev pub url_rules : UrlConfig → UrlRules
url_rules config = record {
  Policy = UrlPolicy;
  policy = from_config config;
  authorize = authorize;
  authorize_transition = authorize_transition;
  append_encoded_path = append_encoded_path;
}

-- A directory that artifacts may come from.
pub record IsBase (policy : UrlPolicy) (base : ParsedUrl) : Type 0 where
  pub normalized : IsNormalized base
  pub allowed : allows policy.mode base ≡ true
  pub directory : ends_with b'/' base.path ≡ true
  pub no_query : base.has_query ≡ false

any_of_mono {ℓ} :
    {A : Type ℓ} (p q : A → Bool) (xs : List A)
    → ((x : A) → p x ≡ true → q x ≡ true)
    → any_of p xs ≡ true
    → any_of q xs ≡ true
any_of_mono p q [] f h = h
any_of_mono p q (x ∷ xs) f h = elim (Bool-cases (p x)) [
  | inl e ↦ rw (f x e)
  | inr e ↦ rw (any_of_mono p q xs f (rw e at h)) (ground arith)
]

both_true : (a b : Bool) → (a && b) ≡ true → (a ≡ true) × (b ≡ true)
both_true true b h = (refl, h)
both_true false b h = cc

abbrev is_scope : ParsedUrl → Bytes → ParsedUrl → Bool
is_scope url path scope = same_origin url scope && path_matches_boundary path scope.path

-- What is below an allowed directory is allowed.
allows-artifact_url :
    (mode : Mode) (base : ParsedUrl) (path : Bytes)
    → ends_with b'/' base.path ≡ true
    → allows mode base ≡ true
    → allows mode (artifact_url base path) ≡ true
unfolding matches_network_scope matches_local_scope
allows-artifact_url (local_file root) base path ends h =
    ground (arith, path_matches_boundary-append base.path root.path (encoded_path path) ends)
allows-artifact_url (network scopes) base path ends h =
    let both = both_true (not (is_file base.scheme)) (any_of (is_scope base base.path) scopes) h in
    rw (
      both.0,
      any_of_mono (is_scope base base.path) (is_scope base (base.path ++ encoded_path path)) scopes
          longer both.1,
    )
  where
    longer :
        (scope : ParsedUrl)
        → is_scope base base.path scope ≡ true
        → is_scope base (base.path ++ encoded_path path) scope ≡ true
    longer scope k =
        let parts =
          both_true (same_origin base scope) (path_matches_boundary base.path scope.path) k in
        rw (parts.0)
          (path_matches_boundary-append base.path scope.path (encoded_path path) ends parts.1)

authorize_transition-artifact_url :
    (policy : UrlPolicy) (base : ParsedUrl) (path : Bytes)
    → IsBase policy base
    → authorize_transition policy base (artifact_url base path) ≡ ok tt
unfolding authorize_transition authorize_url
authorize_transition-artifact_url policy base path h = rw (
  h.allowed,
  allows-artifact_url policy.mode base path h.directory h.allowed,
  no_downgrade base.scheme,
  no_change_of_kind (is_file base.scheme),
)

-- The download of a file to its place below the staging directory.
abbrev pub download_below : Config → ParsedUrl → ManifestFile → PlannedDownload
download_below config base file = record {
  file = file;
  url = (artifact_url base file.path).canonical;
  staging_path = config.temp_dir ++ split b'/' file.path;
}

-- The download of a managed path below an allowed directory is planned, and goes below it.
pub plan_download-below :
    (urls : UrlConfig) (config : Config) (policy : UrlPolicy) (base : ParsedUrl)
    (file : ManifestFile)
    → IsBase policy base
    → IsManaged file.path
    → All (λ c. c < 256) file.path
    → plan_download (url_rules urls) config policy base file ≡ ok (download_below config base file)
unfolding plan_download
plan_download-below urls config policy base file h managed small = rw (
  append_encoded_path-artifact_url base file.path h.normalized h.directory h.no_query managed small,
  authorize_transition-artifact_url policy base file.path h,
  (safe_join_iff config.temp_dir file.path (config.temp_dir ++ split b'/' file.path)).1
      (managed, refl),
)

-- A file that a plan can be made for.
pub record IsPlannable (config : Config) (file : ManifestFile) : Type 0 where
  pub target : IsAllowed config (target_of file)
  pub managed : IsManaged file.path
  pub small : All (λ c. c < 256) file.path

-- What the plan for some files gives.
abbrev Planned : Type 0
Planned = List PlannedDownload × List ApplyOperation

module _ (urls : UrlConfig) (config : Config) (policy : UrlPolicy) (base : ParsedUrl)
    (h : IsBase policy base) (snapshot : LocalSnapshot) where
  check_target-ok :
      (path : Bytes) → IsAllowed config path → check_target (url_rules urls) config path ≡ ok tt
  unfolding check_target
  check_target-ok path k = rw ((validate_managed_target_path_iff path).1 k.target, k.listed)

  plan_file-ok :
      (file : ManifestFile)
      → IsPlannable config file
      → (r : Planned) × (plan_file (url_rules urls) config policy base snapshot file ≡ ok r)
  unfolding plan_file
  plan_file-ok file k = elim (Bool-cases (needs_download snapshot file)) [
    | inl needed ↦ (
      (download_below config base file ∷ [], replacement file ∷ []),
      rw (
        check_target-ok (target_of file) k.target,
        needed,
        plan_download-below urls config policy base file h k.managed k.small,
      ),
    )
    | inr kept ↦ (([], []), rw (check_target-ok (target_of file) k.target, kept))
  ]

  -- Planning the downloads below an allowed directory never fails on files that the checks on paths let
  -- through.
  pub plan_files-ok :
      (files : List ManifestFile)
      → All (IsPlannable config) files
      → (r : Planned) × (plan_files (url_rules urls) config policy base snapshot files ≡ ok r)
  unfolding plan_files
  plan_files-ok [] k = (([], []), refl)
  plan_files-ok (file ∷ files) k =
      let (p, ep) = plan_file-ok file k.0 in
      let (q, eq) = plan_files-ok files k.1 in ((p.0 ++ q.0, p.1 ++ q.1), rw (ep, eq))

module _ (urls : UrlConfig) (config : Config) (envelope : ManifestEnvelope)
    (snapshot : LocalSnapshot) (accepted : Option Version) (now : UtcInstant) where
  -- A download that the policy lets through.
  pub record IsSafe (policy : UrlPolicy) (base : ParsedUrl) (d : PlannedDownload) : Type 0 where
    pub from : ParsedUrl
    pub normalized : IsNormalized from
    pub authorized : IsStep policy base from
    pub text : d.url ≡ from.canonical

  pub record IsSafeDecision (d : UpdateDecision) : Type 0 where
    pub policy : UrlPolicy
    pub made : from_config urls ≡ ok policy
    pub base : ParsedUrl
    pub base_authorized : authorize policy envelope.artifact_base_url ≡ ok base
    pub downloads : All (IsSafe policy base) d.downloads

  -- Every download of a decision has a normalized URL that the policy of the configuration allows, and
  -- that is an allowed step from the base of the release.
  pub plan_update-IsSafe :
      (d : UpdateDecision)
      → plan_update (url_rules urls) config envelope snapshot accepted now ≡ ok d
      → IsSafeDecision d
  plan_update-IsSafe d h =
      let f = plan_update-Fetched (url_rules urls) config envelope snapshot accepted now d h in
      let normal =
        (authorize-IsNormalized f.policy envelope.artifact_base_url f.base f.authorized).0 in
      record {
        policy = f.policy;
        made = f.made;
        base = f.base;
        base_authorized = f.authorized;
        downloads = All-map (safe f.policy f.base normal) d.downloads f.downloads;
      }
    where
      safe :
          (policy : UrlPolicy) (base : ParsedUrl)
          → IsNormalized base
          → (x : PlannedDownload) → Fetches (url_rules urls) policy base x
          → IsSafe policy base x
      safe policy base normal x k = record {
        from = k.from;
        normalized = append_encoded_path-IsNormalized base x.file.path k.from normal k.appended;
        authorized = authorize_transition-eq-ok policy base k.from k.authorized;
        text = k.text;
      }
