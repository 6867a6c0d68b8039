-- ===== src/Planner/Effect.antt =====
-- The operations of a plan lead from the installation that the snapshot describes to the one that
-- the manifest wants.
use lib_auto_updater.Base.{
  ◌≡◌, refl, ap, sym, ◌∙◌, true, false, ◌&&◌, Option, some, none, List, [], ◌∷◌, ◌++◌, map, arith,
  All, map-All, All-of_map, append-All, All-append, All-of, Option-cases, any_of, any_of-false,
  &&_true, subst, Bool-cases, inl, inr, ◌⊎◌,
}
use lib_auto_updater.Base.Text.{Bytes, bytes_eq, bytes_eq_iff}
use lib_auto_updater.Error.{ok}
use lib_auto_updater.Version.{Version}
use lib_auto_updater.Rfc3339.{UtcInstant}
use lib_auto_updater.ManagedPath.{managed_path_lookup_key}
use lib_auto_updater.ManagedPath.Sorted.{AllPairs, Apart, map-AllPairs, AllPairs-impl}
use lib_auto_updater.ManagedPath.Covers.{covers_lem}
use lib_auto_updater.Manifest.{Manifest, ManifestFile, target_of}
use lib_auto_updater.Planner.{plan_update}
use lib_auto_updater.Planner.Decision.{select}
use lib_auto_updater.Planner.Outcome.{
  Changes, Checked, Outcome, reinstall, up_to_date, changed, named_targets, plan_update-Outcome,
}
use lib_auto_updater.Planner.Types.{
  Config, ManifestEnvelope, LocalSnapshot, LocalFileInfo, UpdateDecision, remove, needs_download,
  replacement, find_local,
}
use lib_auto_updater.Planner.Urls.{UrlRules}
use lib_auto_updater.Planner.Run.{
  Tree, Goal, goal_key, needed_operations, Ready, OtherKey, run_operations, untouched, reached,
}

Apart-bytes_eq : (p q : Bytes) → Apart p q → bytes_eq p q ≡ false
Apart-bytes_eq p q h = ground (arith, covers_lem 0 p q, h.0)

-- The goals of a manifest.
abbrev file_goal : LocalSnapshot → ManifestFile → Goal
file_goal snapshot f = record { operation = replacement f; needed = needs_download snapshot f }

abbrev remove_goal : Bytes → Goal
remove_goal path = record { operation = remove path; needed = true }

abbrev goals : LocalSnapshot → Manifest → List Goal
goals snapshot m = map (file_goal snapshot) m.files ++ map remove_goal m.remove

select_files :
    (snapshot : LocalSnapshot) (fs : List ManifestFile) (paths : List Bytes)
    → needed_operations (map (file_goal snapshot) fs ++ map remove_goal paths)
      ≡ map replacement (select (needs_download snapshot) fs) ++ map remove paths
select_files snapshot [] [] = refl
select_files snapshot [] (p ∷ ps) = ap (◌∷◌ (remove p)) (select_files snapshot [] ps)
select_files snapshot (f ∷ fs) paths = elim (Bool-cases (needs_download snapshot f)) [
  | inl e ↦ rw e (ap (◌∷◌ (replacement f)) (select_files snapshot fs paths))
  | inr e ↦ rw e (select_files snapshot fs paths)
]

goal_keys :
    (snapshot : LocalSnapshot) (fs : List ManifestFile) (paths : List Bytes)
    → map goal_key (map (file_goal snapshot) fs ++ map remove_goal paths)
      ≡ map managed_path_lookup_key (map target_of fs ++ paths)
goal_keys snapshot [] [] = refl
goal_keys snapshot [] (p ∷ ps) = ap (◌∷◌ (managed_path_lookup_key p)) (goal_keys snapshot [] ps)
goal_keys snapshot (f ∷ fs) paths =
    ap (◌∷◌ (managed_path_lookup_key (target_of f))) (goal_keys snapshot fs paths)

-- The snapshot says of no file that it is there with other bytes than it has.
abbrev pub Describes : LocalSnapshot → Tree → Type 0
Describes snapshot tree =
    (key : Bytes) (local : LocalFileInfo)
    → find_local key snapshot ≡ some local
    → local.is_present ≡ true
    → tree key ≡ some local.sha256

goals-Ready :
    (snapshot : LocalSnapshot) (tree : Tree) (m : Manifest)
    → Describes snapshot tree
    → All (Ready tree) (goals snapshot m)
goals-Ready snapshot tree m h =
    All-append (Ready tree) (map (file_goal snapshot) m.files) (map remove_goal m.remove)
      (All-of_map (Ready tree) (file_goal snapshot) m.files (All-of _ file_ready m.files))
      (All-of_map (Ready tree) remove_goal m.remove (All-of _ (λ p e. cc) m.remove))
  where
    file_ready : (f : ManifestFile) → Ready tree (file_goal snapshot f)
    file_ready f e =
        let key = managed_path_lookup_key (target_of f) in
        elim (Option-cases (find_local key snapshot)) [
          | inl missing ↦ absurd (missing_needed missing e)
          | inr (l, found) ↦
              let good : (l.is_present && bytes_eq l.sha256 f.sha256) ≡ true =
                found_current l found e in
              let (there, same) = &&_true l.is_present _ good in
              h key l found there ∙ ap some ((bytes_eq_iff l.sha256 f.sha256).0 same)
        ]
      where
        missing_needed :
            find_local (managed_path_lookup_key (target_of f)) snapshot ≡ none
            → needs_download snapshot f ≡ false
            → ⊥
        missing_needed k n = ground arith

        found_current :
            (l : LocalFileInfo)
            → find_local (managed_path_lookup_key (target_of f)) snapshot ≡ some l
            → needs_download snapshot f ≡ false
            → (l.is_present && bytes_eq l.sha256 f.sha256) ≡ true
        found_current l k n = ground arith

-- Every file of the manifest is there with its bytes, every removed path is gone, and no other key
-- has changed.
pub record Reaches (m : Manifest) (before after : Tree) : Type 0 where
  pub files : All (λ f. after (managed_path_lookup_key (target_of f)) ≡ some f.sha256) m.files
  pub removes : All (λ p. after (managed_path_lookup_key p) ≡ none) m.remove
  pub others :
      (k : Bytes)
      → (any_of (λ p. bytes_eq (managed_path_lookup_key p) k) (named_targets m) ≡ true)
        ⊎ (after k ≡ before k)

module _ (config : Config) (m : Manifest) (snapshot : LocalSnapshot) (tree : Tree)
    (d : UpdateDecision) where
  Changes-Reaches :
      AllPairs Apart (map managed_path_lookup_key (named_targets m))
      → Changes config m snapshot d
      → Describes snapshot tree
      → Reaches m tree (run_operations d.operations tree)
  Changes-Reaches apart c h =
      let pairs =
        map-AllPairs Apart goal_key (goals snapshot m)
          (subst (AllPairs Apart) (sym (goal_keys snapshot m.files m.remove)) apart) in
      let all =
        reached (goals snapshot m) tree
          (AllPairs-impl (λ g g'. Apart-bytes_eq (goal_key g) (goal_key g')) (goals snapshot m)
            pairs)
          (goals-Ready snapshot tree m h) in
      let same = c.operations ∙ sym (select_files snapshot m.files m.remove) in
      let (fs, ps) =
        append-All _ (map (file_goal snapshot) m.files) (map remove_goal m.remove) all in
      subst (λ ops. Reaches m tree (run_operations ops tree)) (sym same)
        (record {
          files = map-All _ (file_goal snapshot) m.files fs;
          removes = map-All _ remove_goal m.remove ps;
          others = λ k.
              elim (Bool-cases
                (any_of (λ p. bytes_eq (managed_path_lookup_key p) k) (named_targets m))) [
                  | inl named ↦ inl named
                  | inr other ↦ inr (untouched (goals snapshot m) tree k (other_goals k other))
                ];
        })
    where
      other_goals :
          (k : Bytes)
          → any_of (λ p. bytes_eq (managed_path_lookup_key p) k) (named_targets m) ≡ false
          → All (OtherKey k) (goals snapshot m)
      other_goals k other =
          map-All (λ key. bytes_eq key k ≡ false) goal_key (goals snapshot m)
            (subst (All (λ key. bytes_eq key k ≡ false)) (sym (goal_keys snapshot m.files m.remove))
              (All-of_map (λ key. bytes_eq key k ≡ false) managed_path_lookup_key (named_targets m)
                (any_of-false _ (named_targets m) other)))

-- A decision that announces an update turns every installation that the snapshot describes into the
-- one that the manifest wants; any other decision has no operations.
pub plan_update-Reaches :
    (urls : UrlRules) (config : Config) (envelope : ManifestEnvelope) (snapshot : LocalSnapshot)
    (accepted : Option Version) (now : UtcInstant) (tree : Tree) (d : UpdateDecision)
    → plan_update urls config envelope snapshot accepted now ≡ ok d
    → Describes snapshot tree
    → ((d.check_result.update_available ≡ true)
        × Reaches envelope.manifest tree (run_operations d.operations tree))
      ⊎ ((d.check_result.update_available ≡ false) × (d.operations ≡ []))
plan_update-Reaches urls config envelope snapshot accepted now tree d h describes =
    let (checked, outcome) = plan_update-Outcome urls config envelope snapshot accepted now d h in
    by_outcome checked outcome
  where
    by_outcome :
        Checked urls config envelope snapshot accepted now
        → Outcome urls config envelope snapshot accepted now d
        → ((d.check_result.update_available ≡ true)
            × Reaches envelope.manifest tree (run_operations d.operations tree))
          ⊎ ((d.check_result.update_available ≡ false) × (d.operations ≡ []))
    by_outcome checked (reinstall old e) = inr (ground arith, ground arith)
    by_outcome checked (up_to_date same e) = inr (ground arith, ground arith)
    by_outcome checked (changed young why c) = inl (
      ground (arith, c.result),
      Changes-Reaches config envelope.manifest snapshot tree d checked.apart c describes,
    )
