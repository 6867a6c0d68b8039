-- ===== src/Snapshot/Describe.antt =====
-- What a snapshot says of the tree that the file system shows, and what the planner makes of it.
use lib_auto_updater.Base.{
  ◌≡◌, ap, true, false, Option, some, [], ◌∷◌, arith, All, All-map, Bool-cases, inl, inr, ◌⊎◌,
}
use lib_auto_updater.Base.Text.{Bytes, bytes_eq, bytes_eq_iff}
use lib_auto_updater.Error.{ok}
use lib_auto_updater.Version.{Version}
use lib_auto_updater.Rfc3339.{UtcInstant}
use lib_auto_updater.ManagedPath.{FilePath, managed_path_lookup_key}
use lib_auto_updater.Manifest.{Manifest}
use lib_auto_updater.Planner.{plan_update}
use lib_auto_updater.Planner.Effect.{Describes, Reaches, plan_update-Reaches}
use lib_auto_updater.Planner.Run.{Tree, run_operations}
use lib_auto_updater.Planner.Types.{
  Config, LocalFileInfo, LocalSnapshot, ManifestEnvelope, UpdateDecision, find_local,
}
use lib_auto_updater.Planner.Urls.{UrlRules}
use lib_auto_updater.Snapshot.Entries.{IsRead, build_local_snapshot-IsSnapshot}
use lib_auto_updater.Snapshot.{FileSystem, build_local_snapshot}

module _ (fs : FileSystem) where
  -- What is read below a root is what the tree has there.
  abbrev pub Shows : FilePath → Tree → Type 0
  Shows install_dir tree =
      (root : fs.Root) (path : Bytes) (file : fs.File) (digest : Bytes)
      → fs.open_root install_dir ≡ ok root
      → fs.open_regular_file root path ≡ ok (some file)
      → fs.sha256_stream file ≡ ok digest
      → tree (managed_path_lookup_key path) ≡ some digest

  -- The record says nothing wrong of the tree.
  abbrev Right : Tree → LocalFileInfo → Type 0
  Right tree l = l.is_present ≡ true → tree (managed_path_lookup_key l.path) ≡ some l.sha256

  read-Right :
      (install_dir : FilePath) (tree : Tree) (root : fs.Root)
      → Shows install_dir tree
      → fs.open_root install_dir ≡ ok root
      → (l : LocalFileInfo) → IsRead fs root l
      → Right tree l
  read-Right dir tree root shows at_root l (inl absent) p = cc
  read-Right dir tree root shows at_root l (inr (e, (file, opens, digest, size))) p =
      shows root l.path file l.sha256 at_root opens digest

  Right-Describes :
      (tree : Tree) (snapshot : LocalSnapshot) → All (Right tree) snapshot → Describes snapshot tree
  unfolding find_local
  Right-Describes tree [] h key local found there = cc
  Right-Describes tree (l ∷ ls) h key local found there =
      elim (Bool-cases (bytes_eq (managed_path_lookup_key l.path) key)) [
        | inl e ↦ here e (rw (find_local, e) at found)
        | inr e ↦ Right-Describes tree ls h.1 key local (rw (find_local, e) at found) there
      ]
    where
      here :
          bytes_eq (managed_path_lookup_key l.path) key ≡ true
          → some l ≡ some local
          → tree key ≡ some local.sha256
      here e same =
          ground (arith, h.0, ap tree ((bytes_eq_iff (managed_path_lookup_key l.path) key).0 e))

  -- What a snapshot that is returned marks present is in every tree that the file system shows.
  pub build_local_snapshot-Describes :
      (install_dir : FilePath) (tree : Tree) (manifest : Manifest) (snapshot : LocalSnapshot)
      → Shows install_dir tree
      → build_local_snapshot fs install_dir manifest ≡ ok snapshot
      → Describes snapshot tree
  build_local_snapshot-Describes dir tree manifest snapshot shows h =
      let (root, e, k) = build_local_snapshot-IsSnapshot fs dir manifest snapshot h in
      Right-Describes tree snapshot (All-map (read-Right dir tree root shows e) snapshot k.read)

  -- From the files to the plan: when a snapshot is taken of what the file system shows and an update is
  -- planned on it, its operations lead from there to the installation that the manifest wants, and a
  -- decision that announces no update has no operations.
  pub snapshot_plan-Reaches :
      (urls : UrlRules) (config : Config) (envelope : ManifestEnvelope) (accepted : Option Version)
      (now : UtcInstant) (install_dir : FilePath) (tree : Tree) (snapshot : LocalSnapshot)
      (d : UpdateDecision)
      → Shows install_dir tree
      → build_local_snapshot fs install_dir envelope.manifest ≡ ok snapshot
      → plan_update urls config envelope snapshot accepted now ≡ ok d
      → ((d.check_result.update_available ≡ true)
          × Reaches envelope.manifest tree (run_operations d.operations tree))
        ⊎ ((d.check_result.update_available ≡ false) × (d.operations ≡ []))
  snapshot_plan-Reaches urls config envelope accepted now dir tree snapshot d shows built h =
      plan_update-Reaches urls config envelope snapshot accepted now tree d h
        (build_local_snapshot-Describes dir tree envelope.manifest snapshot shows built)
