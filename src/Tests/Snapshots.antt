-- ===== src/Tests/Snapshots.antt =====
-- The installation of the plans as a file system, where a file is its digest.
use lib_auto_updater.Base.{ℕ, some, ◌≡◌, refl, true, false, List, [], ◌∷◌, ◌⊎◌}
use lib_auto_updater.Base.Text.{codes, bytes_eq}
use lib_auto_updater.Error.{ok}
use lib_auto_updater.ManagedPath.{FilePath, managed_path_lookup_key, to_lower}
use lib_auto_updater.Planner.Effect.{Reaches}
use lib_auto_updater.Planner.Run.{run_operations}
use lib_auto_updater.Snapshot.{FileSystem, build_local_snapshot, local_info, take_files}
use lib_auto_updater.Snapshot.Entries.{IsSnapshot, build_local_snapshot-IsSnapshot}
use lib_auto_updater.Snapshot.Describe.{Shows, snapshot_plan-Reaches}
use lib_auto_updater.Tests.Plans.{
  all_urls, config, decision, envelope, manifest, now, planned, snapshot, tree, version_of,
}

abbrev files : FileSystem
files = record {
  Root = Unit {0};
  File = List ℕ;
  open_root = λ dir. ok tt;
  open_regular_file = λ root path. ok (tree (managed_path_lookup_key path));
  sha256_stream = λ file. ok file;
  file_size = λ file. ok 1;
  close = λ file. ok tt;
}

abbrev install_dir : FilePath
install_dir = codes "opt" ∷ codes "app" ∷ []

files-Shows : Shows files install_dir tree
files-Shows root path file digest e e1 e2 = cc

built : build_local_snapshot files install_dir manifest ≡ ok snapshot
unfolding build_local_snapshot take_files local_info managed_path_lookup_key to_lower bytes_eq
built = refl

build_local_snapshot-IsSnapshot_example :
    (root : Unit {0}) × (files.open_root install_dir ≡ ok root)
    × IsSnapshot files root manifest.files snapshot
build_local_snapshot-IsSnapshot_example =
    build_local_snapshot-IsSnapshot files install_dir manifest snapshot built

snapshot_plan-Reaches_example :
    ((true ≡ true) × Reaches manifest tree (run_operations decision.operations tree))
    ⊎ ((true ≡ false) × (decision.operations ≡ []))
snapshot_plan-Reaches_example =
    snapshot_plan-Reaches files all_urls config envelope (some (version_of 1)) now install_dir tree
      snapshot decision files-Shows built planned
