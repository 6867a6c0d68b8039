-- ===== src/Snapshot.antt =====
-- src/LocalSnapshotBuilder.cpp: the snapshot of the installed files that a manifest names. The file
-- system and the hash are the interfaces of include/libAutoUpdater/interfaces, taken as functions:
-- while the snapshot is taken nobody else writes to the installation.
pub mod Entries
pub mod Describe
use lib_auto_updater.Base.{ℕ, Bool, true, false, Option, some, none, List, [], ◌∷◌, any_of}
use lib_auto_updater.Base.Text.{Bytes, bytes_eq}
use lib_auto_updater.Error.{Result, ok, fail, ◌>>=◌, ◌>>◌}
use lib_auto_updater.ManagedPath.{FilePath}
use lib_auto_updater.Manifest.{Manifest, ManifestFile, target_of}
use lib_auto_updater.Planner.Types.{LocalFileInfo, LocalSnapshot}

pub record FileSystem : Type 1 where
  pub Root : Type 0
  pub File : Type 0
  pub open_root : FilePath → Result Root
  pub open_regular_file : Root → Bytes → Result (Option File)
  pub sha256_stream : File → Result Bytes
  pub file_size : File → Result ℕ
  pub close : File → Result (Unit {0})

module _ (fs : FileSystem) where
  -- Where hashing or reading the size fails, the file is closed too, and its error is the one returned.
  unfoldable pub local_info : Bytes → Option fs.File → Result LocalFileInfo
  local_info path none = ok (record { path = path; is_present = false; sha256 = []; size = 0 })
  local_info path (some file) = do
    sha256 ← fs.sha256_stream file
    size ← fs.file_size file
    fs.close file
    ok (record { path = path; is_present = true; sha256 = sha256; size = size })

  -- The loop over the files; `seen` are the targets before.
  unfoldable pub take_files : fs.Root → List Bytes → List ManifestFile → Result LocalSnapshot
  take_files root seen [] = ok []
  take_files root seen (file ∷ files) =
      let local_path = target_of file in
      elim (any_of (bytes_eq local_path) seen) [
        | true ↦ take_files root seen files
        | false ↦ do
          opened ← fs.open_regular_file root local_path
          info ← local_info local_path opened
          rest ← take_files root (local_path ∷ seen) files
          ok (info ∷ rest)
      ]

  unfoldable pub build_local_snapshot : FilePath → Manifest → Result LocalSnapshot
  build_local_snapshot install_dir manifest = do
    root ← fs.open_root install_dir
    take_files root [] manifest.files
