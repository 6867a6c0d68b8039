-- ===== src/Snapshot/Entries.antt =====
-- The entries of a snapshot: one for each target of the manifest, with what was read of its file.
use lib_auto_updater.Base.{
  ◌≡◌, ◌≢◌, refl, sym, ◌∙◌, subst, true, false, ◌||◌, Option, some, none, List, [], ◌∷◌, arith,
  any_of, All, All-map, Bool-cases, inl, inr, ◌⊎◌,
}
use lib_auto_updater.Base.Text.{Bytes, bytes_eq, bytes_eq_iff}
use lib_auto_updater.Error.{ok, ok_inj, ◌>>=◌, >>=-eq-ok}
use lib_auto_updater.ManagedPath.{FilePath}
use lib_auto_updater.ManagedPath.Sorted.{AllPairs}
use lib_auto_updater.Manifest.{Manifest, ManifestFile, target_of}
use lib_auto_updater.Planner.Types.{LocalFileInfo, LocalSnapshot}
use lib_auto_updater.Snapshot.{FileSystem, build_local_snapshot, local_info, take_files}

module _ (fs : FileSystem) where
  -- An entry says what is below the root: no file, or one with this digest and this size.
  abbrev pub IsRead : fs.Root → LocalFileInfo → Type 0
  IsRead root l =
      ((l.is_present ≡ false) × (fs.open_regular_file root l.path ≡ ok none))
      ⊎ ((l.is_present ≡ true)
          × ((file : fs.File) × (fs.open_regular_file root l.path ≡ ok (some file))
              × (fs.sha256_stream file ≡ ok l.sha256)
              × (fs.file_size file ≡ ok l.size)))

  abbrev IsReadAt : fs.Root → Bytes → LocalFileInfo → Type 0
  IsReadAt root path l = (l.path ≡ path) × IsRead root l

  local_info-IsRead :
      (root : fs.Root) (path : Bytes) (opened : Option fs.File) (l : LocalFileInfo)
      → fs.open_regular_file root path ≡ ok opened
      → local_info fs path opened ≡ ok l
      → IsReadAt root path l
  unfolding local_info
  local_info-IsRead root path none l opens h =
      subst (IsReadAt root path) (ok_inj h) (refl, inl (refl, opens))
  local_info-IsRead root path (some file) l opens h =
      let (digest, e, h1) = >>=-eq-ok (fs.sha256_stream file) _ h in
      let (size, e1, h2) = >>=-eq-ok (fs.file_size file) _ h1 in
      let (u, e2, h3) = >>=-eq-ok (fs.close file) _ h2 in
      subst (IsReadAt root path) (ok_inj h3) (refl, inr (refl, (file, opens, e, e1)))

  -- The entries of the targets that were not seen before.
  data Taken (root : fs.Root) : List Bytes → List ManifestFile → LocalSnapshot → Type 0 where
    done : (seen : List Bytes) → Taken root seen [] []
    again :
        (seen : List Bytes) (f : ManifestFile) (files : List ManifestFile)
        (snapshot : LocalSnapshot)
        → any_of (bytes_eq (target_of f)) seen ≡ true
        → Taken root seen files snapshot
        → Taken root seen (f ∷ files) snapshot
    fresh :
        (seen : List Bytes) (f : ManifestFile) (files : List ManifestFile) (l : LocalFileInfo)
        (snapshot : LocalSnapshot)
        → any_of (bytes_eq (target_of f)) seen ≡ false
        → IsReadAt root (target_of f) l
        → Taken root (target_of f ∷ seen) files snapshot
        → Taken root seen (f ∷ files) (l ∷ snapshot)

  take_files-Taken :
      (root : fs.Root) (seen : List Bytes) (files : List ManifestFile) (snapshot : LocalSnapshot)
      → take_files fs root seen files ≡ ok snapshot
      → Taken root seen files snapshot
  unfolding take_files
  take_files-Taken root seen [] snapshot h = subst (Taken root seen []) (ok_inj h) (done seen)
  take_files-Taken root seen (f ∷ files) snapshot h =
      elim (Bool-cases (any_of (bytes_eq (target_of f)) seen)) [
        | inl e ↦
            again seen f files snapshot e
              (take_files-Taken root seen files snapshot (rw (take_files, e) at h))
        | inr e ↦
            let g : (fs.open_regular_file root (target_of f) >>= λ opened.
            local_info fs (target_of f) opened >>= λ info.
            take_files fs root (target_of f ∷ seen) files >>= λ rest. ok (info ∷ rest))
                ≡ ok snapshot =
              rw (take_files, e) at h in
            let (opened, e1, h1) = >>=-eq-ok (fs.open_regular_file root (target_of f)) _ g in
            let (info, e2, h2) = >>=-eq-ok (local_info fs (target_of f) opened) _ h1 in
            let (rest, e3, h3) = >>=-eq-ok (take_files fs root (target_of f ∷ seen) files) _ h2 in
            subst (Taken root seen (f ∷ files)) (ok_inj h3) (
              fresh seen f files info rest e
                (local_info-IsRead root (target_of f) opened info e1 e2)
                (take_files-Taken root (target_of f ∷ seen) files rest e3))
      ]

  Taken-IsRead :
      (root : fs.Root) (seen : List Bytes) (files : List ManifestFile) (snapshot : LocalSnapshot)
      → Taken root seen files snapshot
      → All (IsRead root) snapshot
  Taken-IsRead root seen files snapshot (done _) = tt
  Taken-IsRead root seen files snapshot (again _ f fs' _ e t) =
      Taken-IsRead root seen fs' snapshot t
  Taken-IsRead root seen files snapshot (fresh _ f fs' l ls e r t) =
      (r.1, Taken-IsRead root (target_of f ∷ seen) fs' ls t)

  -- No entry is of a target that was seen before.
  Taken-new :
      (root : fs.Root) (seen : List Bytes) (files : List ManifestFile) (snapshot : LocalSnapshot)
      → Taken root seen files snapshot
      → All (λ l. any_of (bytes_eq l.path) seen ≡ false) snapshot
  Taken-new root seen files snapshot (done _) = tt
  Taken-new root seen files snapshot (again _ f fs' _ e t) = Taken-new root seen fs' snapshot t
  Taken-new root seen files snapshot (fresh _ f fs' l ls e r t) =
      (rw r.0 e, All-map (λ m h. ground arith) ls (Taken-new root (target_of f ∷ seen) fs' ls t))

  Taken-once :
      (root : fs.Root) (seen : List Bytes) (files : List ManifestFile) (snapshot : LocalSnapshot)
      → Taken root seen files snapshot
      → AllPairs (λ l m. l.path ≢ m.path) snapshot
  Taken-once root seen files snapshot (done _) = tt
  Taken-once root seen files snapshot (again _ f fs' _ e t) = Taken-once root seen fs' snapshot t
  Taken-once root seen files snapshot (fresh _ f fs' l ls e r t) = (
    All-map (λ m h. apart m h) ls (Taken-new root (target_of f ∷ seen) fs' ls t),
    Taken-once root (target_of f ∷ seen) fs' ls t,
  )
    where
      apart :
          (m : LocalFileInfo)
          → any_of (bytes_eq m.path) (target_of f ∷ seen) ≡ false
          → l.path ≢ m.path
      apart m h same =
          let other : bytes_eq m.path (target_of f) ≡ true =
            (bytes_eq_iff m.path (target_of f)).1 (sym same ∙ r.0) in
          ground arith

  Taken-complete :
      (root : fs.Root) (seen : List Bytes) (files : List ManifestFile) (snapshot : LocalSnapshot)
      → Taken root seen files snapshot
      → All
          (λ f.
            (any_of (bytes_eq (target_of f)) seen
              || any_of (λ l. bytes_eq (target_of f) l.path) snapshot)
            ≡ true)
          files
  Taken-complete root seen files snapshot (done _) = tt
  Taken-complete root seen files snapshot (again _ f fs' _ e t) =
      (rw e refl, Taken-complete root seen fs' snapshot t)
  Taken-complete root seen files snapshot (fresh _ f fs' l ls e r t) = (
    ground (arith, (bytes_eq_iff (target_of f) l.path).1 (sym r.0)),
    All-map (λ g h. rw r.0 (ground arith)) fs' (Taken-complete root (target_of f ∷ seen) fs' ls t),
  )

  Taken-sound :
      (root : fs.Root) (seen : List Bytes) (files : List ManifestFile) (snapshot : LocalSnapshot)
      → Taken root seen files snapshot
      → All (λ l. any_of (λ f. bytes_eq l.path (target_of f)) files ≡ true) snapshot
  Taken-sound root seen files snapshot (done _) = tt
  Taken-sound root seen files snapshot (again _ f fs' _ e t) =
      All-map (λ l h. ground arith) snapshot (Taken-sound root seen fs' snapshot t)
  Taken-sound root seen files snapshot (fresh _ f fs' l ls e r t) = (
    ground (arith, (bytes_eq_iff l.path (target_of f)).1 r.0),
    All-map (λ m h. ground arith) ls (Taken-sound root (target_of f ∷ seen) fs' ls t),
  )

  -- One entry for each target of the files and no other, each saying what was read below the root.
  pub record IsSnapshot (root : fs.Root) (files : List ManifestFile) (snapshot : LocalSnapshot)
      : Type 0 where
    pub read : All (IsRead root) snapshot
    pub once : AllPairs (λ l m. l.path ≢ m.path) snapshot
    pub complete : All (λ f. any_of (λ l. bytes_eq (target_of f) l.path) snapshot ≡ true) files
    pub sound : All (λ l. any_of (λ f. bytes_eq l.path (target_of f)) files ≡ true) snapshot

  -- A snapshot that is returned was taken below the root that was opened. It has an entry for every
  -- target of the manifest, none for any other path and no two for one path. An entry that is marked
  -- present has the digest and the size of the file that was opened at its path, and an entry is
  -- marked absent only where there was no file.
  pub build_local_snapshot-IsSnapshot :
      (install_dir : FilePath) (manifest : Manifest) (snapshot : LocalSnapshot)
      → build_local_snapshot fs install_dir manifest ≡ ok snapshot
      → (root : fs.Root) × (fs.open_root install_dir ≡ ok root)
        × IsSnapshot root manifest.files snapshot
  unfolding build_local_snapshot
  build_local_snapshot-IsSnapshot dir manifest snapshot h =
      let (root, e, h1) = >>=-eq-ok (fs.open_root dir) _ h in
      let t = take_files-Taken root [] manifest.files snapshot h1 in
      (
        root,
        e,
        record {
          read = Taken-IsRead root [] manifest.files snapshot t;
          once = Taken-once root [] manifest.files snapshot t;
          complete = Taken-complete root [] manifest.files snapshot t;
          sound = Taken-sound root [] manifest.files snapshot t;
        },
      )
