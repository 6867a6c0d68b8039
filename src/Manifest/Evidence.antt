-- ===== src/Manifest/Evidence.antt =====
-- The evidence that `Manifest::parse` keeps: with which digest and size each source path was seen.
use lib_auto_updater.Base.{
  ℕ, ◌≡◌, ap, subst, true, false, not, none, some, List, [], ◌∷◌, arith, ◌==◌, ◌||◌, All, All-map,
  Bool-cases, Option-cases, inl, inr, ◌⊎◌,
}
use lib_auto_updater.Base.Text.{Bytes, bytes_eq, bytes_eq_iff, bytes_eq_same}
use lib_auto_updater.Error.{
  ◌>>◌, ok, ok_inj, >>=-eq-ok, reject_if, reject_if-eq-ok, manifest_parse_failed,
}
use lib_auto_updater.ManagedPath.Sorted.{AllPairs, Apart}
use lib_auto_updater.Manifest.Topology.{Differs, keys_of, missing-Differs, found-Apart}
use lib_auto_updater.Manifest.{
  Evidence, ManifestFile, find_evidence, portable_source_key, record_evidence,
}

-- Two entries have source paths that are neither one nor nested, or describe the same bytes.
abbrev pub Consistent : ManifestFile → ManifestFile → Type 0
Consistent f g =
    Apart (portable_source_key f.path) (portable_source_key g.path)
    ⊎ ((f.sha256 ≡ g.sha256) × (f.size ≡ g.size))

abbrev pub Recorded : Evidence → ManifestFile → Type 0
Recorded evidence f = find_evidence (portable_source_key f.path) evidence ≡ some (f.sha256, f.size)

abbrev record_of : ManifestFile → Bytes × Bytes × ℕ
record_of f = (portable_source_key f.path, f.sha256, f.size)

new-Recorded : (f : ManifestFile) (evidence : Evidence) → Recorded (record_of f ∷ evidence) f
unfolding find_evidence
new-Recorded f evidence = rw (bytes_eq_same (portable_source_key f.path))

old-Recorded :
    (f g : ManifestFile) (evidence : Evidence)
    → find_evidence (portable_source_key f.path) evidence ≡ none
    → Recorded evidence g
    → Recorded (record_of f ∷ evidence) g
unfolding find_evidence
old-Recorded f g evidence missing found =
    elim (Bool-cases (bytes_eq (portable_source_key f.path) (portable_source_key g.path))) [
      | inl e ↦
          absurd
            (clash ((bytes_eq_iff (portable_source_key f.path) (portable_source_key g.path)).0 e))
      | inr e ↦ rw e found
    ]
  where
    clash : portable_source_key f.path ≡ portable_source_key g.path → ⊥
    clash e = ground (arith, ap (λ k. find_evidence k evidence) e)

-- A file is recorded, and what was recorded stays.
pub record_evidence-Recorded :
    (f : ManifestFile) (evidence next : Evidence)
    → record_evidence f evidence ≡ ok next
    → Recorded next f × ((g : ManifestFile) → Recorded evidence g → Recorded next g)
unfolding record_evidence
record_evidence-Recorded f evidence next h =
    elim (Option-cases (find_evidence (portable_source_key f.path) evidence)) [
      | inl missing ↦
          subst (λ n. Recorded n f × ((g : ManifestFile) → Recorded evidence g → Recorded n g))
            (ok_inj (rw (record_evidence, missing) at h))
            (new-Recorded f evidence, λ g found. old-Recorded f g evidence missing found)
      | inr (seen, found) ↦
          let h' : (reject_if (not (bytes_eq seen.0 f.sha256) || not (seen.1 == f.size))
                  manifest_parse_failed
                >> ok evidence)
              ≡ ok next =
            rw (record_evidence, found) at h in
          let (u, e, h1) =
            >>=-eq-ok
              (reject_if (not (bytes_eq seen.0 f.sha256) || not (seen.1 == f.size))
                manifest_parse_failed)
              _ h' in
          let clear =
            reject_if-eq-ok (not (bytes_eq seen.0 f.sha256) || not (seen.1 == f.size))
              manifest_parse_failed e in
          subst (λ n. Recorded n f × ((g : ManifestFile) → Recorded evidence g → Recorded n g))
            (ok_inj h1) (same seen found clear, λ g r. r)
    ]
  where
    same :
        (seen : Bytes × ℕ)
        → find_evidence (portable_source_key f.path) evidence ≡ some seen
        → (not (bytes_eq seen.0 f.sha256) || not (seen.1 == f.size)) ≡ false
        → Recorded evidence f
    same (sha, size) found clear =
        let sha_same : bytes_eq sha f.sha256 ≡ true = ground arith in
        let size_same : size ≡ f.size = ground arith in
        ground (arith, (bytes_eq_iff sha f.sha256).0 sha_same)

-- No key is kept twice.
abbrev pub Distinct : Evidence → Type 0
Distinct evidence = AllPairs Differs (keys_of evidence)

pub record_evidence-Distinct :
    (f : ManifestFile) (evidence next : Evidence)
    → record_evidence f evidence ≡ ok next
    → Distinct evidence
    → Distinct next
unfolding record_evidence
record_evidence-Distinct f evidence next h d =
    elim (Option-cases (find_evidence (portable_source_key f.path) evidence)) [
      | inl missing ↦
          subst Distinct (ok_inj (rw (record_evidence, missing) at h))
            (missing-Differs (portable_source_key f.path) evidence missing, d)
      | inr (seen, found) ↦
          let h' : (reject_if (not (bytes_eq seen.0 f.sha256) || not (seen.1 == f.size))
                  manifest_parse_failed
                >> ok evidence)
              ≡ ok next =
            rw (record_evidence, found) at h in
          let (u, e, h1) =
            >>=-eq-ok
              (reject_if (not (bytes_eq seen.0 f.sha256) || not (seen.1 == f.size))
                manifest_parse_failed)
              _ h' in
          subst Distinct (ok_inj h1) d
    ]

-- Files that are recorded by the same evidence are consistent.
pub Recorded-Consistent :
    (evidence : Evidence) (fs : List ManifestFile)
    → AllPairs Apart (keys_of evidence)
    → All (Recorded evidence) fs
    → AllPairs Consistent fs
Recorded-Consistent evidence [] a h = tt
Recorded-Consistent evidence (f ∷ fs) a h =
    (All-map pair fs h.1, Recorded-Consistent evidence fs a h.1)
  where
    pair : (g : ManifestFile) → Recorded evidence g → Consistent f g
    pair g r =
        elim (found-Apart (portable_source_key f.path) (portable_source_key g.path) evidence
          (f.sha256, f.size) (g.sha256, g.size) a h.0 r) [
            | inl e ↦ inr (same e)
            | inr apart ↦ inl apart
          ]
      where
        same :
            portable_source_key f.path ≡ portable_source_key g.path
            → (f.sha256 ≡ g.sha256) × (f.size ≡ g.size)
        same e = ground (arith, ap (λ k. find_evidence k evidence) e, h.0)
