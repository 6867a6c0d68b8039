-- ===== src/Manifest/Release.antt =====
-- What `Manifest::parse` has checked of the files of a manifest that it accepts.
use lib_auto_updater.Base.{
  ℕ, ◌+◌, ◌≤◌, ◌≡◌, refl, subst, true, not, List, [], ◌∷◌, ◌++◌, map, arith, ltb, All, All-map,
  All-append, is_empty, Bool-cases, inl, inr, ◌⊎◌, if◌then◌else◌,
}
use lib_auto_updater.Base.Text.{codes}
use lib_auto_updater.Error.{
  ok, ok_inj, >>=-eq-ok, reject_if, reject_if-eq-ok, manifest_parse_failed, resource_limit_exceeded,
}
use lib_auto_updater.Json.{Json, get, as_object?, is_non_negative_integer, as_uint64}
use lib_auto_updater.ManagedPath.{validate_managed_path, validate_managed_target_paths}
use lib_auto_updater.ManagedPath.Segments.{IsManaged, validate_managed_path_iff}
use lib_auto_updater.ManagedPath.Sorted.{AllPairs}
use lib_auto_updater.ManagedPath.Targets.{IsTarget, Separate, validate_managed_target_paths_iff}
use lib_auto_updater.Manifest.{
  ArtifactLimits, FilesSoFar, Manifest, ManifestFile, admit_file, check_schema, manifest_of_json,
  none_so_far, parse_file, parse_files, parse_header, parse_removes, record_evidence, target_of,
  validate_source_topology, within_total, optional_array, root_keys,
}
use lib_auto_updater.Manifest.Topology.{validate_source_topology-AllPairs}
use lib_auto_updater.Manifest.Evidence.{
  Distinct, record_evidence-Distinct, Consistent, Recorded, record_evidence-Recorded,
  Recorded-Consistent,
}
use lib_auto_updater.Manifest.Fields.{
  artifact_size, checked_add, is_lower_hex_sha256, optional_string, require_only_keys,
  required_string, wanted,
}

abbrev pub total_size : List ManifestFile → ℕ
total_size [] = 0
total_size (f ∷ fs) = f.size + total_size fs

module _ (limits : ArtifactLimits) where
  pub record IsFile (f : ManifestFile) : Type 0 where
    pub path : IsManaged f.path
    pub local_path : (is_empty f.local_path ≡ true) ⊎ IsManaged f.local_path
    pub sha256 : is_lower_hex_sha256 f.sha256 ≡ true
    pub size : f.size ≤ limits.max_artifact_bytes

  artifact_size-fits :
      (j : Json) (n : ℕ)
      → artifact_size j limits.max_artifact_bytes ≡ ok n
      → n ≤ limits.max_artifact_bytes
  unfolding artifact_size
  artifact_size-fits j n h =
      let (v, e, h1) = >>=-eq-ok (wanted (get j (codes "size"))) _ h in
      let (u, e1, h2) =
        >>=-eq-ok (reject_if (not (is_non_negative_integer v)) manifest_parse_failed) _ h1 in
      let (u2, e2, h3) =
        >>=-eq-ok
          (reject_if (ltb limits.max_artifact_bytes (as_uint64 v 0)) resource_limit_exceeded) _
          h2 in
      let fits =
        reject_if-eq-ok (ltb limits.max_artifact_bytes (as_uint64 v 0)) resource_limit_exceeded
          e2 in
      let same = ok_inj h3 in subst (λ n. n ≤ limits.max_artifact_bytes) same (ground arith)

  parse_file-checked :
      (j : Json) (f : ManifestFile)
      → parse_file limits j ≡ ok f
      → (is_lower_hex_sha256 f.sha256 ≡ true) × (f.size ≤ limits.max_artifact_bytes)
  unfolding parse_file
  parse_file-checked j f h =
      let (o, e, h1) = >>=-eq-ok (wanted (as_object? j)) _ h in
      let (u, e1, h2) = >>=-eq-ok (require_only_keys j _) _ h1 in
      let (path, e2, h3) = >>=-eq-ok (required_string j (codes "path")) _ h2 in
      let (sha, e3, h4) = >>=-eq-ok (required_string j (codes "sha256")) _ h3 in
      let (local, e4, h5) = >>=-eq-ok (optional_string j _) _ h4 in
      let (u5, e5, h6) =
        >>=-eq-ok (reject_if (not (is_lower_hex_sha256 sha)) manifest_parse_failed) _ h5 in
      let (size, e6, h7) = >>=-eq-ok (artifact_size j limits.max_artifact_bytes) _ h6 in
      let hex = reject_if-eq-ok (not (is_lower_hex_sha256 sha)) manifest_parse_failed e5 in
      subst (λ f. (is_lower_hex_sha256 f.sha256 ≡ true) × (f.size ≤ limits.max_artifact_bytes))
        (ok_inj h7) (ground arith, artifact_size-fits j size e6)

  -- The state of the loop over the files.
  record Gathered (s : FilesSoFar) : Type 0 where
    files : All IsFile s.files
    total : s.total_artifact_bytes ≡ total_size s.files
    within : s.total_artifact_bytes ≤ limits.max_total_artifact_bytes
    recorded : All (Recorded s.source_evidence) s.files
    distinct : Distinct s.source_evidence

  within_total-fits :
      (total n : ℕ) (size : ℕ)
      → within_total limits.max_total_artifact_bytes (checked_add total size) ≡ ok n
      → (n ≡ total + size) × (n ≤ limits.max_total_artifact_bytes)
  unfolding checked_add
  within_total-fits total n size h = ground arith

  total_size-append :
      (fs : List ManifestFile) (f : ManifestFile)
      → total_size (fs ++ f ∷ []) ≡ total_size fs + f.size
  total_size-append [] f = omega arith
  total_size-append (g ∷ fs) f = omega (arith, total_size-append fs f)

  admit_file-Gathered :
      (s next : FilesSoFar) (f : ManifestFile)
      → is_lower_hex_sha256 f.sha256 ≡ true
      → f.size ≤ limits.max_artifact_bytes
      → admit_file limits s f ≡ ok next
      → Gathered s
      → Gathered next
  unfolding admit_file
  admit_file-Gathered s next f hex fits h g =
      let (total, e, h1) =
        >>=-eq-ok
          (within_total limits.max_total_artifact_bytes (checked_add s.total_artifact_bytes f.size))
          _ h in
      let (u, e1, h2) = >>=-eq-ok (validate_managed_path f.path) _ h1 in
      let (u2, e2, h3) =
        >>=-eq-ok (if is_empty f.local_path then ok tt else validate_managed_path f.local_path) _
          h2 in
      let (evidence, e3, h4) = >>=-eq-ok (record_evidence f s.source_evidence) _ h3 in
      let (new, old) = record_evidence-Recorded f s.source_evidence evidence e3 in
      let (sum, below) = within_total-fits s.total_artifact_bytes total f.size e in
      subst Gathered (ok_inj h4) (record {
        files = All-append IsFile s.files (f ∷ []) g.files (
          record {
            path = (validate_managed_path_iff f.path).0 e1;
            local_path = local_lem e2;
            sha256 = hex;
            size = fits;
          },
          tt,
        );
        total = omega (arith, sum, g.total, total_size-append s.files f);
        within = below;
        distinct = record_evidence-Distinct f s.source_evidence evidence e3 g.distinct;
        recorded =
            All-append (Recorded evidence) s.files (f ∷ []) (All-map old s.files g.recorded)
              (new, tt);
      })
    where
      local_lem :
          (if is_empty f.local_path then ok tt else validate_managed_path f.local_path) ≡ ok tt
          → (is_empty f.local_path ≡ true) ⊎ IsManaged f.local_path
      local_lem e = elim (Bool-cases (is_empty f.local_path)) [
        | inl none_given ↦ inl none_given
        | inr given ↦ inr ((validate_managed_path_iff f.local_path).0 (rw given at e))
      ]

  parse_files-Gathered :
      (s : FilesSoFar) (items : List Json) (found : FilesSoFar)
      → parse_files limits s items ≡ ok found
      → Gathered s
      → Gathered found
  unfolding parse_files
  parse_files-Gathered s [] found h g = subst Gathered (ok_inj h) g
  parse_files-Gathered s (i ∷ items) found h g =
      let (f, e, h1) = >>=-eq-ok (parse_file limits i) _ h in
      let (next, e1, h2) = >>=-eq-ok (admit_file limits s f) _ h1 in
      let (hex, fits) = parse_file-checked i f e in
      parse_files-Gathered next items found h2 (admit_file-Gathered s next f hex fits e1 g)

  pub record IsRelease (m : Manifest) : Type 0 where
    pub files : All IsFile m.files
    pub total : total_size m.files ≤ limits.max_total_artifact_bytes
    pub consistent : AllPairs Consistent m.files
    pub targets : All IsTarget (map target_of m.files ++ m.remove)
    pub separate : AllPairs Separate (map target_of m.files ++ m.remove)

  -- In a manifest that is accepted each file has managed paths, a lowercase SHA-256 digest and a size
  -- within the limit; the sizes together are within theirs; two entries have, with case folded, source
  -- paths that are neither one nor nested, or describe the same bytes; and the paths that are written
  -- or removed are targets, pairwise separate.
  pub manifest_of_json-IsRelease :
      (json : Json) (m : Manifest) → manifest_of_json limits json ≡ ok m → IsRelease m
  unfolding manifest_of_json
  manifest_of_json-IsRelease json m h =
      let (u, e, h1) = >>=-eq-ok (check_schema json) _ h in
      let (u1, e1, h2) = >>=-eq-ok (require_only_keys json root_keys) _ h1 in
      let (header, e2, h3) = >>=-eq-ok (parse_header json) _ h2 in
      let (items, e3, h4) = >>=-eq-ok (optional_array (get json (codes "files"))) _ h3 in
      let (found, e4, h5) = >>=-eq-ok (parse_files limits none_so_far items) _ h4 in
      let (paths, e5, h6) = >>=-eq-ok (optional_array (get json (codes "remove"))) _ h5 in
      let (removes, e6, h7) = >>=-eq-ok (parse_removes paths) _ h6 in
      let (u7, e7, h8) = >>=-eq-ok (validate_source_topology found.source_evidence) _ h7 in
      let (u8, e8, h9) =
        >>=-eq-ok (validate_managed_target_paths (map target_of found.files ++ removes)) _ h8 in
      let g =
        parse_files-Gathered none_so_far items found e4 (record {
          files = tt;
          total = refl;
          within = omega arith;
          recorded = tt;
          distinct = tt;
        }) in
      let (targets, separate) =
        (validate_managed_target_paths_iff (map target_of found.files ++ removes)).0 e8 in
      subst IsRelease (ok_inj h9) (record {
        files = g.files;
        total = ground (arith, g.total, g.within);
        consistent =
            Recorded-Consistent found.source_evidence found.files
              (validate_source_topology-AllPairs found.source_evidence g.distinct e7) g.recorded;
        targets = targets;
        separate = separate;
      })
