-- ===== src/Manifest/Topology.antt =====
-- `validateSourceTopology` looks at neighbours only, and that keeps all sources apart.
use lib_auto_updater.Base.{
  ◌≡◌, refl, subst, false, none, some, List, [], ◌∷◌, map, arith, All, Bool-cases, inl, inr, ◌⊎◌, ℕ,
  Option,
}
use lib_auto_updater.Base.Text.{Bytes, bytes_eq, bytes_eq_iff, bytes_eq_turn}
use lib_auto_updater.Error.{ok, reject_if-eq-ok, manifest_parse_failed}
use lib_auto_updater.ManagedPath.{any_neighbours_conflict, sort_keys}
use lib_auto_updater.ManagedPath.Sorted.{AllPairs, Apart, AllPairs-sort_keys, sort_keys-AllPairs}
use lib_auto_updater.Manifest.{
  Evidence, any_neighbour_descends, find_evidence, validate_source_topology,
}

abbrev pub keys_of : Evidence → List Bytes
keys_of = map (λ e. e.0)

abbrev pub Differs : Bytes → Bytes → Type 0
Differs p q = bytes_eq p q ≡ false

Differs-turn : (p q : Bytes) → Differs p q → Differs q p
Differs-turn p q h = ground (arith, bytes_eq_turn p q)

-- A key that is not found differs from all that are kept.
pub missing-Differs :
    (key : Bytes) (evidence : Evidence)
    → find_evidence key evidence ≡ none
    → All (Differs key) (keys_of evidence)
unfolding find_evidence
missing-Differs key [] h = tt
missing-Differs key ((k, sha, size) ∷ rest) h = elim (Bool-cases (bytes_eq k key)) [
  | inl e ↦ absurd (found (sha, size) (rw (find_evidence, e) at h))
  | inr e ↦ (Differs-turn k key e, missing-Differs key rest (rw (find_evidence, e) at h))
]
  where
    found : (seen : Bytes × ℕ) → Option.some seen ≡ none → ⊥
    found seen g = cc

distinct_neighbours :
    (xs : List Bytes)
    → AllPairs Differs xs
    → any_neighbour_descends xs ≡ false
    → any_neighbours_conflict xs ≡ false
unfolding any_neighbour_descends any_neighbours_conflict
distinct_neighbours [] d h = refl
distinct_neighbours (x ∷ []) d h = refl
distinct_neighbours (x ∷ y ∷ ys) d h = ground (arith, d.0.0, distinct_neighbours (y ∷ ys) d.1)

pub validate_source_topology-AllPairs :
    (evidence : Evidence)
    → AllPairs Differs (keys_of evidence)
    → validate_source_topology evidence ≡ ok tt
    → AllPairs Apart (keys_of evidence)
unfolding validate_source_topology
validate_source_topology-AllPairs evidence d h =
    let clear =
      reject_if-eq-ok (any_neighbour_descends (sort_keys (keys_of evidence))) manifest_parse_failed
        h in
    (sort_keys-AllPairs (keys_of evidence)).0 (
      distinct_neighbours (sort_keys (keys_of evidence))
        (AllPairs-sort_keys Differs Differs-turn (keys_of evidence) d) clear)

found-All :
    (P : Bytes → Type 0) (key : Bytes) (evidence : Evidence) (seen : Bytes × ℕ)
    → All P (keys_of evidence)
    → find_evidence key evidence ≡ some seen
    → P key
unfolding find_evidence
found-All P key [] seen a h = absurd cc
found-All P key ((k, sha, size) ∷ rest) seen a h = elim (Bool-cases (bytes_eq k key)) [
  | inl e ↦ subst P ((bytes_eq_iff k key).0 e) a.0
  | inr e ↦ found-All P key rest seen a.1 (rw (find_evidence, e) at h)
]

-- Of two keys that are found either both are one, or they are apart.
pub found-Apart :
    (key other : Bytes) (evidence : Evidence) (seen seen' : Bytes × ℕ)
    → AllPairs Apart (keys_of evidence)
    → find_evidence key evidence ≡ some seen
    → find_evidence other evidence ≡ some seen'
    → (key ≡ other) ⊎ Apart key other
unfolding find_evidence
found-Apart key other [] seen seen' a h h' = absurd cc
found-Apart key other ((k, sha, size) ∷ rest) seen seen' a h h' =
    elim (Bool-cases (bytes_eq k key)) [
      | inl e ↦ elim (Bool-cases (bytes_eq k other)) [
        | inl e' ↦
            inl (subst (λ x. x ≡ other) ((bytes_eq_iff k key).0 e) ((bytes_eq_iff k other).0 e'))
        | inr e' ↦ inr (
            subst (λ x. Apart x other) ((bytes_eq_iff k key).0 e)
              (found-All (Apart k) other rest seen' a.0 (rw (find_evidence, e') at h')))
      ]
      | inr e ↦ elim (Bool-cases (bytes_eq k other)) [
        | inl e' ↦
            let apart = found-All (Apart k) key rest seen a.0 (rw (find_evidence, e) at h) in
            inr (subst (Apart key) ((bytes_eq_iff k other).0 e') (apart.1, apart.0))
        | inr e' ↦
            found-Apart key other rest seen seen' a.1 (rw (find_evidence, e) at h)
              (rw (find_evidence, e') at h')
      ]
    ]
