-- ===== src/ManagedPath/Targets.antt =====
-- What `validateManagedTargetPaths` accepts: targets that no portable file system takes for one
-- another or for a directory of one another.
use lib_auto_updater.Base.{
  ℕ, ◌≡◌, ◌≢◌, ◌↔◌, refl, ap, false, List, [], ◌∷◌, map, arith, All, All-map, All-append,
  Bool-cases, inl, inr, ◌==◌,
}
use lib_auto_updater.Base.Text.{Bytes, codes, bytes_eq_iff}
use lib_auto_updater.Base.Text.Split.{Lacks, split, split-cons, cut, join, join-split}
use lib_auto_updater.Error.{ok, >>=-eq-ok, reject_if-eq-ok}
use lib_auto_updater.ManagedPath.{
  to_lower, lookup_byte, is_updater_state_segment, managed_path_lookup_key, lookup_keys, sort_keys,
  any_neighbours_conflict, validate_managed_target_path, validate_managed_target_paths,
}
use lib_auto_updater.ManagedPath.Covers.{covers, is_prefix, covers-split}
use lib_auto_updater.ManagedPath.Sorted.{AllPairs, Apart, sort_keys-AllPairs}
use lib_auto_updater.ManagedPath.Segments.{
  IsSafeSegment, IsManaged, validate_managed_path_iff, contains-Lacks,
}

-- The segments of a path without regard to the case of ASCII letters.
abbrev pub folded : Bytes → List Bytes
folded path = map (map to_lower) (split b'/' path)

-- A path that is managed and does not lie in the updater's own directory.
pub record IsTarget (path : Bytes) : Type 0 where
  pub managed : IsManaged path
  pub not_state : map to_lower (cut b'/' path).0 ≢ codes ".autoupdater"
  pub no_alias : Lacks b'~' (cut b'/' path).0

-- A target is accepted exactly if it is a managed path and its first segment is not the updater's
-- state directory, with case folded, and has no tilde.
pub validate_managed_target_path_iff :
    (path : Bytes) → (validate_managed_target_path path ≡ ok tt) ↔ IsTarget path
unfolding validate_managed_target_path is_updater_state_segment
validate_managed_target_path_iff path = (
  λ h. record {
    managed = (validate_managed_path_iff path).0 (ground arith);
    not_state = λ e.
        ground (arith, (bytes_eq_iff (map to_lower (cut b'/' path).0) (codes ".autoupdater")).1 e);
    no_alias = (contains-Lacks b'~' (cut b'/' path).0).0 (ground arith);
  },
  λ h. ground (
    arith,
    (validate_managed_path_iff path).1 h.managed,
    (bytes_eq_iff (map to_lower (cut b'/' path).0) (codes ".autoupdater")),
    h.not_state,
    (contains-Lacks b'~' (cut b'/' path).0).1 h.no_alias,
  ),
)

-- No target is another, or lies in the tree below another, under case folding.
abbrev pub Separate : Bytes → Bytes → Type 0
Separate p q = (is_prefix (folded p) (folded q) ≡ false) × (is_prefix (folded q) (folded p) ≡ false)

to_lower-ne-zero : (c : ℕ) → c ≢ 0 → (to_lower c == 0) ≡ false
unfolding to_lower
to_lower-ne-zero c h = ground arith

split-map-lookup_byte : (p : Bytes) → Lacks 0 p → split 0 (map lookup_byte p) ≡ folded p
unfolding split
split-map-lookup_byte [] h = refl
split-map-lookup_byte (c ∷ cs) h =
    let (p, ps, e) = split-cons b'/' cs in
    elim (Bool-cases (c == b'/')) [
      | inl k ↦ rw k (ap (◌∷◌ []) (split-map-lookup_byte cs h.1))
      | inr k ↦ rw (k, to_lower-ne-zero c h.0, split-map-lookup_byte cs h.1, e)
    ]

covers-lookup_key :
    (p q : Bytes)
    → Lacks 0 p
    → Lacks 0 q
    → covers 0 (managed_path_lookup_key p) (managed_path_lookup_key q)
      ≡ is_prefix (folded p) (folded q)
unfolding managed_path_lookup_key
covers-lookup_key p q h k =
    rw (covers-split 0 (map lookup_byte p), split-map-lookup_byte p h, split-map-lookup_byte q k)

-- A target holds no NUL, which the keys use as their separator.
join-Lacks_zero : (ss : List Bytes) → All IsSafeSegment ss → Lacks 0 (join b'/' ss)
unfolding join
join-Lacks_zero [] h = tt
join-Lacks_zero (s ∷ []) h = All-map (λ c k. omega arith) s h.0.printable
join-Lacks_zero (s ∷ t ∷ ss) h =
    All-append _ s _ (All-map (λ c k. omega arith) s h.0.printable)
      (λ e. omega arith, join-Lacks_zero (t ∷ ss) h.1)

IsTarget-Lacks_zero : (p : Bytes) → IsTarget p → Lacks 0 p
IsTarget-Lacks_zero p h = rw join-split at (join-Lacks_zero (split b'/' p) h.managed.segments)

lookup_keys-eq-ok :
    (ps keys : List Bytes)
    → lookup_keys ps ≡ ok keys
    → All IsTarget ps × (keys ≡ map managed_path_lookup_key ps)
unfolding lookup_keys
lookup_keys-eq-ok [] keys h = (tt, cc)
lookup_keys-eq-ok (p ∷ ps) keys h =
    let (u, eu, h1) = >>=-eq-ok (validate_managed_target_path p) _ h in
    let (ks, ek, h2) = >>=-eq-ok (lookup_keys ps) _ h1 in
    let (targets, same) = lookup_keys-eq-ok ps ks ek in
    (((validate_managed_target_path_iff p).0 eu, targets), ground arith)

IsTarget-lookup_keys :
    (ps : List Bytes) → All IsTarget ps → lookup_keys ps ≡ ok (map managed_path_lookup_key ps)
unfolding lookup_keys
IsTarget-lookup_keys [] h = refl
IsTarget-lookup_keys (p ∷ ps) h =
    rw ((validate_managed_target_path_iff p).1 h.0, IsTarget-lookup_keys ps h.1)

Apart-Separate :
    (p q : Bytes)
    → IsTarget p
    → IsTarget q
    → Apart (managed_path_lookup_key p) (managed_path_lookup_key q) ↔ Separate p q
Apart-Separate p q h k =
    let hp = IsTarget-Lacks_zero p h in
    let kq = IsTarget-Lacks_zero q k in
    (
      λ a. (rw (covers-lookup_key p q hp kq) at a.0, rw (covers-lookup_key q p kq hp) at a.1),
      λ a. (rw (covers-lookup_key p q hp kq) a.0, rw (covers-lookup_key q p kq hp) a.1),
    )

All-Separate :
    (p : Bytes) (qs : List Bytes)
    → IsTarget p
    → All IsTarget qs
    → All (Apart (managed_path_lookup_key p)) (map managed_path_lookup_key qs) ↔ All (Separate p) qs
All-Separate p [] h k = (λ a. a, λ a. a)
All-Separate p (q ∷ qs) h k =
    let one = Apart-Separate p q h k.0 in
    let rest = All-Separate p qs h k.1 in
    (λ a. (one.0 a.0, rest.0 a.1), λ a. (one.1 a.0, rest.1 a.1))

AllPairs-Separate :
    (ps : List Bytes)
    → All IsTarget ps
    → AllPairs Apart (map managed_path_lookup_key ps) ↔ AllPairs Separate ps
AllPairs-Separate [] h = (λ a. a, λ a. a)
AllPairs-Separate (p ∷ ps) h =
    let one = All-Separate p ps h.0 h.1 in
    let rest = AllPairs-Separate ps h.1 in
    (λ a. (one.0 a.0, rest.0 a.1), λ a. (one.1 a.0, rest.1 a.1))

-- What the validator has seen of the keys themselves.
pub validate_managed_target_paths-keys :
    (ps : List Bytes)
    → validate_managed_target_paths ps ≡ ok tt
    → All IsTarget ps × AllPairs Apart (map managed_path_lookup_key ps)
unfolding validate_managed_target_paths
validate_managed_target_paths-keys ps h =
    let (keys, ek, h1) = >>=-eq-ok (lookup_keys ps) _ h in
    let (targets, same) = lookup_keys-eq-ok ps keys ek in
    let clear = reject_if-eq-ok (any_neighbours_conflict (sort_keys keys)) _ h1 in
    (targets, rw same at ((sort_keys-AllPairs keys).0 clear))

-- The validator accepts a list exactly if every path is a target and every two are separate.
pub validate_managed_target_paths_iff :
    (ps : List Bytes)
    → (validate_managed_target_paths ps ≡ ok tt) ↔ (All IsTarget ps × AllPairs Separate ps)
unfolding validate_managed_target_paths
validate_managed_target_paths_iff ps = (
  λ h.
      let (targets, apart) = validate_managed_target_paths-keys ps h in
      (targets, (AllPairs-Separate ps targets).0 apart),
  λ h. rw (
    IsTarget-lookup_keys ps h.0,
    (sort_keys-AllPairs (map managed_path_lookup_key ps)).1 ((AllPairs-Separate ps h.0).1 h.1),
  ),
)
