-- ===== src/ManagedPath/Covers.antt =====
-- Ancestors among separated strings: what the comparison of two keys says of their parts, and where
-- the descendants of a key stand in byte order.
use lib_auto_updater.Base.{
  ℕ, ◌<◌, ◌≡◌, refl, ap₂, ◌∙◌, Bool, true, false, ◌&&◌, ◌||◌, List, [], ◌∷◌, ◌++◌, arith, ◌==◌,
  length, Bool-cases, inl, inr,
}
use lib_auto_updater.Base.Text.{Bytes, bytes_eq, bytes_lt, bytes_compare, starts_with}
use lib_auto_updater.Base.Text.Split.{split, split-cons}
use lib_auto_updater.ManagedPath.{is_descendant_key, neighbours_conflict}

-- `p` is `q`, or `q` goes on after it with the separator.
unfoldable pub covers : ℕ → Bytes → Bytes → Bool
covers d [] [] = true
covers d [] (c ∷ cs) = c == d
covers d (a ∷ s) [] = false
covers d (a ∷ s) (b ∷ bs) = a == b && covers d s bs

-- The parts of `ps` are the first parts of `qs`.
unfoldable pub is_prefix : List Bytes → List Bytes → Bool
is_prefix [] qs = true
is_prefix (p ∷ ps) [] = false
is_prefix (p ∷ ps) (q ∷ qs) = bytes_eq p q && is_prefix ps qs

no_start : (p : Bytes) (d : ℕ) → starts_with [] (p ++ d ∷ []) ≡ true → ⊥
unfolding starts_with
no_start [] d h = cc
no_start (a ∷ p) d h = cc

pub starts_with-length :
    (p q : Bytes) (d : ℕ) → starts_with q (p ++ d ∷ []) ≡ true → length p < length q
unfolding starts_with
starts_with-length p [] d h = absurd (no_start p d h)
starts_with-length [] (c ∷ cs) d h = omega arith
starts_with-length (a ∷ p) (c ∷ cs) d h = ground (arith, starts_with-length p cs d)

pub covers_lem :
    (d : ℕ) (p q : Bytes) → covers d p q ≡ (bytes_eq p q || starts_with q (p ++ d ∷ []))
unfolding covers bytes_eq starts_with
covers_lem d [] [] = refl
covers_lem d [] (c ∷ cs) = ground arith
covers_lem d (a ∷ s) [] = refl
covers_lem d (a ∷ s) (b ∷ bs) = ground (arith, covers_lem d s bs)

-- The test on neighbouring keys.
pub neighbours_conflict-covers : (p q : Bytes) → neighbours_conflict p q ≡ covers 0 p q
unfolding is_descendant_key
neighbours_conflict-covers p q = ground (arith, covers_lem 0 p q, starts_with-length p q 0)

-- A key covers another exactly if its parts are the first parts of the other.
pub covers-split : (d : ℕ) (p q : Bytes) → covers d p q ≡ is_prefix (split d p) (split d q)
unfolding covers split is_prefix bytes_eq
covers-split d [] [] = refl
covers-split d [] (c ∷ cs) =
    let (x, xs, e) = split-cons d cs in
    elim (Bool-cases (c == d)) [ inl h ↦ rw h | inr h ↦ rw (h, e) ]
covers-split d (a ∷ s) [] =
    let (x, xs, e) = split-cons d s in
    elim (Bool-cases (a == d)) [ inl h ↦ rw (h, e) | inr h ↦ rw (h, e) ]
covers-split d (a ∷ s) (b ∷ bs) =
    let (p, ps, e) = split-cons d s in
    let (q, qs, f) = split-cons d bs in
    let ih : covers d s bs ≡ is_prefix (p ∷ ps) (q ∷ qs) =
      covers-split d s bs ∙ ap₂ is_prefix e f in
    elim (Bool-cases (a == d)) [
      | inl h ↦ elim (Bool-cases (b == d)) [
        | inl k ↦ rw (h, k) (ground (arith, covers-split d s bs))
        | inr k ↦ rw (h, k, f) (ground arith)
      ]
      | inr h ↦ elim (Bool-cases (b == d)) [
        | inl k ↦ rw (h, k, e) (ground arith)
        | inr k ↦ rw (h, k, e, f) (ground (arith, ih))
      ]
    ]

-- What lies between a key and one that it covers in byte order is covered too.
pub covers_between :
    (p x q : Bytes)
    → covers 0 p q ≡ true
    → bytes_lt x p ≡ false
    → bytes_lt q x ≡ false
    → covers 0 p x ≡ true
unfolding covers bytes_compare
covers_between [] [] q h k l = refl
covers_between [] (c ∷ cs) [] h k l = cc
covers_between [] (c ∷ cs) (e ∷ es) h k l = ground arith
covers_between (a ∷ s) [] q h k l = cc
covers_between (a ∷ s) (x ∷ xs) [] h k l = cc
covers_between (a ∷ s) (x ∷ xs) (b ∷ bs) h k l = ground (arith, covers_between s xs bs)

-- A key that covers one before it in byte order is that key.
pub covers_back : (p q : Bytes) → covers 0 q p ≡ true → bytes_lt q p ≡ false → covers 0 p q ≡ true
unfolding covers bytes_compare
covers_back [] [] h k = refl
covers_back [] (c ∷ cs) h k = cc
covers_back (a ∷ s) [] h k = cc
covers_back (a ∷ s) (b ∷ bs) h k = ground (arith, covers_back s bs)
