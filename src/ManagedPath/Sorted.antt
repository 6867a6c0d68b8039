-- ===== src/ManagedPath/Sorted.antt =====
-- The loop over the sorted keys looks at neighbours only, and that finds every conflict.
use lib_auto_updater.Base.{
  map-All, map, ◌≡◌, refl, ◌↔◌, true, false, List, [], ◌∷◌, arith, if◌then◌else◌, Bool-cases, inl,
  inr, All, All-map, All-append, ◌++◌,
}
use lib_auto_updater.Base.Text.{Bytes, bytes_lt, bytes-Order}
use lib_auto_updater.ManagedPath.{
  insert_key, sort_keys, neighbours_conflict, any_neighbours_conflict,
}
use lib_auto_updater.ManagedPath.Covers.{
  covers, neighbours_conflict-covers, covers_between, covers_back,
}

-- Every two members of the list are related.
abbrev pub AllPairs {ℓ κ} : {A : Type ℓ} → (A → A → Type κ) → List A → Type κ
AllPairs R [] = Unit
AllPairs R (x ∷ xs) = All (R x) xs × AllPairs R xs

pub map-AllPairs {ℓ κ ι} :
    {A : Type ℓ} {B : Type κ} (R : B → B → Type ι) (f : A → B) (xs : List A)
    → AllPairs R (map f xs)
    → AllPairs (λ a b. R (f a) (f b)) xs
map-AllPairs R f [] h = tt
map-AllPairs R f (x ∷ xs) h = (map-All (R (f x)) f xs h.0, map-AllPairs R f xs h.1)

pub AllPairs-impl {ℓ κ ι} :
    {A : Type ℓ} {R : A → A → Type κ} {S : A → A → Type ι}
    → ((a b : A) → R a b → S a b)
    → (xs : List A) → AllPairs R xs
    → AllPairs S xs
AllPairs-impl f [] h = tt
AllPairs-impl f (x ∷ xs) h = (All-map (f x) xs h.0, AllPairs-impl f xs h.1)

pub snoc-AllPairs {ℓ κ} :
    {A : Type ℓ} (R : A → A → Type κ) (xs : List A) (y : A)
    → AllPairs R xs
    → All (λ x. R x y) xs
    → AllPairs R (xs ++ y ∷ [])
snoc-AllPairs R [] y h k = (tt, tt)
snoc-AllPairs R (x ∷ xs) y h k =
    (All-append (R x) xs (y ∷ []) h.0 (k.0, tt), snoc-AllPairs R xs y h.1 k.1)

-- Neither key covers the other.
abbrev pub Apart : Bytes → Bytes → Type 0
Apart p q = (covers 0 p q ≡ false) × (covers 0 q p ≡ false)

abbrev Le : Bytes → Bytes → Type 0
Le p q = bytes_lt q p ≡ false

Le-trans : (p q r : Bytes) → Le p q → Le q r → Le p r
Le-trans p q r h k = ground (
  arith,
  bytes-Order.trans p q r,
  bytes-Order.trans r p q,
  bytes-Order.turn p q,
  bytes-Order.turn q r,
  bytes-Order.turn p r,
  bytes-Order.eq_of p q,
  bytes-Order.eq_of q r,
)

Le-turn : (p q : Bytes) → bytes_lt p q ≡ true → Le p q
Le-turn p q h = ground (arith, bytes-Order.turn p q)

abbrev Sorted : List Bytes → Type 0
Sorted = AllPairs Le

insert_key-All :
    (P : Bytes → Type 0) (k : Bytes) (xs : List Bytes) → P k → All P xs → All P (insert_key k xs)
unfolding insert_key
insert_key-All P k [] h hs = (h, tt)
insert_key-All P k (x ∷ xs) h hs = elim (Bool-cases (bytes_lt x k)) [
  | inl e ↦ rw e (hs.0, insert_key-All P k xs h hs.1)
  | inr e ↦ rw e (h, hs)
]

insert_key-Sorted : (k : Bytes) (xs : List Bytes) → Sorted xs → Sorted (insert_key k xs)
unfolding insert_key
insert_key-Sorted k [] h = (tt, tt)
insert_key-Sorted k (x ∷ xs) h = elim (Bool-cases (bytes_lt x k)) [
  | inl e ↦ rw e (insert_key-All (Le x) k xs (Le-turn x k e) h.0, insert_key-Sorted k xs h.1)
  | inr e ↦ rw e ((e, All-map (λ q l. Le-trans k x q e l) xs h.0), h)
]

sort_keys-Sorted : (ks : List Bytes) → Sorted (sort_keys ks)
unfolding sort_keys
sort_keys-Sorted [] = tt
sort_keys-Sorted (k ∷ ks) = insert_key-Sorted k (sort_keys ks) (sort_keys-Sorted ks)

-- In a sorted list, where the first two keys are apart the first is apart from all others.
head-Apart :
    (p x : Bytes) (xs : List Bytes)
    → neighbours_conflict p x ≡ false
    → All (Le p) (x ∷ xs)
    → All (Le x) xs
    → All (Apart p) (x ∷ xs)
head-Apart p x xs c lp lx = (apart x lp.0 (same x), go xs lp.1 lx)
  where
    clear : covers 0 p x ≡ false
    clear = rw neighbours_conflict-covers at c

    same : (q : Bytes) → Le q q
    same q = ground (arith, bytes-Order.same q)

    apart : (q : Bytes) → Le p q → Le x q → Apart p q
    apart q l m =
        let first : covers 0 p q ≡ false = ground (arith, clear, covers_between p x q) in
        (first, ground (arith, covers_back p q))

    go : (ys : List Bytes) → All (Le p) ys → All (Le x) ys → All (Apart p) ys
    go [] a b = tt
    go (y ∷ ys) a b = (apart y a.0 b.0, go ys a.1 b.1)

no_neighbours-AllPairs :
    (xs : List Bytes) → Sorted xs → any_neighbours_conflict xs ≡ false → AllPairs Apart xs
unfolding any_neighbours_conflict
no_neighbours-AllPairs [] s h = tt
no_neighbours-AllPairs (x ∷ []) s h = (tt, tt)
no_neighbours-AllPairs (x ∷ y ∷ ys) s h =
    (head-Apart x y ys (ground arith) s.0 s.1.0, no_neighbours-AllPairs (y ∷ ys) s.1 (ground arith))

AllPairs-no_neighbours : (xs : List Bytes) → AllPairs Apart xs → any_neighbours_conflict xs ≡ false
unfolding any_neighbours_conflict
AllPairs-no_neighbours [] h = refl
AllPairs-no_neighbours (x ∷ []) h = refl
AllPairs-no_neighbours (x ∷ y ∷ ys) h =
    ground (arith, neighbours_conflict-covers x y, AllPairs-no_neighbours (y ∷ ys) h.1, h.0.0)

insert_key-AllPairs :
    (R : Bytes → Bytes → Type 0) (turn : (p q : Bytes) → R p q → R q p) (k : Bytes)
    (xs : List Bytes)
    → All (R k) xs
    → AllPairs R xs
    → AllPairs R (insert_key k xs)
unfolding insert_key
insert_key-AllPairs R turn k [] a h = (tt, tt)
insert_key-AllPairs R turn k (x ∷ xs) a h = elim (Bool-cases (bytes_lt x k)) [
  | inl e ↦
      rw e (insert_key-All (R x) k xs (turn k x a.0) h.0, insert_key-AllPairs R turn k xs a.1 h.1)
  | inr e ↦ rw e (a, h)
]

All-insert_key :
    (P : Bytes → Type 0) (k : Bytes) (xs : List Bytes) → All P (insert_key k xs) → P k × All P xs
unfolding insert_key
All-insert_key P k [] h = h
All-insert_key P k (x ∷ xs) h = elim (Bool-cases (bytes_lt x k)) [
  | inl e ↦ let (a, b) = below e h in let (c, d) = All-insert_key P k xs b in (c, (a, d))
  | inr e ↦ rw e at h
]
  where
    below :
        bytes_lt x k ≡ true
        → All P (if bytes_lt x k then x ∷ insert_key k xs else k ∷ x ∷ xs)
        → P x × All P (insert_key k xs)
    below e g = rw e at g

AllPairs-insert_key :
    (k : Bytes) (xs : List Bytes) → AllPairs Apart (insert_key k xs) → AllPairs Apart (k ∷ xs)
unfolding insert_key
AllPairs-insert_key k [] h = h
AllPairs-insert_key k (x ∷ xs) h = elim (Bool-cases (bytes_lt x k)) [
  | inl e ↦
      let (ax, rest) = below e h in
      let (xk, xxs) = All-insert_key (Apart x) k xs ax in
      let (kxs, pairs) = AllPairs-insert_key k xs rest in (((xk.1, xk.0), kxs), (xxs, pairs))
  | inr e ↦ rw e at h
]
  where
    below :
        bytes_lt x k ≡ true
        → AllPairs Apart (if bytes_lt x k then x ∷ insert_key k xs else k ∷ x ∷ xs)
        → All (Apart x) (insert_key k xs) × AllPairs Apart (insert_key k xs)
    below e g = rw e at g

sort_keys-All : (P : Bytes → Type 0) (ks : List Bytes) → All P ks ↔ All P (sort_keys ks)
unfolding sort_keys
sort_keys-All P [] = (λ h. h, λ h. h)
sort_keys-All P (k ∷ ks) = (
  λ h. insert_key-All P k (sort_keys ks) h.0 ((sort_keys-All P ks).0 h.1),
  λ h. let (a, b) = All-insert_key P k (sort_keys ks) h in (a, (sort_keys-All P ks).1 b),
)

pub AllPairs-sort_keys :
    (R : Bytes → Bytes → Type 0) (turn : (p q : Bytes) → R p q → R q p) (ks : List Bytes)
    → AllPairs R ks
    → AllPairs R (sort_keys ks)
unfolding sort_keys
AllPairs-sort_keys R turn [] h = tt
AllPairs-sort_keys R turn (k ∷ ks) h =
    insert_key-AllPairs R turn k (sort_keys ks) ((sort_keys-All (R k) ks).0 h.0)
      (AllPairs-sort_keys R turn ks h.1)

sort_keys-pairs : (ks : List Bytes) → AllPairs Apart (sort_keys ks) → AllPairs Apart ks
unfolding sort_keys
sort_keys-pairs [] h = h
sort_keys-pairs (k ∷ ks) h =
    let (a, b) = AllPairs-insert_key k (sort_keys ks) h in
    ((sort_keys-All (Apart k) ks).1 a, sort_keys-pairs ks b)

-- The check of the sorted keys passes exactly if every two keys are apart.
pub sort_keys-AllPairs :
    (ks : List Bytes) → (any_neighbours_conflict (sort_keys ks) ≡ false) ↔ AllPairs Apart ks
sort_keys-AllPairs ks = (
  λ h. sort_keys-pairs ks (no_neighbours-AllPairs (sort_keys ks) (sort_keys-Sorted ks) h),
  λ h. AllPairs-no_neighbours (sort_keys ks) (AllPairs-sort_keys Apart (λ p q a. (a.1, a.0)) ks h),
)
