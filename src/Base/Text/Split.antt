-- ===== src/Base/Text/Split.antt =====
-- find and substr at a delimiter, and the loop that cuts a string at every delimiter.
use Prim.Native.Nat.{ℕ}
use mathlib.Core.Path.{◌≡◌, refl, ap}
use mathlib.Core.Logic.{◌≢◌, inl, inr}
use mathlib.Core.Option.{Option, none, some}
use mathlib.Core.List.{List, [], ◌∷◌, ◌++◌}
use native.Mathlib.Omega.{arith}
use lib_auto_updater.Base.Tests.{◌==◌, if◌then◌else◌, Bool-cases}
use lib_auto_updater.Base.Lists.{All}

abbrev pub Lacks : ℕ → List ℕ → Type 0
Lacks d = All (λ c. c ≢ d)

-- The text before the first `d`, and the text after it where there is one.
unfoldable pub cut : ℕ → List ℕ → List ℕ × Option (List ℕ)
cut d [] = ([], none)
cut d (c ∷ cs) = let rest = cut d cs in if c == d then ([], some cs) else (c ∷ rest.0, rest.1)

abbrev on_first : ℕ → List (List ℕ) → List (List ℕ)
on_first c [] = (c ∷ []) ∷ []
on_first c (p ∷ ps) = (c ∷ p) ∷ ps

-- The two parts of `cut` give the text back, and the first holds no delimiter.
abbrev pub Cuts : ℕ → List ℕ → List ℕ × Option (List ℕ) → Type 0
Cuts d t (p, none) = t ≡ p
Cuts d t (p, some rest) = t ≡ p ++ d ∷ rest

pub cut-Cuts : (d : ℕ) (t : List ℕ) → Cuts d t (cut d t)
unfolding cut
cut-Cuts d [] = refl
cut-Cuts d (c ∷ cs) = elim (Bool-cases (c == d)) [
  | inl h ↦ rw h (ground arith)
  | inr h ↦ rw h (on_rest (cut d cs) (cut-Cuts d cs))
]
  where
    on_rest : (r : List ℕ × Option (List ℕ)) → Cuts d cs r → Cuts d (c ∷ cs) (c ∷ r.0, r.1)
    on_rest (p, none) e = ap (◌∷◌ c) e
    on_rest (p, some rest) e = ap (◌∷◌ c) e

pub cut-Lacks : (d : ℕ) (t : List ℕ) → Lacks d (cut d t).0
unfolding cut
cut-Lacks d [] = tt
cut-Lacks d (c ∷ cs) = elim (Bool-cases (c == d)) [
  | inl h ↦ rw h tt
  | inr h ↦ rw h (ground arith, cut-Lacks d cs)
]

pub cut-append : (d : ℕ) (p rest : List ℕ) → Lacks d p → cut d (p ++ d ∷ rest) ≡ (p, some rest)
unfolding cut
cut-append d [] rest h = ground arith
cut-append d (c ∷ p) rest h = ground (arith, cut-append d p rest h.1)

pub cut-none : (d : ℕ) (p : List ℕ) → Lacks d p → cut d p ≡ (p, none)
unfolding cut
cut-none d [] h = refl
cut-none d (c ∷ p) h = ground (arith, cut-none d p h.1)

-- The parts between the delimiters, also the empty ones; there is always one part.
unfoldable pub split : ℕ → List ℕ → List (List ℕ)
split d [] = [] ∷ []
split d (c ∷ cs) = if c == d then [] ∷ split d cs else on_first c (split d cs)

-- The parts with a delimiter between each two.
unfoldable pub join : ℕ → List (List ℕ) → List ℕ
join d [] = []
join d (p ∷ []) = p
join d (p ∷ q ∷ ps) = p ++ d ∷ join d (q ∷ ps)

pub split-cons : (d : ℕ) (t : List ℕ) → (p : List ℕ) × (ps : List (List ℕ)) × (split d t ≡ p ∷ ps)
unfolding split
split-cons d [] = ([], [], refl)
split-cons d (c ∷ cs) = elim (Bool-cases (c == d)) [
  | inl h ↦ ([], split d cs, rw h)
  | inr h ↦ let (p, ps, e) = split-cons d cs in (c ∷ p, ps, rw (h, e))
]

on_first-join :
    (c d : ℕ) (p : List ℕ) (ps : List (List ℕ)) {cs : List ℕ} {whole : List ℕ}
    → whole ≡ join d (p ∷ ps)
    → whole ≡ cs
    → join d (on_first c (p ∷ ps)) ≡ c ∷ cs
unfolding join
on_first-join c d p [] e h = cc
on_first-join c d p (q ∷ ps) e h = cc

pub join-split : (d : ℕ) (t : List ℕ) → join d (split d t) ≡ t
unfolding split join
join-split d [] = refl
join-split d (c ∷ cs) =
    let (p, ps, e) = split-cons d cs in
    elim (Bool-cases (c == d)) [
      | inl h ↦ rw h (ground (arith, e, join-split d cs))
      | inr h ↦ rw (h, e) (on_first-join c d p ps (ap (join d) e) (join-split d cs))
    ]

pub split-Lacks : (d : ℕ) (t : List ℕ) → All (Lacks d) (split d t)
unfolding split
split-Lacks d [] = (tt, tt)
split-Lacks d (c ∷ cs) =
    let (p, ps, e) = split-cons d cs in
    let rest : All (Lacks d) (p ∷ ps) = rw e at (split-Lacks d cs) in
    elim (Bool-cases (c == d)) [
      | inl h ↦ rw h (tt, split-Lacks d cs)
      | inr h ↦ rw (h, e) ((ground arith, rest.0), rest.1)
    ]

pub split-join :
    (d : ℕ) (p : List ℕ) (ps : List (List ℕ))
    → All (Lacks d) (p ∷ ps)
    → split d (join d (p ∷ ps)) ≡ p ∷ ps
unfolding split join
split-join d [] [] h = refl
split-join d (c ∷ p) [] h = ground (arith, split-join d p [] (h.0.1, tt))
split-join d [] (q ∷ ps) h = ground (arith, split-join d q ps h.1)
split-join d (c ∷ p) (q ∷ ps) h = ground (arith, split-join d p (q ∷ ps) (h.0.1, h.1))

pub split-append : (d : ℕ) (p q : List ℕ) → split d (p ++ d ∷ q) ≡ split d p ++ split d q
unfolding split
split-append d [] q = ground arith
split-append d (c ∷ p) q =
    let (x, xs, e) = split-cons d p in
    elim (Bool-cases (c == d)) [
      | inl h ↦ rw h (ap (◌∷◌ []) (split-append d p q))
      | inr h ↦ rw (h, split-append d p q, e)
    ]
