-- ===== src/Base/Compare/Lex.antt =====
-- Three-way comparisons and the lexicographic order of lists.
use Prim.Native.Nat.{Ordering}
use mathlib.Core.Path.{◌≡◌, refl}
use mathlib.Core.Bool.{Bool, true, false}
use mathlib.Core.List.{List, [], ◌∷◌}
use native.Mathlib.Omega.{arith}

abbrev pub flip_order : Ordering → Ordering
flip_order Ordering.lt = Ordering.gt
flip_order Ordering.eq = Ordering.eq
flip_order Ordering.gt = Ordering.lt

-- The second comparison decides where the first finds no difference.
abbrev pub then_compare : Ordering → Ordering → Ordering
then_compare Ordering.lt o = Ordering.lt
then_compare Ordering.eq o = o
then_compare Ordering.gt o = Ordering.gt

abbrev pub is_lt : Ordering → Bool
is_lt Ordering.lt = true
is_lt _ = false

abbrev pub is_eq : Ordering → Bool
is_eq Ordering.eq = true
is_eq _ = false

-- A comparison that decides equality and is a strict total order.
pub record Order {ℓ} {A : Type ℓ} (cmp : A → A → Ordering) : Type ℓ where
  pub eq_of : (a b : A) → cmp a b ≡ Ordering.eq → a ≡ b
  pub same : (a : A) → cmp a a ≡ Ordering.eq
  pub turn : (a b : A) → cmp b a ≡ flip_order (cmp a b)
  pub trans : (a b c : A) → cmp a b ≡ Ordering.lt → cmp b c ≡ Ordering.lt → cmp a c ≡ Ordering.lt

-- std::lexicographical_compare, three-way.
abbrev pub lex {ℓ} : {A : Type ℓ} → (A → A → Ordering) → List A → List A → Ordering
lex cmp [] [] = Ordering.eq
lex cmp [] (y ∷ ys) = Ordering.lt
lex cmp (x ∷ xs) [] = Ordering.gt
lex cmp (x ∷ xs) (y ∷ ys) = then_compare (cmp x y) (lex cmp xs ys)

module _ {ℓ} {A : Type ℓ} {cmp : A → A → Ordering} (ord : Order cmp) where
  lex-eq_of : (xs ys : List A) → lex cmp xs ys ≡ Ordering.eq → xs ≡ ys
  lex-eq_of [] [] h = refl
  lex-eq_of [] (y ∷ ys) h = cc
  lex-eq_of (x ∷ xs) [] h = cc
  lex-eq_of (x ∷ xs) (y ∷ ys) h = ground (arith, ord.eq_of x y, lex-eq_of xs ys)

  lex-same : (xs : List A) → lex cmp xs xs ≡ Ordering.eq
  lex-same [] = refl
  lex-same (x ∷ xs) = rw ord.same (lex-same xs)

  lex-turn : (xs ys : List A) → lex cmp ys xs ≡ flip_order (lex cmp xs ys)
  lex-turn [] [] = refl
  lex-turn [] (y ∷ ys) = refl
  lex-turn (x ∷ xs) [] = refl
  lex-turn (x ∷ xs) (y ∷ ys) = ground (arith, ord.turn x y, lex-turn xs ys)

  lex_trans :
      (xs ys zs : List A)
      → lex cmp xs ys ≡ Ordering.lt
      → lex cmp ys zs ≡ Ordering.lt
      → lex cmp xs zs ≡ Ordering.lt
  lex_trans [] [] zs h k = cc
  lex_trans [] (y ∷ ys) [] h k = cc
  lex_trans [] (y ∷ ys) (z ∷ zs) h k = refl
  lex_trans (x ∷ xs) [] zs h k = cc
  lex_trans (x ∷ xs) (y ∷ ys) [] h k = cc
  lex_trans (x ∷ xs) (y ∷ ys) (z ∷ zs) h k =
      ground (arith, ord.trans x y z, ord.eq_of x y, ord.eq_of y z, ord.same x, lex_trans xs ys zs)

  pub lex-Order : Order (lex cmp)
  lex-Order = record { eq_of = lex-eq_of; same = lex-same; turn = lex-turn; trans = lex_trans }
