-- ===== src/Base/Text.antt =====
-- Strings as their bytes: the operations of std::string that the program uses.
pub mod Split
use Prim.Native.Nat.{ℕ, compare, Ordering}
use Prim.Native.Char.{code}
use Prim.Native.String.{String}
use mathlib.Core.Path.{◌≡◌, refl, ap₂}
use mathlib.Core.Logic.{◌↔◌}
use mathlib.Core.Bool.{Bool, true, false, ◌&&◌}
use mathlib.Core.List.{List, [], ◌∷◌}
use native.Mathlib.Omega.{arith}
use lib_auto_updater.Base.Tests.{◌==◌, ==_iff}
use lib_auto_updater.Base.Compare.{lex, is_lt, Order, lex-Order, ℕ-Order}

abbrev pub Bytes : Type 0
Bytes = List ℕ

-- The bytes of an ASCII literal.
abbrev pub codes : String → Bytes
codes String.[] = []
codes (String.◌∷◌ c s) = code c ∷ codes s

-- operator== of strings.
unfoldable pub bytes_eq : Bytes → Bytes → Bool
bytes_eq [] [] = true
bytes_eq [] (y ∷ ys) = false
bytes_eq (x ∷ xs) [] = false
bytes_eq (x ∷ xs) (y ∷ ys) = x == y && bytes_eq xs ys

-- std::string::compare: bytes compare as unsigned char.
unfoldable pub bytes_compare : Bytes → Bytes → Ordering
bytes_compare = lex compare

abbrev pub bytes_lt : Bytes → Bytes → Bool
bytes_lt a b = is_lt (bytes_compare a b)

-- compare(0, prefix.size(), prefix) == 0 on a value that is long enough.
unfoldable pub starts_with : Bytes → Bytes → Bool
starts_with xs [] = true
starts_with [] (p ∷ ps) = false
starts_with (x ∷ xs) (p ∷ ps) = x == p && starts_with xs ps

pub bytes-Order : Order bytes_compare
unfolding bytes_compare
bytes-Order = lex-Order ℕ-Order

bytes_eq-eq : (a b : Bytes) → bytes_eq a b ≡ true → a ≡ b
unfolding bytes_eq
bytes_eq-eq [] [] h = refl
bytes_eq-eq [] (y ∷ ys) h = cc
bytes_eq-eq (x ∷ xs) [] h = cc
bytes_eq-eq (x ∷ xs) (y ∷ ys) h = ground (arith, bytes_eq-eq xs ys)

pub bytes_eq_same : (a : Bytes) → bytes_eq a a ≡ true
unfolding bytes_eq
bytes_eq_same [] = refl
bytes_eq_same (x ∷ xs) = ground (arith, bytes_eq_same xs)

pub bytes_eq_iff : (a b : Bytes) → (bytes_eq a b ≡ true) ↔ (a ≡ b)
bytes_eq_iff a b = (bytes_eq-eq a b, λ e. rw e (bytes_eq_same b))

pub bytes_eq_turn : (a b : Bytes) → bytes_eq a b ≡ bytes_eq b a
unfolding bytes_eq
bytes_eq_turn [] [] = refl
bytes_eq_turn [] (y ∷ ys) = refl
bytes_eq_turn (x ∷ xs) [] = refl
bytes_eq_turn (x ∷ xs) (y ∷ ys) = ground (arith, bytes_eq_turn xs ys)
