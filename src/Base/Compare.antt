-- ===== src/Base/Compare.antt =====
-- Three-way comparisons, the laws that make one a total order, and the lexicographic order.
mod Lex
pub use Lex.*
use Prim.Native.Nat.{ℕ, compare, Ordering}
use Lex.{Order}
use native.Mathlib.Omega.{arith}

pub ℕ-Order : Order {A = ℕ} compare
ℕ-Order = record {
  eq_of = λ a b h. ground arith;
  same = λ a. ground arith;
  turn = λ a b. ground arith;
  trans = λ a b c h k. ground arith;
}
