-- ===== src/Version/Order.antt =====
-- The order of versions: a strict total order on what `operator==` distinguishes.
use lib_auto_updater.Base.{ℕ, Ordering, ◌≡◌, refl, ap, true, false, ◌⊎◌, List, [], ◌∷◌, arith}
use lib_auto_updater.Base.Compare.{Order, lex, lex-Order}
use lib_auto_updater.Base.Text.{Bytes, bytes-Order, bytes_eq_iff}
use lib_auto_updater.Base.Text.Split.{split, join, join-split}
use lib_auto_updater.Version.{
  Version, compare_numeric_identifier, compare_identifier, compare_identifiers, compare_prerelease,
  version_eq, version_lt,
}

pub numeric-Order : Order compare_numeric_identifier
unfolding compare_numeric_identifier
numeric-Order = record {
  eq_of = λ a b h. ground (arith, bytes-Order.eq_of a b);
  same = λ a. ground (arith, bytes-Order.same a);
  turn = λ a b. ground (arith, bytes-Order.turn a b);
  trans = λ a b c h k. ground (arith, bytes-Order.trans a b c);
}

identifier-Order : Order compare_identifier
unfolding compare_identifier
identifier-Order = record {
  eq_of = λ a b h. ground (arith, bytes-Order.eq_of a b, numeric-Order.eq_of a b);
  same = λ a. ground (arith, bytes-Order.same a, numeric-Order.same a);
  turn = λ a b. ground (arith, bytes-Order.turn a b, numeric-Order.turn a b);
  trans = λ a b c h k. ground (arith, bytes-Order.trans a b c, numeric-Order.trans a b c);
}

identifiers-lex : (ls rs : List Bytes) → compare_identifiers ls rs ≡ lex compare_identifier ls rs
unfolding compare_identifiers
identifiers-lex [] [] = refl
identifiers-lex [] (r ∷ rs) = refl
identifiers-lex (l ∷ ls) [] = refl
identifiers-lex (l ∷ ls) (r ∷ rs) = rw (identifiers-lex ls rs)

identifiers-Order : Order compare_identifiers
identifiers-Order = record {
  eq_of = λ a b h. lists.eq_of a b (rw identifiers-lex at h);
  same = λ a. rw identifiers-lex (lists.same a);
  turn = λ a b. rw (identifiers-lex a b, identifiers-lex b a) (lists.turn a b);
  trans = λ a b c h k.
      rw identifiers-lex (lists.trans a b c (rw identifiers-lex at h) (rw identifiers-lex at k));
}
  where
    lists : Order (lex compare_identifier)
    lists = lex-Order identifier-Order

split-injective : (d : ℕ) (a b : Bytes) → split d a ≡ split d b → a ≡ b
split-injective d a b h = cc (join-split d a, join-split d b, ap (join d) h)

pub prerelease-Order : Order compare_prerelease
unfolding compare_prerelease
prerelease-Order = record {
  eq_of = eq_of;
  same = λ a. ground (arith, identifiers-Order.same (split b'.' a));
  turn = λ a b. ground (arith, identifiers-Order.turn (split b'.' a) (split b'.' b));
  trans = λ a b c h k.
      ground (arith, identifiers-Order.trans (split b'.' a) (split b'.' b) (split b'.' c));
}
  where
    eq_of : (a b : Bytes) → compare_prerelease a b ≡ Ordering.eq → a ≡ b
    eq_of [] [] h = refl
    eq_of [] (y ∷ ys) h = cc
    eq_of (x ∷ xs) [] h = cc
    eq_of (x ∷ xs) (y ∷ ys) h =
        split-injective b'.' _ _ (identifiers-Order.eq_of (split b'.' (x ∷ xs)) _ h)

-- `operator<` is irreflexive on what `operator==` identifies.
pub lt-irreflexive : (a b : Version) → version_eq a b ≡ true → version_lt a b ≡ false
unfolding version_eq version_lt
lt-irreflexive a b h =
    ground (arith, bytes_eq_iff a.prerelease b.prerelease, prerelease-Order.same b.prerelease)

-- Exactly one of `a < b`, `a == b` and `b < a` holds, whatever the build metadata.
pub trichotomy :
    (a b : Version)
    → ((version_lt a b ≡ true) × (version_eq a b ≡ false) × (version_lt b a ≡ false))
      ⊎ (((version_lt a b ≡ false) × (version_eq a b ≡ true) × (version_lt b a ≡ false))
          ⊎ ((version_lt a b ≡ false) × (version_eq a b ≡ false) × (version_lt b a ≡ true)))
unfolding version_eq version_lt
trichotomy a b = ground (
  arith,
  bytes_eq_iff a.prerelease b.prerelease,
  prerelease-Order.same b.prerelease,
  prerelease-Order.eq_of a.prerelease b.prerelease,
  prerelease-Order.turn a.prerelease b.prerelease,
)

-- `operator<` is transitive.
pub lt_trans :
    (a b c : Version) → version_lt a b ≡ true → version_lt b c ≡ true → version_lt a c ≡ true
unfolding version_lt
lt_trans a b c h k = ground (arith, prerelease-Order.trans a.prerelease b.prerelease c.prerelease)

-- What is below a version is below all that is not below that version.
pub lt-not_lt :
    (a b c : Version) → version_lt a b ≡ true → version_lt c b ≡ false → version_lt a c ≡ true
unfolding version_lt
lt-not_lt a b c h k = ground (
  arith,
  prerelease-Order.trans a.prerelease b.prerelease c.prerelease,
  prerelease-Order.eq_of c.prerelease b.prerelease,
  prerelease-Order.turn b.prerelease c.prerelease,
)
