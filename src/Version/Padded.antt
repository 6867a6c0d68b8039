-- ===== src/Version/Padded.antt =====
-- Decimal numbers with zeros in front, as std::setw and std::setfill print them.
use lib_auto_updater.Base.{
  ℕ, zero, suc, ◌+◌, ◌-◌, ◌/◌, ◌%◌, ◌^◌, ◌<◌, ◌≤◌, ◌≡◌, refl, sym, ap, true, false, ◌∙◌, [], ◌∷◌,
  ◌++◌, append_assoc, arith, ltb, length, length-append, Bool-cases, inl, inr,
}
use lib_auto_updater.Base.Text.{Bytes}
use lib_auto_updater.Version.{decimal_rounds, decimal_text}

unfoldable pub zeros : ℕ → Bytes
zeros zero = []
zeros (suc n) = b'0' ∷ zeros n

unfoldable pub padded : ℕ → ℕ → Bytes
padded width n = zeros (width - length (decimal_text n)) ++ decimal_text n

-- The last digits of a number, as many as are wanted.
abbrev pub fixed : ℕ → ℕ → Bytes
fixed zero n = []
fixed (suc width) n = fixed width (n / 10) ++ (b'0' + n % 10) ∷ []

rounds_suc :
    (fuel n : ℕ) → n < 10 ^ fuel → 0 < fuel → decimal_rounds (suc fuel) n ≡ decimal_rounds fuel n
unfolding decimal_rounds
rounds_suc zero n h k = absurd (omega arith)
rounds_suc (suc zero) n h k = let small : ltb n 10 ≡ true = ground arith in rw small
rounds_suc (suc (suc fuel)) n h k = elim (Bool-cases (ltb n 10)) [
  | inl e ↦ rw e
  | inr e ↦ rw (e, rounds_suc (suc fuel) (n / 10) (omega arith) (omega arith))
]

text_small : (n : ℕ) → n < 10 → decimal_text n ≡ (b'0' + n) ∷ []
unfolding decimal_text
text_small n h = let small : ltb n 10 ≡ true = ground arith in rw small

text_step :
    (n : ℕ) → 10 ≤ n → n < 10 ^ 31 → decimal_text n ≡ decimal_text (n / 10) ++ (b'0' + n % 10) ∷ []
unfolding decimal_text
text_step n h k =
    let large : ltb n 10 ≡ false = ground arith in
    rw large (
      ap (λ t. t ++ (b'0' + n % 10) ∷ [])
        (sym (rounds_suc 31 (n / 10) (omega arith) (omega arith))))

fixed_zero : (width : ℕ) → fixed width 0 ≡ zeros width
unfolding zeros
fixed_zero zero = refl
fixed_zero (suc width) = rw (fixed_zero width) (turn width)
  where
    turn : (w : ℕ) → zeros w ++ b'0' ∷ [] ≡ b'0' ∷ zeros w
    turn zero = refl
    turn (suc w) = ap (◌∷◌ b'0') (turn w)

one_less : (a b : ℕ) → suc a - (b + 1) ≡ a - b
one_less a b = omega arith

minus_one : (a : ℕ) → suc a - 1 ≡ a
minus_one a = omega arith

padded_small : (width n : ℕ) → n < 10 → padded (suc width) n ≡ fixed (suc width) n
unfolding padded
padded_small width n h =
    let none_over : n / 10 ≡ 0 = omega arith in
    let same : n % 10 ≡ n = omega arith in
    rw (padded, text_small n h, minus_one width, none_over, same, fixed_zero width)

padded_step :
    (width n : ℕ)
    → 10 ≤ n
    → n < 10 ^ 31
    → padded (suc width) n ≡ padded width (n / 10) ++ (b'0' + n % 10) ∷ []
unfolding padded
padded_step width n h k =
    rw
      (
        padded,
        text_step n h k,
        length-append (decimal_text (n / 10)) ((b'0' + n % 10) ∷ []),
        one_less width (length (decimal_text (n / 10))),
      )
      (sym (
        append_assoc (zeros (width - length (decimal_text (n / 10)))) (decimal_text (n / 10))
          ((b'0' + n % 10) ∷ [])))

-- A number that has no more digits than there is room for is printed with exactly that many.
pub padded-fixed :
    (width n : ℕ) → 0 < width → n < 10 ^ 31 → n < 10 ^ width → padded width n ≡ fixed width n
padded-fixed zero n w f h = absurd (omega arith)
padded-fixed (suc width) n w f h = elim (Bool-cases (ltb n 10)) [
  | inl e ↦ padded_small width n (ground arith)
  | inr e ↦
      padded_step width n (ground arith) f
      ∙ ap (λ t. t ++ (b'0' + n % 10) ∷ [])
          (padded-fixed width (n / 10) (positive width n h (ground arith)) (omega arith)
            (omega arith))
]
  where
    positive : (v m : ℕ) → m < 10 ^ suc v → 10 ≤ m → 0 < v
    positive zero m k l = absurd (omega arith)
    positive (suc v) m k l = omega arith
