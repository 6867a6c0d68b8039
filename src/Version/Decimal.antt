-- ===== src/Version/Decimal.antt =====
-- `decimalText` and `parseNumber` undo one another.
use native.Mathlib.Nat.{pow-suc}
use lib_auto_updater.Base.{
  ℕ, zero, suc, ◌+◌, ◌-◌, ◌*◌, ◌/◌, ◌%◌, ◌^◌, ◌≤◌, ◌<◌, ◌≡◌, refl, ◌∙◌, true, false, [], ◌∷◌, ◌++◌,
  arith, all_of, is_empty, ltb, Bool-cases, inl, inr,
}
use lib_auto_updater.Base.Text.{Bytes}
use lib_auto_updater.Error.{ok}
use lib_auto_updater.Version.{
  int_max, is_ascii_digit, has_leading_zero, digits_value, is_numeric_identifier, decimal_rounds,
  decimal_text, parse_number,
}
use lib_auto_updater.Version.Numeric.{compare_numeric_identifier-value}
use lib_auto_updater.Version.Order.{numeric-Order}

-- A number as `parseNumber` wants it: digits, and no zero in front of others.
pub record IsCanonical (t : Bytes) : Type 0 where
  pub numeric : is_numeric_identifier t ≡ true
  pub no_zero : has_leading_zero t ≡ false

digits_value-append :
    (a : ℕ) (xs : Bytes) (c : ℕ)
    → digits_value a (xs ++ c ∷ []) ≡ digits_value a xs * 10 + (c - b'0')
unfolding digits_value
digits_value-append a [] c = refl
digits_value-append a (x ∷ xs) c = digits_value-append (a * 10 + (x - b'0')) xs c

-- An accepted number is canonical, is the value of its digits, and fits in an int.
pub parse_number-eq-ok :
    (t : Bytes) (n : ℕ)
    → parse_number t ≡ ok n
    → IsCanonical t × (digits_value 0 t ≡ n) × (n ≤ int_max)
unfolding parse_number is_numeric_identifier
parse_number-eq-ok t n h =
    (record { numeric = ground arith; no_zero = ground arith }, ground arith, ground arith)

all_of-append :
    (xs : Bytes) (c : ℕ)
    → all_of is_ascii_digit xs ≡ true
    → is_ascii_digit c ≡ true
    → all_of is_ascii_digit (xs ++ c ∷ []) ≡ true
all_of-append [] c h k = ground arith
all_of-append (x ∷ xs) c h k = ground (arith, all_of-append xs c)

-- What the rounds of `to_chars` print, as the later proofs use it.
record Prints (n : ℕ) (t : Bytes) : Type 0 where
  digits : all_of is_ascii_digit t ≡ true
  value : digits_value 0 t ≡ n
  filled : is_empty t ≡ false
  front : (c : ℕ) (rest : Bytes) → t ≡ c ∷ rest → 0 < n → b'0' < c
  lone : (c d : ℕ) (rest : Bytes) → t ≡ c ∷ d ∷ rest → 0 < n

one_digit-Prints : (n : ℕ) → n < 10 → Prints n ((b'0' + n) ∷ [])
unfolding digits_value is_ascii_digit
one_digit-Prints n h = record {
  digits = ground arith;
  value = ground arith;
  filled = refl;
  front = λ c rest e p. ground arith;
  lone = λ c d rest e. cc;
}

next_digit-Prints :
    (n : ℕ) (t : Bytes) → 10 ≤ n → Prints (n / 10) t → Prints n (t ++ (b'0' + n % 10) ∷ [])
next_digit-Prints n [] h p = cc (p.filled)
next_digit-Prints n (x ∷ xs) h p = record {
  digits = all_of-append (x ∷ xs) _ p.digits (unfold is_ascii_digit in ground arith);
  value = omega (arith, digits_value-append 0 (x ∷ xs) (b'0' + n % 10), p.value);
  filled = refl;
  front = λ c rest e q. ground (arith, p.front x xs);
  lone = λ c d rest e. omega arith;
}

rounds_left : (fuel n : ℕ) → n < 10 ^ suc fuel → 10 ≤ n → 0 < fuel
rounds_left zero n h k = absurd (omega arith)
rounds_left (suc fuel) n h k = omega arith

decimal_rounds-Prints : (fuel n : ℕ) → n < 10 ^ fuel → 0 < fuel → Prints n (decimal_rounds fuel n)
unfolding decimal_rounds
decimal_rounds-Prints zero n h k = absurd (omega arith)
decimal_rounds-Prints (suc fuel) n h k = elim (Bool-cases (ltb n 10)) [
  | inl small ↦ rw small (one_digit-Prints n (ground arith))
  | inr large ↦ rw large (
      next_digit-Prints n _ (ground arith) (
        decimal_rounds-Prints fuel (n / 10) (omega (arith, pow-suc 10 fuel))
          (rounds_left fuel n h (ground arith))))
]

decimal_text-Prints : (n : ℕ) → n ≤ int_max → Prints n (decimal_text n)
unfolding decimal_text
decimal_text-Prints n h = decimal_rounds-Prints 32 n (omega arith) (omega arith)

Prints-IsCanonical : (n : ℕ) (t : Bytes) → Prints n t → IsCanonical t
unfolding is_numeric_identifier has_leading_zero
Prints-IsCanonical n [] p = cc (p.filled)
Prints-IsCanonical n (c ∷ []) p = record { numeric = ground (arith, p.digits); no_zero = refl }
Prints-IsCanonical n (c ∷ d ∷ rest) p = record {
  numeric = ground (arith, p.digits);
  no_zero = ground (arith, p.front c (d ∷ rest) refl (p.lone c d rest refl));
}

pub decimal_text-IsCanonical : (n : ℕ) → n ≤ int_max → IsCanonical (decimal_text n)
decimal_text-IsCanonical n h = Prints-IsCanonical n _ (decimal_text-Prints n h)

-- Every int from 0 is read back from its print.
pub parse_number-decimal_text : (n : ℕ) → n ≤ int_max → parse_number (decimal_text n) ≡ ok n
unfolding parse_number is_numeric_identifier
parse_number-decimal_text n h =
    let p = decimal_text-Prints n h in
    let c = decimal_text-IsCanonical n h in ground (arith, p.value, c.no_zero, c.numeric)

-- An accepted text is the print of its number.
pub decimal_text-parse_number : (t : Bytes) (n : ℕ) → parse_number t ≡ ok n → decimal_text n ≡ t
decimal_text-parse_number t n h =
    let (c, v, fits) = parse_number-eq-ok t n h in
    let p = decimal_text-Prints n fits in
    let d = decimal_text-IsCanonical n fits in
    numeric-Order.eq_of (decimal_text n) t (
      compare_numeric_identifier-value (decimal_text n) t d.numeric c.numeric d.no_zero c.no_zero
      ∙ rw (p.value, v) (ground arith))

-- The print of any number of 64 bits has digits only, at least one and no zero in front of others, and
-- it writes the number.
pub decimal_text-digits :
    (n : ℕ)
    → n < 2 ^ 64
    → (all_of is_ascii_digit (decimal_text n) ≡ true)
      × (digits_value 0 (decimal_text n) ≡ n)
      × (is_empty (decimal_text n) ≡ false)
      × (has_leading_zero (decimal_text n) ≡ false)
unfolding decimal_text
decimal_text-digits n h =
    let p = decimal_rounds-Prints 32 n (omega arith) (omega arith) in
    (p.digits, p.value, p.filled, (Prints-IsCanonical n (decimal_text n) p).no_zero)
