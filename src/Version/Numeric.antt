-- ===== src/Version/Numeric.antt =====
-- Numeric identifiers are compared by size and then by bytes, with no conversion to a machine
-- number. The lemmas compare that with the order of the numbers that they write.
use lib_auto_updater.Base.{
  ℕ, ◌+◌, ◌-◌, ◌*◌, ◌≤◌, ◌<◌, ◌≡◌, compare, true, false, [], ◌∷◌, arith, all_of, length,
}
use lib_auto_updater.Base.Text.{Bytes, bytes_compare}
use lib_auto_updater.Version.{
  is_ascii_digit, has_leading_zero, compare_numeric_identifier, digits_value, is_numeric_identifier,
}

pub digits_value_mono : (a : ℕ) (xs : Bytes) → a ≤ digits_value a xs
unfolding digits_value
digits_value_mono a [] = omega arith
digits_value_mono a (x ∷ xs) = omega (arith, digits_value_mono (a * 10 + (x - b'0')) xs)

-- A larger start and at least as many digits make a larger number.
digits_value-lt :
    (a b : ℕ) (xs ys : Bytes)
    → a < b
    → length xs ≤ length ys
    → all_of is_ascii_digit xs ≡ true
    → digits_value a xs < digits_value b ys
unfolding digits_value is_ascii_digit
digits_value-lt a b [] ys h l d = omega (arith, digits_value_mono b ys)
digits_value-lt a b (x ∷ xs) [] h l d = absurd (omega arith)
digits_value-lt a b (x ∷ xs) (y ∷ ys) h l d =
    ground (arith, digits_value-lt (a * 10 + (x - b'0')) (b * 10 + (y - b'0')) xs ys)

compare_same_length :
    (a : ℕ) (xs ys : Bytes)
    → length xs ≡ length ys
    → all_of is_ascii_digit xs ≡ true
    → all_of is_ascii_digit ys ≡ true
    → bytes_compare xs ys ≡ compare (digits_value a xs) (digits_value a ys)
unfolding digits_value is_ascii_digit bytes_compare
compare_same_length a [] [] l d e = ground arith
compare_same_length a [] (y ∷ ys) l d e = absurd (omega arith)
compare_same_length a (x ∷ xs) [] l d e = absurd (omega arith)
compare_same_length a (x ∷ xs) (y ∷ ys) l d e =
    let u = a * 10 + (x - b'0') in
    let v = a * 10 + (y - b'0') in
    ground
      (arith, compare_same_length u xs ys, digits_value-lt u v xs ys, digits_value-lt v u ys xs)

-- More digits and no leading zero make a larger number.
shorter_lt :
    (xs ys : Bytes)
    → length xs < length ys
    → is_numeric_identifier xs ≡ true
    → is_numeric_identifier ys ≡ true
    → has_leading_zero ys ≡ false
    → digits_value 0 xs < digits_value 0 ys
unfolding digits_value is_numeric_identifier is_ascii_digit has_leading_zero
shorter_lt [] ys l d e z = ground arith
shorter_lt (x ∷ xs) [] l d e z = absurd (omega arith)
shorter_lt (x ∷ xs) (y ∷ []) l d e z = absurd (omega arith)
shorter_lt (x ∷ xs) (y ∷ y' ∷ ys) l d e z =
    ground (arith, digits_value-lt 0 (y - b'0') (x ∷ xs) (y' ∷ ys))

-- Numeric identifiers without leading zeros are ordered as the numbers that they write, of any size.
pub compare_numeric_identifier-value :
    (xs ys : Bytes)
    → is_numeric_identifier xs ≡ true
    → is_numeric_identifier ys ≡ true
    → has_leading_zero xs ≡ false
    → has_leading_zero ys ≡ false
    → compare_numeric_identifier xs ys ≡ compare (digits_value 0 xs) (digits_value 0 ys)
unfolding compare_numeric_identifier is_numeric_identifier
compare_numeric_identifier-value xs ys d e z w =
    ground (arith, compare_same_length 0 xs ys, shorter_lt xs ys, shorter_lt ys xs)
