-- ===== src/Rfc3339/Fraction.antt =====
-- The fraction of a printed timestamp is read back.
use lib_auto_updater.Base.{
  ℕ, suc, ◌+◌, ◌-◌, ◌*◌, ◌/◌, ◌%◌, ◌<◌, ◌≤◌, ◌≡◌, refl, sym, ap, ap₂, ◌∙◌, true, false, ◌&&◌, [],
  ◌∷◌, ◌++◌, arith, leb, ◌==◌, length, is_empty, if◌then◌else◌, Bool-cases, inl, inr, All,
}
use lib_auto_updater.Base.Text.{Bytes}
use lib_auto_updater.Error.{ok}
use lib_auto_updater.Version.Padded.{fixed, padded-fixed}
use lib_auto_updater.Rfc3339.{fraction_loop, take_fraction}
use lib_auto_updater.Rfc3339.Format.{drop_zeros, fraction_text}

scaled : ℕ → Bytes → ℕ
scaled scale [] = 0
scaled scale (c ∷ cs) = (c - b'0') * scale + scaled (scale / 10) cs

scaled-drop_zeros : (scale : ℕ) (t : Bytes) → scaled scale (drop_zeros t) ≡ scaled scale t
unfolding scaled drop_zeros
scaled-drop_zeros scale [] = refl
scaled-drop_zeros scale (c ∷ cs) = step (drop_zeros cs) (scaled-drop_zeros (scale / 10) cs)
  where
    step :
        (rest : Bytes)
        → scaled (scale / 10) rest ≡ scaled (scale / 10) cs
        → scaled scale (if is_empty rest then (if c == b'0' then [] else c ∷ []) else c ∷ rest)
          ≡ (c - b'0') * scale + scaled (scale / 10) cs
    step [] e = elim (Bool-cases (c == b'0')) [
      | inl z ↦ let same : c ≡ b'0' = ground arith in rw (z, same, sym e) (omega arith)
      | inr z ↦ rw (z, sym e)
    ]
    step (x ∷ xs) e = ap (λ v. (c - b'0') * scale + v) e

nine_digits : (n : ℕ) → n < 1000000000 → scaled 100000000 (fixed 9 n) ≡ n
unfolding scaled
nine_digits n h =
    let q1 = n / 10 in
    let q2 = q1 / 10 in
    let q3 = q2 / 10 in
    let q4 = q3 / 10 in
    let q5 = q4 / 10 in
    let q6 = q5 / 10 in
    let q7 = q6 / 10 in
    let q8 = q7 / 10 in
    sum (q8 % 10) (q7 % 10) (q6 % 10) (q5 % 10) (q4 % 10) (q3 % 10) (q2 % 10) (q1 % 10) (n % 10)
    ∙ whole n h
  where
    back : (x : ℕ) → b'0' + x - b'0' ≡ x
    back x = omega arith

    sum :
        (a b c d e f g i j : ℕ)
        → scaled 100000000 (
            (b'0' + a)
            ∷ (b'0' + b)
            ∷ (b'0' + c)
            ∷ (b'0' + d)
            ∷ (b'0' + e)
            ∷ (b'0' + f)
            ∷ (b'0' + g)
            ∷ (b'0' + i)
            ∷ (b'0' + j)
            ∷ [])
          ≡ a * 100000000
            + (b * 10000000
                + (c * 1000000
                    + (d * 100000 + (e * 10000 + (f * 1000 + (g * 100 + (i * 10 + (j * 1 + 0))))))))
    sum a b c d e f g i j =
        rw (back a, back b, back c, back d, back e, back f, back g, back i, back j)

    whole :
        (m : ℕ)
        → m < 1000000000
        → m / 10 / 10 / 10 / 10 / 10 / 10 / 10 / 10 % 10 * 100000000
            + (m / 10 / 10 / 10 / 10 / 10 / 10 / 10 % 10 * 10000000
                + (m / 10 / 10 / 10 / 10 / 10 / 10 % 10 * 1000000
                    + (m / 10 / 10 / 10 / 10 / 10 % 10 * 100000
                        + (m / 10 / 10 / 10 / 10 % 10 * 10000
                            + (m / 10 / 10 / 10 % 10 * 1000
                                + (m / 10 / 10 % 10 * 100
                                    + (m / 10 % 10 * 10 + (m % 10 * 1 + 0))))))))
          ≡ m
    whole m k = omega arith

-- The bytes of a number are digits.
abbrev IsDigits : Bytes → Type 0
IsDigits = All (λ c. (leb b'0' c && leb c b'9') ≡ true)

-- The loop over the digits of a fraction, up to the letter behind them.
fraction_loop-scaled :
    (t : Bytes) (count scale acc : ℕ)
    → IsDigits t
    → count + length t ≤ 9
    → fraction_loop count scale acc (t ++ b'Z' ∷ [])
      ≡ ok (count + length t, acc + scaled scale t, b'Z' ∷ [])
unfolding scaled fraction_loop
fraction_loop-scaled [] count scale acc d h = rw (plus_zero count, plus_zero acc)
  where
    plus_zero : (n : ℕ) → n + 0 ≡ n
    plus_zero n = omega arith
fraction_loop-scaled (c ∷ cs) count scale acc (e, d) h =
    let room : leb 9 count ≡ false = ground arith in
    rw
      (
        e,
        room,
        fraction_loop-scaled cs (count + 1) (scale / 10) (acc + (c - b'0') * scale) d (omega arith),
      )
      (ap₂ (λ a b. ok (a, b, b'Z' ∷ [])) (count_on count (length cs))
        (sum_on acc ((c - b'0') * scale) (scaled (scale / 10) cs)))
  where
    count_on : (a b : ℕ) → a + 1 + b ≡ a + suc b
    count_on a b = omega arith

    sum_on : (a b x : ℕ) → a + b + x ≡ a + (b + x)
    sum_on a b x = omega arith

drop_zeros-IsDigits : (t : Bytes) → IsDigits t → IsDigits (drop_zeros t)
unfolding drop_zeros
drop_zeros-IsDigits [] d = d
drop_zeros-IsDigits (c ∷ cs) (e, d) = step (drop_zeros cs) (drop_zeros-IsDigits cs d)
  where
    step :
        (rest : Bytes)
        → IsDigits rest
        → IsDigits (if is_empty rest then (if c == b'0' then [] else c ∷ []) else c ∷ rest)
    step [] k = elim (Bool-cases (c == b'0')) [ inl z ↦ rw z tt | inr z ↦ rw z (e, tt) ]
    step (x ∷ xs) k = (e, k)

length-drop_zeros : (t : Bytes) → length (drop_zeros t) ≤ length t
unfolding drop_zeros
length-drop_zeros [] = omega arith
length-drop_zeros (c ∷ cs) = step (drop_zeros cs) (length-drop_zeros cs)
  where
    step :
        (rest : Bytes)
        → length rest ≤ length cs
        → length (if is_empty rest then (if c == b'0' then [] else c ∷ []) else c ∷ rest)
          ≤ suc (length cs)
    step [] k = elim (Bool-cases (c == b'0')) [
      | inl z ↦ rw z (omega arith)
      | inr z ↦ rw z (omega arith)
    ]
    step (x ∷ xs) k = omega arith

digit_of : (n : ℕ) → (leb b'0' (b'0' + n % 10) && leb (b'0' + n % 10) b'9') ≡ true
digit_of n = ground arith

some_left :
    (n : ℕ) → n < 1000000000 → (n == 0) ≡ false → (length (drop_zeros (fixed 9 n)) == 0) ≡ false
unfolding scaled
some_left n h z = elim (Bool-cases (length (drop_zeros (fixed 9 n)) == 0)) [
  | inl e ↦
      let none : n ≡ 0 =
        sym (nine_digits n h)
        ∙ sym (scaled-drop_zeros 100000000 (fixed 9 n))
        ∙ empty (drop_zeros (fixed 9 n)) e in
      ground arith
  | inr e ↦ e
]
  where
    empty : (t : Bytes) → (length t == 0) ≡ true → scaled 100000000 t ≡ 0
    empty [] e = refl
    empty (c ∷ cs) e = ground arith

fraction_loop-drop_zeros :
    (t : Bytes)
    → IsDigits t
    → length t ≤ 9
    → fraction_loop 0 100000000 0 (drop_zeros t ++ b'Z' ∷ [])
      ≡ ok (length (drop_zeros t), scaled 100000000 t, b'Z' ∷ [])
fraction_loop-drop_zeros t d h =
    fraction_loop-scaled (drop_zeros t) 0 100000000 0 (drop_zeros-IsDigits t d)
      (omega (arith, length-drop_zeros t))
    ∙ ap₂ (λ a b. ok (a, b, b'Z' ∷ [])) (zero_plus (length (drop_zeros t)))
        (zero_plus (scaled 100000000 (drop_zeros t)) ∙ scaled-drop_zeros 100000000 t)
  where
    zero_plus : (n : ℕ) → 0 + n ≡ n
    zero_plus n = omega arith

-- The fraction that is printed is read as the nanoseconds, up to the letter behind it.
pub take_fraction-fraction_text :
    (n : ℕ) → n < 1000000000 → take_fraction (fraction_text n ++ b'Z' ∷ []) ≡ ok (n, b'Z' ∷ [])
unfolding take_fraction fraction_text
take_fraction-fraction_text n h = elim (Bool-cases (n == 0)) [
  | inl e ↦ let none : n ≡ 0 = ground arith in rw none
  | inr e ↦
      let t = fixed 9 n in
      rw (
        e,
        padded-fixed 9 n (omega arith) (omega arith) h,
        fraction_loop-drop_zeros t digits (omega arith),
        some_left n h e,
        nine_digits n h,
      )
]
  where
    digits : IsDigits (fixed 9 n)
    digits = (
      digit_of (n / 10 / 10 / 10 / 10 / 10 / 10 / 10 / 10),
      (
        digit_of (n / 10 / 10 / 10 / 10 / 10 / 10 / 10),
        (
          digit_of (n / 10 / 10 / 10 / 10 / 10 / 10),
          (
            digit_of (n / 10 / 10 / 10 / 10 / 10),
            (
              digit_of (n / 10 / 10 / 10 / 10),
              (
                digit_of (n / 10 / 10 / 10),
                (digit_of (n / 10 / 10), (digit_of (n / 10), (digit_of n, tt))),
              ),
            ),
          ),
        ),
      ),
    )
