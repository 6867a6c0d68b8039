-- ===== src/Rfc3339/Stamp.antt =====
-- The fixed part of a timestamp in parse_rfc3339: the date and the time that its digits give.
use lib_auto_updater.Base.{
  ℕ, suc, ◌+◌, ◌*◌, ◌/◌, ◌%◌, ◌<◌, ◌≤◌, ◌≡◌, ap, ◌∙◌, true, ◌&&◌, ◌∷◌, ◌++◌, arith, leb, ltb, ◌==◌,
  length,
}
use lib_auto_updater.Base.Text.{Bytes}
use lib_auto_updater.Error.{Result, ok, ◌>>=◌, ◌>>◌}
use lib_auto_updater.Version.Padded.{fixed}
use lib_auto_updater.Rfc3339.{
  UtcInstant, digits_loop, parse_digits, take_fraction, take_offset, parse_rfc3339, instant_of,
  days_in_month, require,
}
use lib_auto_updater.Rfc3339.Calendar.{IsDate}

digit_step :
    (count x value : ℕ) (cs : Bytes)
    → x < 10
    → digits_loop (suc count) ((b'0' + x) ∷ cs) value ≡ digits_loop count cs (value * 10 + x)
unfolding digits_loop
digit_step count x value cs h = ground arith

two_digits :
    (n : ℕ) (rest : Bytes)
    → n < 100
    → digits_loop 2 ((b'0' + n / 10 % 10) ∷ (b'0' + n % 10) ∷ rest) 0 ≡ ok n
unfolding digits_loop
two_digits n rest h =
    digit_step 1 (n / 10 % 10) 0 ((b'0' + n % 10) ∷ rest) (omega arith)
    ∙ digit_step 0 (n % 10) (0 * 10 + n / 10 % 10) rest (omega arith)
    ∙ ap ok (whole n h)
  where
    whole : (m : ℕ) → m < 100 → (0 * 10 + m / 10 % 10) * 10 + m % 10 ≡ m
    whole m k = omega arith

four_digits :
    (n : ℕ) (rest : Bytes)
    → n < 10000
    → digits_loop 4
        ((b'0' + n / 10 / 10 / 10 % 10)
          ∷ (b'0' + n / 10 / 10 % 10)
          ∷ (b'0' + n / 10 % 10)
          ∷ (b'0' + n % 10)
          ∷ rest)
        0
      ≡ ok n
unfolding digits_loop
four_digits n rest h =
    let a = n / 10 / 10 / 10 % 10 in
    let b = n / 10 / 10 % 10 in
    let c = n / 10 % 10 in
    digit_step 3 a 0 ((b'0' + b) ∷ (b'0' + c) ∷ (b'0' + n % 10) ∷ rest) (omega arith)
    ∙ digit_step 2 b (0 * 10 + a) ((b'0' + c) ∷ (b'0' + n % 10) ∷ rest) (omega arith)
    ∙ digit_step 1 c ((0 * 10 + a) * 10 + b) ((b'0' + n % 10) ∷ rest) (omega arith)
    ∙ digit_step 0 (n % 10) (((0 * 10 + a) * 10 + b) * 10 + c) rest (omega arith)
    ∙ ap ok (whole n h)
  where
    whole :
        (m : ℕ)
        → m < 10000
        → (((0 * 10 + m / 10 / 10 / 10 % 10) * 10 + m / 10 / 10 % 10) * 10 + m / 10 % 10) * 10
            + m % 10
          ≡ m
    whole m k = omega arith

-- The text of a date and a time, with what follows it.
abbrev pub stamp : ℕ → ℕ → ℕ → ℕ → ℕ → ℕ → Bytes → Bytes
stamp year month day hour minute second rest =
    fixed 4 year
    ++ b'-' ∷ fixed 2 month
    ++ b'-' ∷ fixed 2 day
    ++ b'T' ∷ fixed 2 hour
    ++ b':' ∷ fixed 2 minute
    ++ b':' ∷ fixed 2 second
    ++ rest

-- What is left to do behind the fixed part.
unfoldable pub after_stamp : ℕ → ℕ → ℕ → ℕ → ℕ → ℕ → Bytes → Result UtcInstant
after_stamp year month day hour minute second rest = do
  (nanoseconds, zone) ← take_fraction rest
  (offset, after) ← take_offset zone
  require (length after == 0)
  ok (instant_of year month day hour minute second nanoseconds offset)

module _ (year month day hour minute second : ℕ) (rest : Bytes)
    (date : IsDate (record { year = year; month = month; day = day })) (y : year < 10000)
    (h : hour < 24) (m : minute < 60) (s : second < 60) where
  abbrev pub text : Bytes
  text = stamp year month day hour minute second rest

  read_year : parse_digits text 0 4 ≡ ok year
  unfolding parse_digits
  read_year =
      four_digits year
        (b'-' ∷ fixed 2 month
          ++ b'-' ∷ fixed 2 day
          ++ b'T' ∷ fixed 2 hour
          ++ b':' ∷ fixed 2 minute
          ++ b':' ∷ fixed 2 second
          ++ rest)
        y

  read_month : parse_digits text 5 2 ≡ ok month
  unfolding parse_digits
  read_month =
      two_digits month
        (b'-' ∷ fixed 2 day
          ++ b'T' ∷ fixed 2 hour
          ++ b':' ∷ fixed 2 minute
          ++ b':' ∷ fixed 2 second
          ++ rest)
        (omega (arith, date.month_in))

  pub day_small : day < 100
  unfolding days_in_month
  day_small = let d = date.day_in.1 in ground arith

  read_day : parse_digits text 8 2 ≡ ok day
  unfolding parse_digits
  read_day =
      two_digits day (b'T' ∷ fixed 2 hour ++ b':' ∷ fixed 2 minute ++ b':' ∷ fixed 2 second ++ rest)
        day_small

  read_hour : parse_digits text 11 2 ≡ ok hour
  unfolding parse_digits
  read_hour = two_digits hour (b':' ∷ fixed 2 minute ++ b':' ∷ fixed 2 second ++ rest) (omega arith)

  read_minute : parse_digits text 14 2 ≡ ok minute
  unfolding parse_digits
  read_minute = two_digits minute (b':' ∷ fixed 2 second ++ rest) (omega arith)

  read_second : parse_digits text 17 2 ≡ ok second
  unfolding parse_digits
  read_second = two_digits second rest (omega arith)

  pub parse_stamp :
      1 ≤ length rest → parse_rfc3339 text ≡ after_stamp year month day hour minute second rest
  unfolding parse_rfc3339 after_stamp
  parse_stamp l =
      let long : leb 20 (length text) ≡ true = ground arith in
      let month_in : (ltb 0 year && ltb 0 month && leb month 12) ≡ true =
        ground (arith, date.year_in, date.month_in) in
      let day_in : (ltb 0 day && leb day (days_in_month year month)) ≡ true =
        ground (arith, date.day_in) in
      let time_in : (leb hour 23 && leb minute 59 && leb second 59) ≡ true = ground arith in
      rw (
        long, read_year, read_month, read_day, read_hour, read_minute, read_second, month_in,
        day_in, time_in,
      )
