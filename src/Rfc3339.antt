-- ===== src/Rfc3339.antt =====
-- src/util/Rfc3339.cpp: timestamps of the strict profile. The year of a date is at least 1, so the
-- branch of `daysFromCivil` for negative years is not reached and is left out. The wall clock (currentUtcInstant) is not modelled.
pub mod Order
pub mod Calendar
pub mod Civil
pub mod Format
pub mod Stamp
pub mod Bounds
pub mod Fraction
pub mod RoundTrip
use lib_auto_updater.Base.{
  ℕ, zero, suc, ◌+◌, ◌-◌, ◌*◌, ◌/◌, ◌%◌, Bool, true, false, not, ◌&&◌, ◌||◌, Option, none, some,
  List, [], ◌∷◌, ltb, leb, ◌==◌, if◌then◌else◌, length, get_elem?, drop,
}
use lib_auto_updater.Base.Int.{ℤ, pos, ◌+ℤ◌, ◌-ℤ◌, ◌*ℤ◌, ltb_ℤ}
use lib_auto_updater.Base.Text.{Bytes}
use lib_auto_updater.Error.{Result, ok, fail, ◌>>=◌, ◌>>◌, reject_if, manifest_parse_failed}

pub record UtcInstant : Type 0 where
  pub unix_seconds : ℤ
  pub nanoseconds : ℕ

abbrev pub require : Bool → Result (Unit {0})
require b = reject_if (not b) manifest_parse_failed

-- operator< and operator>= of UtcInstant.
unfoldable pub instant_lt : UtcInstant → UtcInstant → Bool
instant_lt l r =
    ltb_ℤ l.unix_seconds r.unix_seconds
    || (not (ltb_ℤ r.unix_seconds l.unix_seconds) && ltb l.nanoseconds r.nanoseconds)

abbrev pub instant_ge : UtcInstant → UtcInstant → Bool
instant_ge l r = not (instant_lt l r)

-- text[index] == byte, false past the end.
abbrev byte_is : Bytes → ℕ → ℕ → Bool
byte_is text index byte = elim (get_elem? text index) [ none ↦ false | some c ↦ c == byte ]

-- The loop of `parseDigits` over the text from the offset on.
digits_loop : ℕ → Bytes → ℕ → Result ℕ
digits_loop zero text value = ok value
digits_loop (suc count) [] value = fail manifest_parse_failed
digits_loop (suc count) (c ∷ cs) value =
    if ltb c b'0' || ltb b'9' c
    then fail manifest_parse_failed
    else digits_loop count cs (value * 10 + (c - b'0'))

unfoldable pub parse_digits : Bytes → ℕ → ℕ → Result ℕ
unfolding digits_loop
parse_digits text offset count = digits_loop count (drop offset text) 0

unfoldable pub is_leap_year : ℕ → Bool
is_leap_year year = year % 4 == 0 && (not (year % 100 == 0) || year % 400 == 0)

-- The table of the source, for months from 1 to 12.
month_days : ℕ → ℕ
month_days month =
    if month == 2
    then 28
    else if month == 4 || month == 6 || month == 9 || month == 11
    then 30
    else 31

unfoldable pub days_in_month : ℕ → ℕ → ℕ
unfolding month_days is_leap_year
days_in_month year month = if month == 2 && is_leap_year year then 29 else month_days month

-- Days since 1970-01-01, before the last subtraction.
unfoldable pub day_number : ℕ → ℕ → ℕ → ℕ
day_number year month day =
    let y = if leb month 2 then year - 1 else year in
    let era = y / 400 in
    let year_of_era = y - era * 400 in
    let adjusted_month = if ltb 2 month then month - 3 else month + 9 in
    let day_of_year = (153 * adjusted_month + 2) / 5 + day - 1 in
    let day_of_era = year_of_era * 365 + year_of_era / 4 - year_of_era / 100 + day_of_year in
    era * 146097 + day_of_era

unfoldable pub days_from_civil : ℕ → ℕ → ℕ → ℤ
days_from_civil year month day = pos (day_number year month day) -ℤ pos 719468

-- The loop over the digits of a fraction: their number, the nanoseconds and the text behind them.
fraction_loop : ℕ → ℕ → ℕ → Bytes → Result (ℕ × ℕ × Bytes)
fraction_loop count scale nanoseconds [] = ok (count, nanoseconds, [])
fraction_loop count scale nanoseconds (c ∷ cs) =
    if leb b'0' c && leb c b'9'
    then (if leb 9 count
        then fail manifest_parse_failed
        else fraction_loop (count + 1) (scale / 10) (nanoseconds + (c - b'0') * scale) cs)
    else ok (count, nanoseconds, c ∷ cs)

-- The nanoseconds at the end of the fixed part, and the text behind them.
unfoldable pub take_fraction : Bytes → Result (ℕ × Bytes)
unfolding fraction_loop
take_fraction rest =
    if byte_is rest 0 b'.'
    then (do
      (count, nanoseconds, after) ← fraction_loop 0 100000000 0 (drop 1 rest)
      require (not (count == 0))
      ok (nanoseconds, after))
    else ok (0, rest)

-- The zone: its offset in seconds, negative west of Greenwich, and the text behind it.
unfoldable pub take_offset : Bytes → Result (ℤ × Bytes)
take_offset rest =
    if byte_is rest 0 b'Z'
    then ok (pos 0, drop 1 rest)
    else if byte_is rest 0 b'+' || byte_is rest 0 b'-'
    then (do
      let negative = byte_is rest 0 b'-'
      require (leb 6 (length rest) && byte_is rest 3 b':')
      offset_hour ← parse_digits rest 1 2
      offset_minute ← parse_digits rest 4 2
      require (
          leb offset_hour 23
          && leb offset_minute 59
          && not (negative && offset_hour == 0 && offset_minute == 0))
      let seconds = pos (offset_hour * 3600 + offset_minute * 60)
      ok ((if negative then pos 0 -ℤ seconds else seconds), drop 6 rest))
    else fail manifest_parse_failed

unfoldable pub instant_of : ℕ → ℕ → ℕ → ℕ → ℕ → ℕ → ℕ → ℤ → UtcInstant
instant_of year month day hour minute second nanoseconds offset = record {
  unix_seconds =
      days_from_civil year month day *ℤ pos 86400
      +ℤ pos (hour * 3600 + minute * 60 + second)
      -ℤ offset;
  nanoseconds = nanoseconds;
}

unfoldable pub parse_rfc3339 : Bytes → Result UtcInstant
parse_rfc3339 text = do
  require (
      leb 20 (length text)
      && byte_is text 4 b'-'
      && byte_is text 7 b'-'
      && byte_is text 10 b'T'
      && byte_is text 13 b':'
      && byte_is text 16 b':')
  year ← parse_digits text 0 4
  month ← parse_digits text 5 2
  day ← parse_digits text 8 2
  hour ← parse_digits text 11 2
  minute ← parse_digits text 14 2
  second ← parse_digits text 17 2
  require (ltb 0 year && ltb 0 month && leb month 12)
  require (ltb 0 day && leb day (days_in_month year month))
  require (leb hour 23 && leb minute 59 && leb second 59)
  (nanoseconds, zone) ← take_fraction (drop 19 text)
  (offset, after) ← take_offset zone
  require (length after == 0)
  ok (instant_of year month day hour minute second nanoseconds offset)
