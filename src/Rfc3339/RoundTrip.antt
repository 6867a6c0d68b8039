-- ===== src/Rfc3339/RoundTrip.antt =====
-- A timestamp that is printed is read back.
use lib_auto_updater.Base.{
  ℕ, ◌+◌, ◌*◌, ◌/◌, ◌%◌, ◌<◌, ◌≤◌, ◌≡◌, sym, ap, ◌∙◌, subst, false, [], ◌∷◌, ◌++◌, arith, leb,
  length, length-append, Bool-cases, inl, inr,
}
use lib_auto_updater.Base.Int.{ℤ, pos, negsuc, ◌-ℤ◌, ◌≤ℤ◌, ltb_ℤ}
use lib_auto_updater.Base.Text.{Bytes}
use lib_auto_updater.Error.{ok, ◌>>=◌}
use lib_auto_updater.Version.Padded.{padded-fixed}
use lib_auto_updater.Rfc3339.{
  UtcInstant, take_offset, parse_rfc3339, instant_of, day_number, days_from_civil,
}
use lib_auto_updater.Rfc3339.Calendar.{Date, IsDate}
use lib_auto_updater.Rfc3339.Civil.{civil_from_days, days_from_civil-civil_from_days}
use lib_auto_updater.Rfc3339.Fraction.{take_fraction-fraction_text}
use lib_auto_updater.Rfc3339.Bounds.{
  day_number-year, split_days-small, split_days-sum, split_days-low, split_days-high,
}
use lib_auto_updater.Rfc3339.Stamp.{stamp, after_stamp, day_small, parse_stamp}
use lib_auto_updater.Rfc3339.Format.{
  split_days, fraction_text, timestamp_text, min_seconds, max_seconds,
  format_apply_completion_timestamp,
}

timestamp_text-stamp :
    (year month day seconds nanoseconds : ℕ)
    → year < 10000
    → month < 100
    → day < 100
    → seconds < 86400
    → timestamp_text year month day seconds nanoseconds
      ≡ stamp year month day
          (seconds / 3600)
          (seconds % 3600 / 60)
          (seconds % 60)
          (fraction_text nanoseconds ++ b'Z' ∷ [])
unfolding timestamp_text
timestamp_text-stamp year month day seconds nanoseconds y m d s = rw (
  padded-fixed 4 year (omega arith) (omega arith) y,
  padded-fixed 2 month (omega arith) (omega arith) m,
  padded-fixed 2 day (omega arith) (omega arith) d,
  padded-fixed 2 (seconds / 3600) (omega arith) (omega arith) (omega arith),
  padded-fixed 2 (seconds % 3600 / 60) (omega arith) (omega arith) (omega arith),
  padded-fixed 2 (seconds % 60) (omega arith) (omega arith) (omega arith),
)

year_small :
    (d : Date) (days : ℤ)
    → IsDate d
    → days_from_civil d.year d.month d.day ≡ days
    → days ≤ℤ pos 2932896
    → d.year < 10000
unfolding days_from_civil ◌-ℤ◌
year_small d days k e h = elim (Bool-cases (leb 10000 d.year)) [
  | inl l ↦
      let late =
        day_number-year d.year d.month d.day (ground arith) k.month_in.0 k.month_in.1 k.day_in.0 in
      let back : pos (day_number d.year d.month d.day) -ℤ pos 719468 ≤ℤ pos 2932896 =
        subst (λ x. x ≤ℤ pos 2932896) (sym e) h in
      absurd (ground (arith, late, back))
  | inr l ↦ ground arith
]

after_fraction :
    (year month day hour minute second nanoseconds : ℕ)
    → nanoseconds < 1000000000
    → after_stamp year month day hour minute second (fraction_text nanoseconds ++ b'Z' ∷ [])
      ≡ ok (instant_of year month day hour minute second nanoseconds (pos 0))
unfolding after_stamp take_offset
after_fraction year month day hour minute second nanoseconds h =
    rw (take_fraction-fraction_text nanoseconds h)

hour_in : (s : ℕ) → s < 86400 → s / 3600 < 24
hour_in s h = omega arith

minute_in : (s : ℕ) → s % 3600 / 60 < 60
minute_in s = omega arith

second_in : (s : ℕ) → s % 60 < 60
second_in s = omega arith

clock : (s : ℕ) → s / 3600 * 3600 + s % 3600 / 60 * 60 + s % 60 ≡ s
clock s = omega arith

not_before : (a b : ℤ) → a ≤ℤ b → ltb_ℤ b a ≡ false
not_before a b h = ground arith

module _ (u : UtcInstant) (low : min_seconds ≤ℤ u.unix_seconds)
    (high : u.unix_seconds ≤ℤ max_seconds) (small : u.nanoseconds < 1000000000) where
  abbrev days : ℤ
  days = (split_days u.unix_seconds).0

  abbrev seconds : ℕ
  seconds = (split_days u.unix_seconds).1

  abbrev civil : Date
  civil = civil_from_days days

  days_low : negsuc 719161 ≤ℤ days
  days_low = split_days-low u.unix_seconds (not_before min_seconds u.unix_seconds low)

  civil-IsDate : IsDate civil
  civil-IsDate = (days_from_civil-civil_from_days days days_low).0

  civil_days : days_from_civil civil.year civil.month civil.day ≡ days
  civil_days = (days_from_civil-civil_from_days days days_low).1

  year_fits : civil.year < 10000
  year_fits =
      year_small civil days civil-IsDate civil_days
        (split_days-high u.unix_seconds (not_before u.unix_seconds max_seconds high))

  civil_day : civil.day < 100
  civil_day =
      day_small civil.year civil.month civil.day (seconds / 3600) (seconds % 3600 / 60)
        (seconds % 60) [] civil-IsDate year_fits (hour_in seconds (split_days-small u.unix_seconds))
        (minute_in seconds) (second_in seconds)

  same_instant :
      instant_of civil.year civil.month civil.day
        (seconds / 3600)
        (seconds % 3600 / 60)
        (seconds % 60)
        u.nanoseconds
        (pos 0)
      ≡ u
  unfolding instant_of
  same_instant = rw (civil_days, clock seconds, split_days-sum u.unix_seconds)

  printed :
      format_apply_completion_timestamp u
      ≡ ok (timestamp_text civil.year civil.month civil.day seconds u.nanoseconds)
  unfolding format_apply_completion_timestamp
  printed =
      let few : leb 1000000000 u.nanoseconds ≡ false = ground arith in
      rw
        (not_before min_seconds u.unix_seconds low, not_before u.unix_seconds max_seconds high, few)

  read_back :
      parse_rfc3339 (timestamp_text civil.year civil.month civil.day seconds u.nanoseconds) ≡ ok u
  read_back =
      let hour = hour_in seconds (split_days-small u.unix_seconds) in
      let rest = fraction_text u.nanoseconds ++ b'Z' ∷ [] in
      ap parse_rfc3339 (
        timestamp_text-stamp civil.year civil.month civil.day seconds u.nanoseconds year_fits
          (omega (arith, civil-IsDate.month_in)) civil_day (split_days-small u.unix_seconds))
      ∙ parse_stamp civil.year civil.month civil.day (seconds / 3600) (seconds % 3600 / 60)
          (seconds % 60) rest civil-IsDate year_fits hour (minute_in seconds) (second_in seconds)
          (ends (fraction_text u.nanoseconds))
      ∙ after_fraction civil.year civil.month civil.day (seconds / 3600) (seconds % 3600 / 60)
          (seconds % 60) u.nanoseconds small
      ∙ ap ok same_instant
    where
      ends : (t : Bytes) → 1 ≤ length (t ++ b'Z' ∷ [])
      ends t = omega (arith, length-append t (b'Z' ∷ []))

  -- An instant of the years 1 to 9999, with less than a second of nanoseconds, is printed, with no
  -- error, as a timestamp that is read as the instant.
  pub parse_rfc3339-format_apply_completion_timestamp :
      (format_apply_completion_timestamp u >>= parse_rfc3339) ≡ ok u
  parse_rfc3339-format_apply_completion_timestamp = rw (printed, read_back)
