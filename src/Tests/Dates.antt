-- ===== src/Tests/Dates.antt =====
-- The day count at the end of February of a leap year, and printed timestamps.
use lib_auto_updater.Base.{◌≡◌, refl, arith}
use lib_auto_updater.Base.Int.{pos, negsuc, ◌+ℤ◌, ◌-ℤ◌}
use lib_auto_updater.Base.Text.{codes}
use lib_auto_updater.Error.{◌>>=◌, ok, fail, apply_failed}
use lib_auto_updater.Version.{decimal_text}
use lib_auto_updater.Version.Padded.{zeros, padded}
use lib_auto_updater.Rfc3339.{
  UtcInstant, parse_rfc3339, days_from_civil, days_in_month, is_leap_year,
}
use lib_auto_updater.Rfc3339.Civil.{civil_from_days, civil_of_number}
use lib_auto_updater.Rfc3339.Format.{
  format_apply_completion_timestamp, split_days, drop_zeros, fraction_text, timestamp_text,
}
use lib_auto_updater.Rfc3339.RoundTrip.{parse_rfc3339-format_apply_completion_timestamp}
use lib_auto_updater.Rfc3339.Calendar.{Date, IsDate, next_day, days_from_civil-next_day}

abbrev leap_day : Date
leap_day = record { year = 2024; month = 2; day = 29 }

leap_day-IsDate : IsDate leap_day
leap_day-IsDate = record {
  year_in = omega arith;
  month_in = (omega arith, omega arith);
  day_in = (omega arith, unfold days_in_month is_leap_year in omega arith);
}

days_from_civil-next_day_example :
    let n = next_day leap_day in
    (days_from_civil 1970 1 1 ≡ pos 0)
    × (days_from_civil n.year n.month n.day ≡ days_from_civil 2024 2 29 +ℤ pos 1)
days_from_civil-next_day_example = days_from_civil-next_day leap_day leap_day-IsDate

leap_day_printed :
    format_apply_completion_timestamp
      (record { unix_seconds = pos 1709164800; nanoseconds = 120000000 })
    ≡ ok (codes "2024-02-29T00:00:00.12Z")
unfolding format_apply_completion_timestamp timestamp_text padded zeros decimal_text split_days
    civil_from_days civil_of_number ◌+ℤ◌ fraction_text drop_zeros
leap_day_printed = refl

first_second_printed :
    format_apply_completion_timestamp
      (record { unix_seconds = negsuc 62135596799; nanoseconds = 0 })
    ≡ ok (codes "0001-01-01T00:00:00Z")
unfolding format_apply_completion_timestamp timestamp_text padded zeros decimal_text split_days
    civil_from_days civil_of_number ◌+ℤ◌ ◌-ℤ◌ fraction_text
first_second_printed = refl

before_first_second :
    format_apply_completion_timestamp
      (record { unix_seconds = negsuc 62135596800; nanoseconds = 0 })
    ≡ fail apply_failed
unfolding format_apply_completion_timestamp
before_first_second = refl

-- 1969-12-31T23:59:59.5Z.
abbrev before_epoch : UtcInstant
before_epoch = record { unix_seconds = negsuc 0; nanoseconds = 500000000 }

parse_rfc3339-format_apply_completion_timestamp_example :
    (format_apply_completion_timestamp before_epoch >>= parse_rfc3339) ≡ ok before_epoch
parse_rfc3339-format_apply_completion_timestamp_example =
    parse_rfc3339-format_apply_completion_timestamp before_epoch (omega arith) (omega arith)
      (omega arith)
