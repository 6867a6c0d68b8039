-- ===== src/Rfc3339/Civil.antt =====
-- civilFromDays of src/ApplyTransactionReceipt.cpp; daysFromCivil of src/util/Rfc3339.cpp takes the
-- date that it gives back to the number of days.
use lib_auto_updater.Base.{
  ℕ, ◌+◌, ◌-◌, ◌*◌, ◌/◌, ◌≤◌, ◌<◌, ◌≡◌, ◌⊎◌, inl, inr, true, Bool-cases, ◌==◌, ◌∙◌, arith, ltb, leb,
  if◌then◌else◌,
}
use lib_auto_updater.Base.Int.{ℤ, pos, negsuc, pos_part, ◌+ℤ◌, ◌-ℤ◌, ◌≤ℤ◌}
use lib_auto_updater.Rfc3339.{days_from_civil, day_number, is_leap_year, days_in_month}
use lib_auto_updater.Rfc3339.Calendar.{Date, IsDate}

year_of_era : ℕ → ℕ
year_of_era doe = (doe - doe / 1460 + doe / 36524 - doe / 146096) / 365

-- The days before a year of an era.
abbrev days_before : ℕ → ℕ
days_before yoe = 365 * yoe + yoe / 4 - yoe / 100

year_of_era-small : (doe : ℕ) → doe < 146097 → year_of_era doe < 400
unfolding year_of_era
year_of_era-small doe h = omega arith

days_before-le : (doe : ℕ) → doe < 146097 → days_before (year_of_era doe) ≤ doe
unfolding year_of_era
days_before-le doe h = omega arith

day_of_year-le : (doe : ℕ) → doe < 146097 → doe ≤ days_before (year_of_era doe) + 365
unfolding year_of_era
day_of_year-le doe h = omega arith

-- The date of a day of a year that begins in March.
abbrev date_of : ℕ → ℕ → Date
date_of year day_of_year =
    let month_prime = (5 * day_of_year + 2) / 153 in
    let month = if ltb month_prime 10 then month_prime + 3 else month_prime - 9 in
    record {
      year = year + (if leb month 2 then 1 else 0);
      month = month;
      day = day_of_year - (153 * month_prime + 2) / 5 + 1;
    }

abbrev civil_year : ℕ → ℕ → ℕ
civil_year era doe = year_of_era doe + era * 400

-- The date of a day of the count that begins with the first of March of the year 0. The source also has
-- a branch for days before that, which no instant that it formats reaches.
unfoldable pub civil_of_number : ℕ → Date
unfolding year_of_era
civil_of_number n =
    let era = n / 146097 in
    let day_of_era = n - era * 146097 in
    date_of (civil_year era day_of_era) (day_of_era - days_before (year_of_era day_of_era))

day_number-date_of :
    (era yoe doy : ℕ)
    → yoe < 400
    → doy ≤ 365
    → let d = date_of (yoe + era * 400) doy in
      day_number d.year d.month d.day ≡ era * 146097 + days_before yoe + doy
unfolding day_number
day_number-date_of era yoe doy h k = ground arith

number_of_era :
    (era doe : ℕ)
    → doe < 146097
    → let d = date_of (civil_year era doe) (doe - days_before (year_of_era doe)) in
      day_number d.year d.month d.day ≡ era * 146097 + doe
number_of_era era doe h =
    let low = days_before-le doe h in
    let high = day_of_year-le doe h in
    day_number-date_of era (year_of_era doe) (doe - days_before (year_of_era doe))
      (year_of_era-small doe h) (small (days_before (year_of_era doe)) doe low high)
    ∙ back (era * 146097) (days_before (year_of_era doe)) doe low
  where
    small : (a b : ℕ) → a ≤ b → b ≤ a + 365 → b - a ≤ 365
    small a b low high = omega arith

    back : (e a b : ℕ) → a ≤ b → e + a + (b - a) ≡ e + b
    back e a b low = omega arith

-- The day count of the date of a day is that day.
pub day_number-civil_of_number :
    (n : ℕ) → let d = civil_of_number n in day_number d.year d.month d.day ≡ n
unfolding civil_of_number
day_number-civil_of_number n =
    number_of_era (n / 146097) (n - n / 146097 * 146097) (omega arith) ∙ whole n
  where
    whole : (m : ℕ) → m / 146097 * 146097 + (m - m / 146097 * 146097) ≡ m
    whole m = omega arith

-- The year ends where the next one begins; the era ends with a leap day.
year_end_le :
    (doe : ℕ) → doe < 146097 → (year_of_era doe ≡ 399) ⊎ (doe < days_before (year_of_era doe + 1))
unfolding year_of_era
year_end_le doe h = ground arith

leap_end :
    (era yoe : ℕ)
    → (yoe ≡ 399) ⊎ (days_before yoe + 365 < days_before (yoe + 1))
    → is_leap_year (yoe + era * 400 + 1) ≡ true
unfolding is_leap_year
leap_end era yoe (inl e) = ground arith
leap_end era yoe (inr e) = ground arith

year_from_one : (year doy : ℕ) → doy ≤ 365 → (1 ≤ year) ⊎ (306 ≤ doy) → 1 ≤ (date_of year doy).year
year_from_one year doy h (inl late) = omega arith
year_from_one year doy h (inr late) = ground arith

day_fits :
    (year doy : ℕ)
    → doy ≤ 365
    → (doy ≡ 365 → is_leap_year (year + 1) ≡ true)
    → let d = date_of year doy in d.day ≤ days_in_month d.year d.month
unfolding days_in_month
day_fits year doy h leap = elim (Bool-cases (doy == 365)) [
  | inl e ↦ let l = leap (ground arith) in ground arith
  | inr e ↦ elim (Bool-cases (is_leap_year (year + 1))) [
    | inl l ↦ ground arith
    | inr l ↦ ground arith
  ]
]

date_of-IsDate :
    (year doy : ℕ)
    → doy ≤ 365
    → (doy ≡ 365 → is_leap_year (year + 1) ≡ true)
    → (1 ≤ year) ⊎ (306 ≤ doy)
    → IsDate (date_of year doy)
date_of-IsDate year doy h leap late = record {
  year_in = year_from_one year doy h late;
  month_in = (ground arith, ground arith);
  day_in = (omega arith, day_fits year doy h leap);
}

leap_of :
    (era doe : ℕ)
    → doe < 146097
    → doe - days_before (year_of_era doe) ≡ 365
    → is_leap_year (civil_year era doe + 1) ≡ true
leap_of era doe h e = leap_end era (year_of_era doe) (
    choose (days_before (year_of_era doe)) (days_before (year_of_era doe + 1)) (year_end_le doe h)
      e)
  where
    choose :
        (a b : ℕ)
        → (year_of_era doe ≡ 399) ⊎ (doe < b)
        → doe - a ≡ 365
        → (year_of_era doe ≡ 399) ⊎ (a + 365 < b)
    choose a b (inl k) f = inl k
    choose a b (inr k) f = inr (omega arith)

first_year :
    (n : ℕ) → 306 ≤ n → year_of_era n ≡ 0 → n < 146097 → 306 ≤ n - days_before (year_of_era n)
first_year n h e k = rw e (omega arith)

era_of-IsDate :
    (era doe : ℕ)
    → doe < 146097
    → 306 ≤ era * 146097 + doe
    → IsDate (date_of (civil_year era doe) (doe - days_before (year_of_era doe)))
era_of-IsDate era doe h k =
    date_of-IsDate (civil_year era doe) (doe - days_before (year_of_era doe))
      (omega (arith, days_before-le doe h, day_of_year-le doe h)) (leap_of era doe h) late
  where
    later :
        (y : ℕ)
        → (y ≡ 0 → 306 ≤ doe → 306 ≤ doe - days_before y)
        → (1 ≤ y + era * 400) ⊎ (306 ≤ doe - days_before y)
    later y f = elim (Bool-cases (y + era * 400 == 0)) [
      | inl e ↦ inr (f (ground arith) (ground arith))
      | inr e ↦ inl (ground arith)
    ]

    late : (1 ≤ civil_year era doe) ⊎ (306 ≤ doe - days_before (year_of_era doe))
    late = later (year_of_era doe) (λ e m. first_year doe m e h)

-- The date of a day is a date of the calendar, from the first day of the year 1 on.
pub civil_of_number-IsDate : (n : ℕ) → 306 ≤ n → IsDate (civil_of_number n)
unfolding civil_of_number
civil_of_number-IsDate n h =
    era_of-IsDate (n / 146097) (n - n / 146097 * 146097) (omega arith) (omega (arith, h))

unfoldable pub civil_from_days : ℤ → Date
civil_from_days days = civil_of_number (pos_part (days +ℤ pos 719468))

back_to_days :
    (days : ℤ) (n : ℕ)
    → negsuc 719161 ≤ℤ days
    → n ≡ pos_part (days +ℤ pos 719468)
    → pos n -ℤ pos 719468 ≡ days
unfolding ◌+ℤ◌ ◌-ℤ◌
back_to_days (pos m) n h e = ground arith
back_to_days (negsuc m) n h e = ground arith

late_enough : (days : ℤ) → negsuc 719161 ≤ℤ days → 306 ≤ pos_part (days +ℤ pos 719468)
unfolding ◌+ℤ◌
late_enough (pos m) h = ground arith
late_enough (negsuc m) h = ground arith

-- From the first day of the year 1 on, the date that a number of days since 1970 gives is a date of the
-- calendar, and the number of days of that date is the number.
pub days_from_civil-civil_from_days :
    (days : ℤ)
    → negsuc 719161 ≤ℤ days
    → let d = civil_from_days days in IsDate d × (days_from_civil d.year d.month d.day ≡ days)
unfolding civil_from_days days_from_civil
days_from_civil-civil_from_days days h = (
  civil_of_number-IsDate (pos_part (days +ℤ pos 719468)) (late_enough days h),
  back_to_days days _ h (day_number-civil_of_number (pos_part (days +ℤ pos 719468))),
)
