-- ===== src/Rfc3339/Calendar.antt =====
-- `daysFromCivil` counts the days of the Gregorian calendar.
use lib_auto_updater.Base.{
  ℕ, ◌+◌, ◌-◌, ◌*◌, ◌/◌, ◌≤◌, ◌<◌, false, ◌≡◌, refl, ap, ap₂, inl, inr, arith, ltb, leb,
  if◌then◌else◌, Bool-cases,
}
use lib_auto_updater.Base.Int.{pos, ◌+ℤ◌, ◌-ℤ◌, int_laws}
use lib_auto_updater.Rfc3339.{is_leap_year, days_in_month, day_number, days_from_civil}

pub record Date : Type 0 where
  pub year : ℕ
  pub month : ℕ
  pub day : ℕ

pub record IsDate (d : Date) : Type 0 where
  pub year_in : 1 ≤ d.year
  pub month_in : (1 ≤ d.month) × (d.month ≤ 12)
  pub day_in : (1 ≤ d.day) × (d.day ≤ days_in_month d.year d.month)

-- The day after a date.
abbrev pub next_day : Date → Date
next_day d =
    if ltb d.day (days_in_month d.year d.month)
    then record d { day = d.day + 1 }
    else if ltb d.month 12
    then record d { month = d.month + 1; day = 1 }
    else record { year = d.year + 1; month = 1; day = 1 }

-- The days before year `y` of the count that begins with the first of March of the year 0.
year_start : ℕ → ℕ
year_start y = y * 365 + y / 4 - y / 100 + y / 400

day_number-year :
    (y m d : ℕ)
    → day_number y m d
      ≡ year_start (if leb m 2 then y - 1 else y)
        + ((153 * (if ltb 2 m then m - 3 else m + 9) + 2) / 5 + d - 1)
unfolding day_number year_start
day_number-year y m d = ground arith

leap_day : ℕ → ℕ
leap_day y = if is_leap_year y then 1 else 0

year_start-suc : (y : ℕ) → year_start (y + 1) ≡ year_start y + 365 + leap_day (y + 1)
unfolding year_start is_leap_year leap_day
year_start-suc y = ground arith

month_end :
    (y m : ℕ)
    → 1 ≤ y
    → 1 ≤ m
    → m < 12
    → day_number y m (days_in_month y m) + 1 ≡ day_number y (m + 1) 1
unfolding days_in_month leap_day
month_end y m hy h k = ground (
  arith,
  day_number-year y m (days_in_month y m),
  day_number-year y (m + 1) 1,
  year_start-suc (y - 1),
)

year_end : (y : ℕ) → day_number y 12 31 + 1 ≡ day_number (y + 1) 1 1
year_end y = ground (arith, day_number-year y 12 31, day_number-year (y + 1) 1 1)

day_number-suc : (y m d : ℕ) → 1 ≤ d → day_number y m (d + 1) ≡ day_number y m d + 1
day_number-suc y m d h = ground (arith, day_number-year y m d, day_number-year y m (d + 1))

last_day :
    (d : Date)
    → IsDate d
    → ltb d.day (days_in_month d.year d.month) ≡ false
    → d.month ≡ 12
    → day_number (d.year + 1) 1 1 ≡ day_number d.year d.month d.day + 1
unfolding days_in_month
last_day d h e k =
    let m : d.day ≡ 31 = ground arith in cc (year_end d.year, ap₂ (day_number d.year) k m)

day_number-next_day :
    (d : Date)
    → IsDate d
    → let n = next_day d in day_number n.year n.month n.day ≡ day_number d.year d.month d.day + 1
day_number-next_day d h = elim (Bool-cases (ltb d.day (days_in_month d.year d.month))) [
  | inl inside ↦ rw inside (day_number-suc d.year d.month d.day h.day_in.0)
  | inr last ↦ elim (Bool-cases (ltb d.month 12)) [
    | inl more ↦
        let e : d.day ≡ days_in_month d.year d.month = ground arith in
        rw (last, more)
          (cc (
            ap (day_number d.year d.month) e,
            month_end d.year d.month h.year_in h.month_in.0 (ground arith),
          ))
    | inr over ↦ rw (last, over) (last_day d h last (ground arith))
  ]
]

-- The count is 0 on the first day of 1970, and from any date on it grows by one each day.
pub days_from_civil-next_day :
    (d : Date)
    → IsDate d
    → let n = next_day d in
      (days_from_civil 1970 1 1 ≡ pos 0)
      × (days_from_civil n.year n.month n.day ≡ days_from_civil d.year d.month d.day +ℤ pos 1)
unfolding days_from_civil day_number ◌-ℤ◌
days_from_civil-next_day d h = let e = day_number-next_day d h in (refl, omega (int_laws, e))
