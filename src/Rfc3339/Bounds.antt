-- ===== src/Rfc3339/Bounds.antt =====
-- The instants of the years 1 to 9999.
use lib_auto_updater.Base.{ℕ, ◌<◌, ◌≤◌, ◌≡◌, false, arith}
use lib_auto_updater.Base.Int.{ℤ, pos, negsuc, ◌+ℤ◌, ◌-ℤ◌, ◌*ℤ◌, ◌≤ℤ◌, ltb_ℤ}
use lib_auto_updater.Rfc3339.{day_number}
use lib_auto_updater.Rfc3339.Format.{split_days, min_seconds, max_seconds}

pub day_number-year :
    (year month day : ℕ)
    → 10000 ≤ year
    → 1 ≤ month
    → month ≤ 12
    → 1 ≤ day
    → 3652365 ≤ day_number year month day
unfolding day_number
day_number-year year month day h a b c = ground arith

pub split_days-small : (u : ℤ) → (split_days u).1 < 86400
unfolding split_days
split_days-small (pos n) = omega arith
split_days-small (negsuc n) = ground arith

pub split_days-sum : (u : ℤ) → (split_days u).0 *ℤ pos 86400 +ℤ pos ((split_days u).1) -ℤ pos 0 ≡ u
unfolding split_days ◌+ℤ◌ ◌-ℤ◌ ◌*ℤ◌
split_days-sum (pos n) = ground arith
split_days-sum (negsuc n) = ground arith

pub split_days-low : (u : ℤ) → ltb_ℤ u min_seconds ≡ false → negsuc 719161 ≤ℤ (split_days u).0
unfolding split_days ◌-ℤ◌
split_days-low (pos n) h = ground arith
split_days-low (negsuc n) h = ground arith

pub split_days-high : (u : ℤ) → ltb_ℤ max_seconds u ≡ false → (split_days u).0 ≤ℤ pos 2932896
unfolding split_days ◌-ℤ◌
split_days-high (pos n) h = ground arith
split_days-high (negsuc n) h = ground arith
