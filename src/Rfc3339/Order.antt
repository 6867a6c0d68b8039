-- ===== src/Rfc3339/Order.antt =====
-- The order of instants: by seconds, and then by nanoseconds.
use lib_auto_updater.Base.{◌<◌, ◌≡◌, ◌≢◌, ◌↔◌, ◌⊎◌, inl, inr, true, Bool-cases, arith}
use lib_auto_updater.Base.Int.{◌≤ℤ◌, ltb_ℤ, eq_of_parts}
use lib_auto_updater.Rfc3339.{UtcInstant, instant_lt}

abbrev pub IsBefore : UtcInstant → UtcInstant → Type 0
IsBefore l r =
    ((l.unix_seconds ≤ℤ r.unix_seconds) × (l.unix_seconds ≢ r.unix_seconds))
    ⊎ ((l.unix_seconds ≡ r.unix_seconds) × (l.nanoseconds < r.nanoseconds))

-- operator< compares instants as points in time.
pub instant_lt-IsBefore : (l r : UtcInstant) → (instant_lt l r ≡ true) ↔ IsBefore l r
unfolding instant_lt
instant_lt-IsBefore l r = (λ h. up h, λ h. down h)
  where
    up : instant_lt l r ≡ true → IsBefore l r
    up h = elim (Bool-cases (ltb_ℤ l.unix_seconds r.unix_seconds)) [
      | inl e ↦ inl (ground arith, λ same. ground (arith, same))
      | inr e ↦ inr (eq_of_parts l.unix_seconds r.unix_seconds (ground arith), ground arith)
    ]

    down : IsBefore l r → instant_lt l r ≡ true
    down (inl (le, other)) = elim (Bool-cases (ltb_ℤ l.unix_seconds r.unix_seconds)) [
      | inl e ↦ ground arith
      | inr e ↦ absurd (other (eq_of_parts l.unix_seconds r.unix_seconds (ground arith)))
    ]
    down (inr (same, less)) = ground arith
