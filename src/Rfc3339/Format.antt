-- ===== src/Rfc3339/Format.antt =====
-- formatApplyCompletionTimestamp of src/ApplyTransactionReceipt.cpp.
use lib_auto_updater.Base.{
  ℕ, ◌+◌, ◌-◌, ◌/◌, ◌%◌, ◌||◌, [], ◌∷◌, ◌++◌, leb, ◌==◌, is_empty, if◌then◌else◌,
}
use lib_auto_updater.Base.Int.{ℤ, pos, negsuc, ◌-ℤ◌, ltb_ℤ}
use lib_auto_updater.Base.Text.{Bytes}
use lib_auto_updater.Error.{Result, ok, ◌>>◌, reject_if, apply_failed}
use lib_auto_updater.Version.Padded.{padded}
use lib_auto_updater.Rfc3339.{UtcInstant}
use lib_auto_updater.Rfc3339.Civil.{civil_from_days}

-- The quotient and the remainder of int64_t, with the remainder brought from 0 on.
unfoldable pub split_days : ℤ → ℤ × ℕ
split_days (pos n) = (pos (n / 86400), n % 86400)
split_days (negsuc n) =
    let days = pos 0 -ℤ pos ((n + 1) / 86400) in
    let rest = (n + 1) % 86400 in if rest == 0 then (days, 0) else (days -ℤ pos 1, 86400 - rest)

-- while (digits.back() == '0') digits.pop_back();
unfoldable pub drop_zeros : Bytes → Bytes
drop_zeros [] = []
drop_zeros (c ∷ cs) =
    let rest = drop_zeros cs in
    if is_empty rest then (if c == b'0' then [] else c ∷ []) else c ∷ rest

unfoldable pub fraction_text : ℕ → Bytes
fraction_text nanoseconds =
    if nanoseconds == 0 then [] else b'.' ∷ drop_zeros (padded 9 nanoseconds)

unfoldable pub timestamp_text : ℕ → ℕ → ℕ → ℕ → ℕ → Bytes
timestamp_text year month day seconds nanoseconds =
    padded 4 year
    ++ b'-' ∷ padded 2 month
    ++ b'-' ∷ padded 2 day
    ++ b'T' ∷ padded 2 (seconds / 3600)
    ++ b':' ∷ padded 2 (seconds % 3600 / 60)
    ++ b':' ∷ padded 2 (seconds % 60)
    ++ fraction_text nanoseconds
    ++ b'Z' ∷ []

-- -62135596800 and 253402300799.
abbrev pub min_seconds : ℤ
min_seconds = negsuc 62135596799

abbrev pub max_seconds : ℤ
max_seconds = pos 253402300799

unfoldable pub format_apply_completion_timestamp : UtcInstant → Result Bytes
format_apply_completion_timestamp instant = do
  reject_if
      (ltb_ℤ instant.unix_seconds min_seconds
        || ltb_ℤ max_seconds instant.unix_seconds
        || leb 1000000000 instant.nanoseconds)
      apply_failed
  let (days, seconds) = split_days instant.unix_seconds
  let date = civil_from_days days
  ok (timestamp_text date.year date.month date.day seconds instant.nanoseconds)
