-- ===== src/ManagedPath/Segments.antt =====
-- What `validateManagedPath` accepts.
use lib_auto_updater.Base.{
  ℕ, ◌≤◌, ◌≡◌, ◌≢◌, ◌↔◌, refl, false, ◌||◌, List, [], ◌∷◌, ◌++◌, some, arith, All, All-map,
  is_empty, any_of, last?, any_of-false, false-any_of, Bool-cases, Option-cases, inl, inr, ◌==◌,
  ltb,
}
use lib_auto_updater.Base.Text.{Bytes, codes, bytes_eq, bytes_eq_iff, starts_with}
use lib_auto_updater.Base.Text.Split.{Lacks, split, split-cons}
use lib_auto_updater.Error.{ok}
use lib_auto_updater.ManagedPath.Device.{IsDevice, is_windows_device_name_iff}
use lib_auto_updater.ManagedPath.{
  contains, has_drive_prefix, is_unsafe_portable_segment, ends_with, validate_managed_path,
}

-- A name that every supported file system takes for a plain entry of its directory.
pub record IsSafeSegment (s : Bytes) : Type 0 where
  pub filled : s ≢ []
  pub no_dot_end : last? s ≢ some b'.'
  pub no_space_end : last? s ≢ some b' '
  pub no_colon : Lacks b':' s
  pub printable : All (λ c. (0x20 ≤ c) × (c ≢ 0x7f)) s
  pub no_device : ¬ IsDevice s

pub contains-Lacks : (d : ℕ) (s : Bytes) → (contains d s ≡ false) ↔ Lacks d s
contains-Lacks d s = (
  λ h. All-map (λ c e. ground arith) s (any_of-false (λ c. c == d) s h),
  λ h. false-any_of (λ c. c == d) s (All-map (λ c e. ground arith) s h),
)

controls-printable :
    (s : Bytes)
    → (any_of (λ c. ltb c 0x20 || c == 0x7f) s ≡ false) ↔ All (λ c. (0x20 ≤ c) × (c ≢ 0x7f)) s
controls-printable s = (
  λ h. All-map (λ c e. ground arith) s (any_of-false _ s h),
  λ h. false-any_of _ s (All-map (λ c e. ground arith) s h),
)

not_end : (d : ℕ) (s : Bytes) → last? s ≢ some d → ends_with d s ≡ false
not_end d s h = ground (arith, Option-cases (last? s))

pub last?-append : (s : Bytes) (c : ℕ) → last? (s ++ c ∷ []) ≡ some c
last?-append [] c = refl
last?-append (x ∷ []) c = refl
last?-append (x ∷ y ∷ s) c = last?-append (y ∷ s) c

pub not_dots : (s front : Bytes) → last? s ≢ some b'.' → bytes_eq s (front ++ b'.' ∷ []) ≡ false
not_dots s front h = elim (Bool-cases (bytes_eq s (front ++ b'.' ∷ []))) [
  | inl e ↦ absurd (h (rw ((bytes_eq_iff s _).0 e) (last?-append front b'.')))
  | inr e ↦ e
]

pub safe-IsSafeSegment : (s : Bytes) → (is_unsafe_portable_segment s ≡ false) ↔ IsSafeSegment s
unfolding is_unsafe_portable_segment
safe-IsSafeSegment [] = (λ h. cc, λ h. absurd (h.filled refl))
safe-IsSafeSegment (c ∷ cs) = (
  λ h. record {
    filled = λ e. cc;
    no_dot_end = λ e. ground arith;
    no_space_end = λ e. ground arith;
    no_colon = (contains-Lacks b':' (c ∷ cs)).0 (ground arith);
    printable = (controls-printable (c ∷ cs)).0 (ground arith);
    no_device = (is_windows_device_name_iff (c ∷ cs)).0 (ground arith);
  },
  λ h. ground (
    arith,
    not_end b'.' (c ∷ cs) h.no_dot_end,
    not_end b' ' (c ∷ cs) h.no_space_end,
    not_dots (c ∷ cs) [] h.no_dot_end,
    not_dots (c ∷ cs) (b'.' ∷ []) h.no_dot_end,
    (contains-Lacks b':' (c ∷ cs)).1 h.no_colon,
    (controls-printable (c ∷ cs)).1 h.printable,
    (is_windows_device_name_iff (c ∷ cs)).1 h.no_device,
  ),
)

-- A relative path with forward slashes whose segments are all plain names.
pub record IsManaged (path : Bytes) : Type 0 where
  pub forward : Lacks b'\\' path
  pub segments : All IsSafeSegment (split b'/' path)

segments-IsSafeSegment :
    (ss : List Bytes) → (any_of is_unsafe_portable_segment ss ≡ false) ↔ All IsSafeSegment ss
segments-IsSafeSegment ss = (
  λ h. All-map (λ s e. (safe-IsSafeSegment s).0 e) ss (any_of-false _ ss h),
  λ h. false-any_of _ ss (All-map (λ s e. (safe-IsSafeSegment s).1 e) ss h),
)

abbrev IsRelative : Bytes → Type 0
IsRelative path =
    (is_empty path ≡ false)
    × (starts_with path (codes "/") ≡ false)
    × (starts_with path (codes "\\") ≡ false)
    × (has_drive_prefix path ≡ false)

no_drive :
    (a : ℕ) (rest : Bytes)
    → (a == b'/') ≡ false
    → All IsSafeSegment (split b'/' (a ∷ rest))
    → has_drive_prefix (a ∷ rest) ≡ false
unfolding split has_drive_prefix
no_drive a [] e h = refl
no_drive a (b ∷ rest) e h = elim (Bool-cases (b == b':')) [
  | inl k ↦
      let (p, ps, f) = split-cons b'/' rest in
      let slash : (b == b'/') ≡ false = ground arith in
      let s : All IsSafeSegment ((a ∷ b ∷ p) ∷ ps) = rw (e, slash, f) at h in
      absurd (s.0.no_colon.1.0 (ground arith))
  | inr k ↦ ground arith
]

-- The first two checks of the source follow from the check of the segments.
IsManaged-IsRelative : (path : Bytes) → IsManaged path → IsRelative path
unfolding split has_drive_prefix starts_with
IsManaged-IsRelative [] h = absurd (h.segments.0.filled refl)
IsManaged-IsRelative (a ∷ rest) h = elim (Bool-cases (a == b'/')) [
  | inl e ↦
      let s : All IsSafeSegment ([] ∷ split b'/' rest) = rw e at h.segments in
      absurd (s.0.filled refl)
  | inr e ↦ ground (arith, h.forward.0, no_drive a rest e h.segments)
]

-- The validator accepts exactly the paths with no backslash whose segments between the slashes are
-- plain names: not empty, with neither a dot nor a space at the end, with no colon and no control
-- character, and no device name of Windows, in any case and with any extension.
pub validate_managed_path_iff :
    (path : Bytes) → (validate_managed_path path ≡ ok tt) ↔ IsManaged path
unfolding validate_managed_path
validate_managed_path_iff path = (
  λ h. record {
    forward = (contains-Lacks b'\\' path).0 (ground arith);
    segments = (segments-IsSafeSegment (split b'/' path)).0 (ground arith);
  },
  λ h. ground (
    arith,
    IsManaged-IsRelative path h,
    (contains-Lacks b'\\' path).1 h.forward,
    (segments-IsSafeSegment (split b'/' path)).1 h.segments,
  ),
)
