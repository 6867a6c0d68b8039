-- ===== src/Version/Suffix.antt =====
-- The prerelease and the build metadata of a version, taken from its text and put back.
use lib_auto_updater.Base.{
  ℕ, ◌≤◌, ◌≡◌, ◌≢◌, refl, Bool, true, false, List, [], ◌∷◌, ◌++◌, append-nil, arith, all_of,
  is_empty, ◌||◌, none, some, All, All-append, Option, &&_true,
}
use lib_auto_updater.Base.Text.{Bytes}
use lib_auto_updater.Base.Text.Split.{
  Lacks, cut, Cuts, cut-Cuts, cut-append, cut-none, split, join, join-split,
}
use lib_auto_updater.Error.{ok}
use lib_auto_updater.Version.{
  int_max, is_ascii_digit, is_identifier_char, is_numeric_identifier, valid_dot_identifiers,
  valid_identifier, checked_suffix, take_suffix, marked, decimal_text,
}
use lib_auto_updater.Version.Decimal.{decimal_text-IsCanonical}

abbrev pub IsSuffix : Bool → Bytes → Type 0
IsSuffix reject text = (is_empty text || valid_dot_identifiers text reject) ≡ true

all_of-Lacks : (p : ℕ → Bool) (d : ℕ) (t : Bytes) → p d ≡ false → all_of p t ≡ true → Lacks d t
all_of-Lacks p d [] h k = tt
all_of-Lacks p d (c ∷ t) h k =
    let (pc, rest) = &&_true (p c) (all_of p t) k in (λ e. cc, all_of-Lacks p d t h rest)

numeric-all_of : (t : Bytes) → is_numeric_identifier t ≡ true → all_of is_ascii_digit t ≡ true
unfolding is_numeric_identifier
numeric-all_of t h = ground arith

pub digits-Lacks : (d n : ℕ) → is_ascii_digit d ≡ false → n ≤ int_max → Lacks d (decimal_text n)
digits-Lacks d n h k =
    all_of-Lacks is_ascii_digit d _ h (numeric-all_of _ (decimal_text-IsCanonical n k).numeric)

pub join-Lacks : (d e : ℕ) (ps : List Bytes) → e ≢ d → All (Lacks d) ps → Lacks d (join e ps)
unfolding join
join-Lacks d e [] h k = tt
join-Lacks d e (p ∷ []) h k = k.0
join-Lacks d e (p ∷ q ∷ ps) h k =
    All-append _ p (e ∷ join e (q ∷ ps)) k.0 (h, join-Lacks d e (q ∷ ps) h k.1)

identifiers-Lacks :
    (reject : Bool) (d : ℕ) (ps : List Bytes)
    → is_identifier_char d ≡ false
    → all_of (valid_identifier reject) ps ≡ true
    → All (Lacks d) ps
unfolding valid_identifier
identifiers-Lacks reject d [] h k = tt
identifiers-Lacks reject d (p ∷ ps) h k = (
  all_of-Lacks is_identifier_char d p h (ground arith),
  identifiers-Lacks reject d ps h (ground arith),
)

pub suffix-Lacks :
    (reject : Bool) (d : ℕ) (t : Bytes)
    → is_identifier_char d ≡ false
    → b'.' ≢ d
    → IsSuffix reject t
    → Lacks d t
unfolding valid_dot_identifiers
suffix-Lacks reject d [] h k s = tt
suffix-Lacks reject d (c ∷ cs) h k s =
    rw (join-split b'.' (c ∷ cs)) at
      (join-Lacks d b'.' _ k (identifiers-Lacks reject d (split b'.' (c ∷ cs)) h s))

pub take_suffix-marked :
    (mark : ℕ) (reject : Bool) (front suffix : Bytes)
    → Lacks mark front
    → IsSuffix reject suffix
    → take_suffix mark reject (front ++ marked mark suffix) ≡ ok (front, suffix)
unfolding take_suffix
take_suffix-marked mark reject front [] h s = rw (append-nil, cut-none mark front h)
take_suffix-marked mark reject front (c ∷ cs) h s = rw (cut-append mark front (c ∷ cs) h, s)

on_suffix :
    (mark : ℕ) (reject : Bool) (t front suffix p : Bytes) (c : ℕ) (cs : Bytes)
    → t ≡ p ++ mark ∷ c ∷ cs
    → checked_suffix reject (p, some (c ∷ cs)) ≡ ok (front, suffix)
    → (t ≡ front ++ marked mark suffix) × IsSuffix reject suffix
unfolding checked_suffix
on_suffix mark reject t front suffix p c cs e k =
    let valid : valid_dot_identifiers (c ∷ cs) reject ≡ true = ground arith in
    let f : front ≡ p = ground arith in
    let g : suffix ≡ c ∷ cs = ground arith in rw (f, g) (e, valid)

pub take_suffix-eq-ok :
    (mark : ℕ) (reject : Bool) (t front suffix : Bytes)
    → take_suffix mark reject t ≡ ok (front, suffix)
    → (t ≡ front ++ marked mark suffix) × IsSuffix reject suffix
unfolding take_suffix
take_suffix-eq-ok mark reject t front suffix h = on_cut (cut mark t) (cut-Cuts mark t) h
  where
    on_cut :
        (r : Bytes × Option Bytes)
        → Cuts mark t r
        → checked_suffix reject r ≡ ok (front, suffix)
        → (t ≡ front ++ marked mark suffix) × IsSuffix reject suffix
    on_cut (p, none) e k =
        let f : front ≡ p = cc in let g : suffix ≡ [] = cc in rw (f, g) (rw append-nil e, refl)
    on_cut (p, some []) e k = unfold valid_dot_identifiers in cc
    on_cut (p, some (c ∷ cs)) e k = on_suffix mark reject t front suffix p c cs e k
