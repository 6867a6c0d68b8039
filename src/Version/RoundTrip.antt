-- ===== src/Version/RoundTrip.antt =====
-- `Version::parse` and `Version::toString` undo one another.
use lib_auto_updater.Base.{
  ℕ, ◌≤◌, ◌≡◌, ◌≢◌, refl, sym, ◌∙◌, ap, true, false, List, [], ◌∷◌, ◌++◌, append_assoc, arith,
  is_empty, All-append,
}
use lib_auto_updater.Base.Text.{Bytes}
use lib_auto_updater.Base.Text.Split.{Lacks, split, join, join-split, split-join}
use lib_auto_updater.Error.{ok, >>=-eq-ok, reject_if, version_parse_failed}
use lib_auto_updater.Version.{
  Version, int_max, is_ascii_digit, is_identifier_char, is_numeric_identifier, take_suffix, marked,
  parse_core, parse_number, parse, to_string, decimal_text,
}
use lib_auto_updater.Version.Decimal.{
  decimal_text-IsCanonical, parse_number-eq-ok, parse_number-decimal_text,
  decimal_text-parse_number,
}
use lib_auto_updater.Version.Suffix.{
  IsSuffix, digits-Lacks, join-Lacks, suffix-Lacks, take_suffix-marked, take_suffix-eq-ok,
}

-- What the parser accepts: numbers that fit in an int, and no suffix or a valid one.
pub record IsValid (v : Version) : Type 0 where
  pub major_fits : v.major ≤ int_max
  pub minor_fits : v.minor ≤ int_max
  pub patch_fits : v.patch ≤ int_max
  pub prerelease_valid : IsSuffix true v.prerelease
  pub build_valid : IsSuffix false v.build_metadata

core_text : ℕ → ℕ → ℕ → Bytes
core_text a b c = join b'.' (decimal_text a ∷ decimal_text b ∷ decimal_text c ∷ [])

core_text-Lacks :
    (d a b c : ℕ)
    → is_ascii_digit d ≡ false
    → b'.' ≢ d
    → a ≤ int_max
    → b ≤ int_max
    → c ≤ int_max
    → Lacks d (core_text a b c)
unfolding core_text
core_text-Lacks d a b c h k p q r =
    join-Lacks d b'.' _ k (digits-Lacks d a h p, (digits-Lacks d b h q, (digits-Lacks d c h r, tt)))

parse_core-decimal_text :
    (v : Version)
    → IsValid v
    → parse_core (split b'.' (core_text v.major v.minor v.patch)) v.prerelease v.build_metadata
      ≡ ok v
unfolding core_text parse_core
parse_core-decimal_text v h = rw (
  split-join b'.' (decimal_text v.major) (decimal_text v.minor ∷ decimal_text v.patch ∷ [])
      (dots v.major h.major_fits, (dots v.minor h.minor_fits, (dots v.patch h.patch_fits, tt))),
  parse_number-decimal_text v.major h.major_fits,
  parse_number-decimal_text v.minor h.minor_fits,
  parse_number-decimal_text v.patch h.patch_fits,
)
  where
    dots : (n : ℕ) → n ≤ int_max → Lacks b'.' (decimal_text n)
    dots n k = digits-Lacks b'.' n (unfold is_ascii_digit in refl) k

to_string-core :
    (v : Version)
    → to_string v
      ≡ (core_text v.major v.minor v.patch ++ marked b'-' v.prerelease)
        ++ marked b'+' v.build_metadata
unfolding to_string core_text join
to_string-core v = simp append_assoc

is_empty-append : (xs ys : Bytes) → is_empty xs ≡ false → is_empty (xs ++ ys) ≡ false
is_empty-append [] ys h = cc
is_empty-append (x ∷ xs) ys h = refl

to_string-filled : (v : Version) → IsValid v → is_empty (to_string v) ≡ false
unfolding to_string
to_string-filled v h = is_empty-append _ _ (
    is_empty-append _ _ (
      is_empty-append _ _ (
        is_empty-append (decimal_text v.major) _
          (filled _ (decimal_text-IsCanonical _ h.major_fits).numeric))))
  where
    filled : (t : Bytes) → is_numeric_identifier t ≡ true → is_empty t ≡ false
    filled t k = unfold is_numeric_identifier in ground arith

front-Lacks :
    (v : Version)
    → IsValid v
    → Lacks b'+' (core_text v.major v.minor v.patch ++ marked b'-' v.prerelease)
front-Lacks v h =
    All-append _ (core_text v.major v.minor v.patch) _
      (core_text-Lacks b'+' _ _ _ (unfold is_ascii_digit in refl) (λ e. omega arith) h.major_fits
        h.minor_fits h.patch_fits)
      (on_prerelease v.prerelease (
        suffix-Lacks true b'+' v.prerelease (unfold is_identifier_char in refl) (λ e. omega arith)
          h.prerelease_valid))
  where
    on_prerelease : (t : Bytes) → Lacks b'+' t → Lacks b'+' (marked b'-' t)
    on_prerelease [] k = tt
    on_prerelease (c ∷ cs) k = (λ e. omega arith, k)

-- Every valid version is read back from its text.
pub parse-to_string : (v : Version) → IsValid v → parse (to_string v) ≡ ok v
unfolding parse
parse-to_string v h =
    rw
      (
        to_string-filled v h,
        to_string-core v,
        take_suffix-marked b'+' false
            (core_text v.major v.minor v.patch ++ marked b'-' v.prerelease) v.build_metadata
            (front-Lacks v h) h.build_valid,
        take_suffix-marked b'-' true (core_text v.major v.minor v.patch) v.prerelease
            (core_text-Lacks b'-' _ _ _ (unfold is_ascii_digit in refl) (λ e. omega arith)
              h.major_fits h.minor_fits h.patch_fits)
            h.prerelease_valid,
      )
      (parse_core-decimal_text v h)

record Core (parts : List Bytes) (prerelease build : Bytes) (v : Version) : Type 0 where
  texts : parts ≡ decimal_text v.major ∷ decimal_text v.minor ∷ decimal_text v.patch ∷ []
  major_fits : v.major ≤ int_max
  minor_fits : v.minor ≤ int_max
  patch_fits : v.patch ≤ int_max
  same_prerelease : v.prerelease ≡ prerelease
  same_build : v.build_metadata ≡ build

parse_core-eq-ok :
    (parts : List Bytes) (prerelease build : Bytes) (v : Version)
    → parse_core parts prerelease build ≡ ok v
    → Core parts prerelease build v
unfolding parse_core
parse_core-eq-ok (a ∷ b ∷ c ∷ []) prerelease build v h =
    let (x, ex, hx) = >>=-eq-ok (parse_number a) _ h in
    let (y, ey, hy) = >>=-eq-ok (parse_number b) _ hx in
    let (z, ez, hz) = >>=-eq-ok (parse_number c) _ hy in
    let (_, _, fx) = parse_number-eq-ok a x ex in
    let (_, _, fy) = parse_number-eq-ok b y ey in
    let (_, _, fz) = parse_number-eq-ok c z ez in
    let dx = decimal_text-parse_number a x ex in
    let dy = decimal_text-parse_number b y ey in
    let dz = decimal_text-parse_number c z ez in
    record {
      texts = ground arith;
      major_fits = ground arith;
      minor_fits = ground arith;
      patch_fits = ground arith;
      same_prerelease = ground arith;
      same_build = ground arith;
    }
parse_core-eq-ok _ prerelease build v h = cc

Core-text :
    (front prerelease build : Bytes) (v : Version)
    → Core (split b'.' front) prerelease build v
    → core_text v.major v.minor v.patch ≡ front
unfolding core_text
Core-text front prerelease build v c = sym (ap (join b'.') c.texts) ∙ join-split b'.' front

-- A text that parses is the text of the version, which is valid: nothing is dropped or normalised.
pub to_string-parse : (t : Bytes) (v : Version) → parse t ≡ ok v → (to_string v ≡ t) × IsValid v
unfolding parse
to_string-parse t v h =
    let (_, _, h1) = >>=-eq-ok (reject_if (is_empty t) version_parse_failed) _ h in
    let (b, eb, h2) = >>=-eq-ok (take_suffix b'+' false t) _ h1 in
    let (p, ep, h3) = >>=-eq-ok (take_suffix b'-' true b.0) _ h2 in
    let (tb, vb) = take_suffix-eq-ok b'+' false t b.0 b.1 eb in
    let (tp, vp) = take_suffix-eq-ok b'-' true b.0 p.0 p.1 ep in
    let c = parse_core-eq-ok (split b'.' p.0) p.1 b.1 v h3 in
    let core-eq = Core-text p.0 p.1 b.1 v c in
    (
      to_string-core v ∙ cc (core-eq, c.same_prerelease, c.same_build, tb, tp),
      record {
        major_fits = c.major_fits;
        minor_fits = c.minor_fits;
        patch_fits = c.patch_fits;
        prerelease_valid = rw c.same_prerelease vp;
        build_valid = rw c.same_build vb;
      },
    )
