-- ===== src/NetworkLimits/Trim.antt =====
-- The value of a Content-Length header, with the blanks round it.
use lib_auto_updater.Base.{
  ℕ, ◌≤◌, ◌≡◌, ◌≢◌, ◌↔◌, ◌⊎◌, refl, ap, ◌∙◌, true, false, ◌&&◌, [], ◌∷◌, ◌++◌, arith, All,
  Bool-cases, inl, inr, all_of, is_empty, if◌then◌else◌,
}
use lib_auto_updater.Base.Text.{Bytes}
use lib_auto_updater.Error.{ok, ErrorCode}
use lib_auto_updater.Json.{u64_max}
use lib_auto_updater.Version.{is_ascii_digit, digits_value}
use lib_auto_updater.NetworkLimits.{
  drop_blanks, drop_last_blanks, is_blank, parse_content_length, trim_optional_whitespace,
}
use lib_auto_updater.NetworkLimits.Budget.{parse_content_length_iff}

-- Spaces and tabs.
abbrev pub IsBlanks : Bytes → Type 0
IsBlanks = All (λ c. (c ≡ b' ') ⊎ (c ≡ 9))

-- Digits with blanks round them, and the number of at most 64 bits that they write.
pub record IsContentLength (raw : Bytes) (n : ℕ) : Type 0 where
  pub before : Bytes
  pub digits : Bytes
  pub after : Bytes
  pub whole : raw ≡ before ++ (digits ++ after)
  pub before_blank : IsBlanks before
  pub after_blank : IsBlanks after
  pub filled : digits ≢ []
  pub are_digits : all_of is_ascii_digit digits ≡ true
  pub value : digits_value 0 digits ≡ n
  pub fits : n ≤ u64_max

drop_blanks-split : (s : Bytes) → (before : Bytes) × IsBlanks before × (s ≡ before ++ drop_blanks s)
unfolding drop_blanks
drop_blanks-split [] = ([], tt, refl)
drop_blanks-split (c ∷ cs) = elim (Bool-cases (is_blank c)) [
  | inl e ↦
      let (before, blank, same) = drop_blanks-split cs in
      (c ∷ before, (blank_of c e, blank), rw e (ap (◌∷◌ c) same))
  | inr e ↦ ([], tt, rw e refl)
]
  where
    blank_of : (x : ℕ) → is_blank x ≡ true → (x ≡ b' ') ⊎ (x ≡ 9)
    blank_of x h = ground arith

drop_last_blanks-split :
    (s : Bytes) → (after : Bytes) × IsBlanks after × (s ≡ drop_last_blanks s ++ after)
unfolding drop_last_blanks
drop_last_blanks-split [] = ([], tt, refl)
drop_last_blanks-split (c ∷ cs) = step (drop_last_blanks cs) (drop_last_blanks-split cs)
  where
    step :
        (rest : Bytes)
        → (after : Bytes) × IsBlanks after × (cs ≡ rest ++ after)
        → (after : Bytes) × IsBlanks after
          × (c ∷ cs ≡ (if is_blank c && is_empty rest then [] else c ∷ rest) ++ after)
    step [] (after, blank, same) = elim (Bool-cases (is_blank c)) [
      | inl e ↦ (c ∷ after, (ground arith, blank), rw e (ap (◌∷◌ c) same))
      | inr e ↦ (after, blank, rw e (ap (◌∷◌ c) same))
    ]
    step (x ∷ xs) (after, blank, same) = (after, blank, ground (arith, same))

drop_blanks-append :
    (before s : Bytes) → IsBlanks before → drop_blanks (before ++ s) ≡ drop_blanks s
unfolding drop_blanks
drop_blanks-append [] s h = refl
drop_blanks-append (c ∷ cs) s h =
    let blank : is_blank c ≡ true = ground (arith, h.0) in rw blank (drop_blanks-append cs s h.1)

drop_last_blanks-blanks : (s : Bytes) → IsBlanks s → drop_last_blanks s ≡ []
unfolding drop_last_blanks
drop_last_blanks-blanks [] h = refl
drop_last_blanks-blanks (c ∷ cs) h =
    let blank : is_blank c ≡ true = ground (arith, h.0) in
    rw (drop_last_blanks-blanks cs h.1, blank)

not_blank : (c : ℕ) → is_ascii_digit c ≡ true → is_blank c ≡ false
unfolding is_ascii_digit
not_blank c h = ground arith

drop_last_blanks-append :
    (s after : Bytes)
    → all_of is_ascii_digit s ≡ true
    → IsBlanks after
    → drop_last_blanks (s ++ after) ≡ s
unfolding drop_last_blanks
drop_last_blanks-append [] after d h = drop_last_blanks-blanks after h
drop_last_blanks-append (c ∷ cs) after d h =
    let digit : is_ascii_digit c ≡ true = ground arith in
    rw (drop_last_blanks-append cs after (ground arith) h, not_blank c digit)

drop_blanks-digits :
    (s after : Bytes)
    → s ≢ []
    → all_of is_ascii_digit s ≡ true
    → drop_blanks (s ++ after) ≡ s ++ after
unfolding drop_blanks
drop_blanks-digits [] after f d = absurd (f refl)
drop_blanks-digits (c ∷ cs) after f d =
    let digit : is_ascii_digit c ≡ true = ground arith in rw (not_blank c digit)

trim-digits :
    (before digits after : Bytes)
    → IsBlanks before
    → IsBlanks after
    → digits ≢ []
    → all_of is_ascii_digit digits ≡ true
    → trim_optional_whitespace (before ++ (digits ++ after)) ≡ digits
unfolding trim_optional_whitespace
trim-digits before digits after b a f d =
    rw
      (
        trim_optional_whitespace,
        drop_blanks-append before (digits ++ after) b,
        drop_blanks-digits digits after f d,
      )
      (drop_last_blanks-append digits after d a)

filled_iff : (s : Bytes) → (is_empty s ≡ false) ↔ (s ≢ [])
filled_iff [] = (λ h e. cc, λ h. absurd (h refl))
filled_iff (c ∷ cs) = (λ h e. cc, λ h. refl)

-- A Content-Length is read as a number exactly if it is digits for it, with blanks round them.
pub parse_content_length-IsContentLength :
    (raw : Bytes) (code : ErrorCode) (n : ℕ)
    → (parse_content_length raw code ≡ ok n) ↔ IsContentLength raw n
unfolding trim_optional_whitespace
parse_content_length-IsContentLength raw code n = (
  λ h.
      let (filled, digits, value, fits) = (parse_content_length_iff raw code n).0 h in
      let (before, b, e) = drop_blanks-split raw in
      let (after, a, k) = drop_last_blanks-split (drop_blanks raw) in
      record {
        before = before;
        digits = trim_optional_whitespace raw;
        after = after;
        whole = e ∙ ap (λ t. before ++ t) k;
        before_blank = b;
        after_blank = a;
        filled = (filled_iff (trim_optional_whitespace raw)).0 filled;
        are_digits = digits;
        value = value;
        fits = fits;
      },
  λ h.
      let same : trim_optional_whitespace raw ≡ h.digits =
        ap trim_optional_whitespace h.whole
        ∙ trim-digits h.before h.digits h.after h.before_blank h.after_blank h.filled
            h.are_digits in
      (parse_content_length_iff raw code n).1
        (rw same ((filled_iff h.digits).1 h.filled, h.are_digits, h.value, h.fits)),
)
