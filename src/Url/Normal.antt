-- ===== src/Url/Normal.antt =====
-- Percent encoding has a normal form, and normalizing reaches it.
use lib_auto_updater.Base.{
  ◌≢◌, ℕ, ◌+◌, ◌*◌, ◌<◌, ◌≡◌, refl, subst, sym, true, false, not, some, [], ◌∷◌, arith, ◌==◌,
  Bool-cases, Option-cases, inl, inr,
}
use lib_auto_updater.Base.Text.{Bytes}
use lib_auto_updater.Base.Text.Split.{Lacks}
use lib_auto_updater.Error.{
  Result, ok, ok_inj, >>=-eq-ok, reject_if, reject_if-eq-ok, security_policy_violation,
}
use lib_auto_updater.Url.Chars.{
  UriComponent, path_segment, query, hex_value, upper_hex, is_unreserved, is_sub_delimiter,
  is_allowed_raw_character, is_forbidden, is_refused_escape, raw_character, decoded_escape, escape,
  normalize_percent_encoded,
}

-- A text that normalizing leaves as it is.
abbrev pub IsEncoded : UriComponent → Bytes → Type 0
IsEncoded component t = normalize_percent_encoded component t ≡ ok t

pub raw_lem :
    (component : UriComponent) (c : ℕ) (t : Bytes)
    → (c == b'%') ≡ false
    → normalize_percent_encoded component (c ∷ t)
      ≡ raw_character component c (normalize_percent_encoded component t)
unfolding normalize_percent_encoded
raw_lem component c [] h = rw (normalize_percent_encoded, h)
raw_lem component c (d ∷ []) h = rw (normalize_percent_encoded, h)
raw_lem component c (d ∷ e ∷ t) h = rw (normalize_percent_encoded, h)

pub escape_lem :
    (component : UriComponent) (h l : ℕ) (t : Bytes)
    → normalize_percent_encoded component (b'%' ∷ h ∷ l ∷ t)
      ≡ escape component h l (normalize_percent_encoded component t)
unfolding normalize_percent_encoded
escape_lem component h l t = refl

record Raw (component : UriComponent) (c : ℕ) : Type 0 where
  plain : is_forbidden c ≡ false
  allowed : is_allowed_raw_character c component ≡ true

raw_character-eq-ok :
    (component : UriComponent) (c : ℕ) (rest : Result Bytes) (u : Bytes)
    → raw_character component c rest ≡ ok u
    → Raw component c × ((o : Bytes) × (rest ≡ ok o) × (u ≡ c ∷ o))
unfolding raw_character
raw_character-eq-ok component c rest u h =
    let (x, e, h1) = >>=-eq-ok (reject_if (is_forbidden c) security_policy_violation) _ h in
    let (y, e1, h2) =
      >>=-eq-ok (reject_if (not (is_allowed_raw_character c component)) security_policy_violation) _
        h1 in
    let (o, e2, h3) = >>=-eq-ok rest _ h2 in
    let a = reject_if-eq-ok (is_forbidden c) security_policy_violation e in
    let b =
      reject_if-eq-ok (not (is_allowed_raw_character c component)) security_policy_violation e1 in
    (record { plain = a; allowed = ground arith }, (o, e2, sym (ok_inj h3)))

pub raw_character-ok :
    (component : UriComponent) (c : ℕ) (o : Bytes)
    → is_forbidden c ≡ false
    → is_allowed_raw_character c component ≡ true
    → raw_character component c (ok o) ≡ ok (c ∷ o)
unfolding raw_character
raw_character-ok component c o h k = rw (h, k)

allowed-ne-percent :
    (component : UriComponent) (c : ℕ)
    → is_allowed_raw_character c component ≡ true
    → (c == b'%') ≡ false
unfolding is_allowed_raw_character is_unreserved is_sub_delimiter
allowed-ne-percent path_segment c h = ground arith
allowed-ne-percent query c h = ground arith

-- An unreserved character stands for itself everywhere.
pub unreserved_plain : (c : ℕ) → is_unreserved c ≡ true → is_forbidden c ≡ false
unfolding is_unreserved is_forbidden
unreserved_plain c h = ground arith

pub unreserved_allowed :
    (component : UriComponent) (c : ℕ)
    → is_unreserved c ≡ true
    → is_allowed_raw_character c component ≡ true
unfolding is_allowed_raw_character
unreserved_allowed path_segment c h = ground arith
unreserved_allowed query c h = ground arith

pub hex_value-upper_hex : (n : ℕ) → n < 16 → hex_value (upper_hex n) ≡ some n
unfolding hex_value upper_hex
hex_value-upper_hex n h = ground arith

hex_value-lt : (c n : ℕ) → hex_value c ≡ some n → n < 16
unfolding hex_value
hex_value-lt c n h = ground arith

pub raw-IsEncoded :
    (component : UriComponent) (c : ℕ) (o : Bytes)
    → is_forbidden c ≡ false
    → is_allowed_raw_character c component ≡ true
    → IsEncoded component o
    → IsEncoded component (c ∷ o)
raw-IsEncoded component c o plain allowed h =
    rw (raw_lem component c o (allowed-ne-percent component c allowed), h)
      (raw_character-ok component c o plain allowed)

pub percent_step :
    (component : UriComponent) (high low : ℕ) (o : Bytes)
    → high < 16
    → low < 16
    → is_refused_escape component (high * 16 + low) ≡ false
    → is_unreserved (high * 16 + low) ≡ false
    → IsEncoded component o
    → IsEncoded component (b'%' ∷ upper_hex high ∷ upper_hex low ∷ o)
unfolding escape decoded_escape
percent_step component high low o h l fine reserved k = rw (
  escape_lem component (upper_hex high) (upper_hex low) o,
  escape,
  hex_value-upper_hex high h,
  hex_value-upper_hex low l,
  fine,
  k,
  reserved,
)

decoded_escape-IsEncoded :
    (component : UriComponent) (high low : ℕ) (rest : Result Bytes) (u : Bytes)
    → high < 16
    → low < 16
    → decoded_escape component high low rest ≡ ok u
    → ((o : Bytes) → rest ≡ ok o → IsEncoded component o)
    → IsEncoded component u
unfolding decoded_escape
decoded_escape-IsEncoded component high low rest u h l e k =
    let (x, e1, h1) =
      >>=-eq-ok
        (reject_if (is_refused_escape component (high * 16 + low)) security_policy_violation) _ e in
    let (o, e2, h2) = >>=-eq-ok rest _ h1 in
    let fine =
      reject_if-eq-ok (is_refused_escape component (high * 16 + low)) security_policy_violation
        e1 in
    elim (Bool-cases (is_unreserved (high * 16 + low))) [
      | inl plain ↦ subst (IsEncoded component) (ok_inj (rw plain at h2)) (
          raw-IsEncoded component (high * 16 + low) o (unreserved_plain (high * 16 + low) plain)
            (unreserved_allowed component (high * 16 + low) plain) (k o e2))
      | inr reserved ↦
          subst (IsEncoded component) (ok_inj (rw reserved at h2))
            (percent_step component high low o h l fine reserved (k o e2))
    ]

escape-IsEncoded :
    (component : UriComponent) (c d : ℕ) (rest : Result Bytes) (u : Bytes)
    → escape component c d rest ≡ ok u
    → ((o : Bytes) → rest ≡ ok o → IsEncoded component o)
    → IsEncoded component u
unfolding escape
escape-IsEncoded component c d rest u h k = elim (Option-cases (hex_value c)) [
  | inl none_high ↦ absurd (never (rw (escape, none_high) at h))
  | inr (high, e) ↦ elim (Option-cases (hex_value d)) [
    | inl none_low ↦ absurd (never (rw (escape, e, none_low) at h))
    | inr (low, e') ↦
        decoded_escape-IsEncoded component high low rest u (hex_value-lt c high e)
          (hex_value-lt d low e') (rw (escape, e, e') at h) k
  ]
]
  where
    never : Result.fail security_policy_violation ≡ ok u → ⊥
    never e = cc

raw_step :
    (component : UriComponent) (c : ℕ) (t u : Bytes)
    → (c == b'%') ≡ false
    → ((o : Bytes) → normalize_percent_encoded component t ≡ ok o → IsEncoded component o)
    → normalize_percent_encoded component (c ∷ t) ≡ ok u
    → IsEncoded component u
raw_step component c t u e k h =
    let (r, (o, e1, same)) =
      raw_character-eq-ok component c _ u (rw (raw_lem component c t e) at h) in
    rw same (raw-IsEncoded component c o r.plain r.allowed (k o e1))

-- What normalizing returns is in normal form: normalizing it again changes nothing.
pub normalize_percent_encoded-IsEncoded :
    (component : UriComponent) (t u : Bytes)
    → normalize_percent_encoded component t ≡ ok u
    → IsEncoded component u
unfolding normalize_percent_encoded
normalize_percent_encoded-IsEncoded component [] u h = subst (IsEncoded component) (ok_inj h) refl
normalize_percent_encoded-IsEncoded component (c ∷ []) u h = elim (Bool-cases (c == b'%')) [
  | inl e ↦ absurd (cut_short (rw (normalize_percent_encoded, e) at h))
  | inr e ↦ raw_step component c [] u e (normalize_percent_encoded-IsEncoded component []) h
]
  where
    cut_short : Result.fail security_policy_violation ≡ ok u → ⊥
    cut_short e = cc
normalize_percent_encoded-IsEncoded component (c ∷ d ∷ []) u h = elim (Bool-cases (c == b'%')) [
  | inl e ↦ absurd (cut_short (rw (normalize_percent_encoded, e) at h))
  | inr e ↦
      raw_step component c (d ∷ []) u e (normalize_percent_encoded-IsEncoded component (d ∷ [])) h
]
  where
    cut_short : Result.fail security_policy_violation ≡ ok u → ⊥
    cut_short e = cc
normalize_percent_encoded-IsEncoded component (c ∷ d ∷ l ∷ t) u h = elim (Bool-cases (c == b'%')) [
  | inl e ↦
      escape-IsEncoded component d l (normalize_percent_encoded component t) u
        (rw (normalize_percent_encoded, e) at h) (normalize_percent_encoded-IsEncoded component t)
  | inr e ↦
      raw_step component c (d ∷ l ∷ t) u e
        (normalize_percent_encoded-IsEncoded component (d ∷ l ∷ t)) h
]

segment_character : (c : ℕ) → is_allowed_raw_character c path_segment ≡ true → c ≢ b'/'
unfolding is_allowed_raw_character is_unreserved is_sub_delimiter
segment_character c h e = ground arith

hex_value-ne-slash : (c n : ℕ) → hex_value c ≡ some n → c ≢ b'/'
unfolding hex_value
hex_value-ne-slash c n h e = ground arith

raw-Lacks :
    (c : ℕ) (t u : Bytes)
    → (c == b'%') ≡ false
    → ((o : Bytes) → normalize_percent_encoded path_segment t ≡ ok o → Lacks b'/' t)
    → normalize_percent_encoded path_segment (c ∷ t) ≡ ok u
    → Lacks b'/' (c ∷ t)
raw-Lacks c t u e k h =
    let (r, (o, e1, same)) =
      raw_character-eq-ok path_segment c _ u (rw (raw_lem path_segment c t e) at h) in
    (segment_character c r.allowed, k o e1)

escape-digits :
    (component : UriComponent) (c d : ℕ) (rest : Result Bytes) (u : Bytes)
    → escape component c d rest ≡ ok u
    → (c ≢ b'/') × (d ≢ b'/') × ((o : Bytes) × (rest ≡ ok o))
unfolding escape decoded_escape
escape-digits component c d rest u h = elim (Option-cases (hex_value c)) [
  | inl none_high ↦ absurd (never (rw (escape, none_high) at h))
  | inr (high, e) ↦ elim (Option-cases (hex_value d)) [
    | inl none_low ↦ absurd (never (rw (escape, e, none_low) at h))
    | inr (low, e') ↦
        let h' : decoded_escape component high low rest ≡ ok u = rw (escape, e, e') at h in
        let (x, e1, h1) =
          >>=-eq-ok
            (reject_if (is_refused_escape component (high * 16 + low)) security_policy_violation) _
            h' in
        let (o, e2, h2) = >>=-eq-ok rest _ h1 in
        (hex_value-ne-slash c high e, hex_value-ne-slash d low e', (o, e2))
  ]
]
  where
    never : Result.fail security_policy_violation ≡ ok u → ⊥
    never e = cc

-- A segment that can be normalized has no slash.
pub normalize_percent_encoded-Lacks :
    (t u : Bytes) → normalize_percent_encoded path_segment t ≡ ok u → Lacks b'/' t
unfolding normalize_percent_encoded
normalize_percent_encoded-Lacks [] u h = tt
normalize_percent_encoded-Lacks (c ∷ []) u h = elim (Bool-cases (c == b'%')) [
  | inl e ↦ (ground arith, tt)
  | inr e ↦ raw-Lacks c [] u e (normalize_percent_encoded-Lacks []) h
]
normalize_percent_encoded-Lacks (c ∷ d ∷ []) u h = elim (Bool-cases (c == b'%')) [
  | inl e ↦ absurd (cut_short (rw (normalize_percent_encoded, e) at h))
  | inr e ↦ raw-Lacks c (d ∷ []) u e (normalize_percent_encoded-Lacks (d ∷ [])) h
]
  where
    cut_short : Result.fail security_policy_violation ≡ ok u → ⊥
    cut_short e = cc
normalize_percent_encoded-Lacks (c ∷ d ∷ l ∷ t) u h = elim (Bool-cases (c == b'%')) [
  | inl e ↦
      let (nd, nl, (o, e')) =
        escape-digits path_segment d l (normalize_percent_encoded path_segment t) u
          (rw (normalize_percent_encoded, e) at h) in
      (ground arith, (nd, (nl, normalize_percent_encoded-Lacks t o e')))
  | inr e ↦ raw-Lacks c (d ∷ l ∷ t) u e (normalize_percent_encoded-Lacks (d ∷ l ∷ t)) h
]
