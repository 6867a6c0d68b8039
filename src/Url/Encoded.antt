-- ===== src/Url/Encoded.antt =====
-- The escaped form of a segment: a normal segment, which decodes to what it was made from.
use lib_auto_updater.Base.{
  ℕ, ◌+◌, ◌*◌, ◌/◌, ◌%◌, ◌<◌, ◌≡◌, ◌≢◌, refl, sym, ap, ◌∙◌, true, false, [], ◌∷◌, ◌++◌, append-nil,
  arith, ◌==◌, Bool-cases, inl, inr, All, All-map,
}
use lib_auto_updater.Base.Text.{Bytes, codes, bytes_eq, bytes_eq_iff}
use lib_auto_updater.Url.Chars.{
  path_segment, is_control, is_unreserved, is_forbidden, upper_hex, percent_decode,
  is_refused_escape, normalize_percent_encoded,
}
use lib_auto_updater.Url.Normal.{
  IsEncoded, hex_value-upper_hex, unreserved_plain, unreserved_allowed, raw-IsEncoded, percent_step,
}
use lib_auto_updater.Url.Segments.{is_dot, is_dots}
use lib_auto_updater.Url.Clean.{IsSegment}
use lib_auto_updater.Url.Resolve.{encode_segment}

-- A byte that a segment may have.
pub record IsPlain (c : ℕ) : Type 0 where
  pub small : c < 256
  pub no_control : is_control c ≡ false
  pub no_backslash : c ≢ b'\\'
  pub no_slash : c ≢ b'/'

upper_hex-mod : (c : ℕ) → upper_hex c ≡ upper_hex (c % 16)
unfolding upper_hex
upper_hex-mod c = ground arith

halves : (c : ℕ) → c / 16 * 16 + c % 16 ≡ c
halves c = omega arith

plain_escape : (c : ℕ) → IsPlain c → is_refused_escape path_segment c ≡ false
unfolding is_refused_escape
plain_escape c h = ground (arith, h.no_control, h.no_backslash, h.no_slash)

high_half : (c : ℕ) → c < 256 → c / 16 < 16
high_half c h = omega arith

low_half : (c : ℕ) → c % 16 < 16
low_half c = omega arith

pub encode_segment-IsEncoded :
    (s : Bytes) → All IsPlain s → IsEncoded path_segment (encode_segment s)
unfolding encode_segment normalize_percent_encoded
encode_segment-IsEncoded [] h = refl
encode_segment-IsEncoded (c ∷ s) h =
    let rest = encode_segment-IsEncoded s h.1 in
    elim (Bool-cases (is_unreserved c)) [
      | inl e ↦
          rw (encode_segment, e)
            (raw-IsEncoded path_segment c (encode_segment s) (unreserved_plain c e)
              (unreserved_allowed path_segment c e) rest)
      | inr e ↦
          rw (encode_segment, e, upper_hex-mod c)
            (percent_step path_segment (c / 16) (c % 16) (encode_segment s) (high_half c h.0.small)
              (low_half c) (rw (halves c) (plain_escape c h.0)) (rw (halves c) e) rest)
    ]

decode_raw :
    (c : ℕ) (t : Bytes) → (c == b'%') ≡ false → percent_decode (c ∷ t) ≡ c ∷ percent_decode t
unfolding percent_decode
decode_raw c [] h = refl
decode_raw c (d ∷ []) h = refl
decode_raw c (d ∷ e ∷ t) h = rw (percent_decode, h)

decode_escape :
    (high low : ℕ) (t : Bytes)
    → high < 16
    → low < 16
    → percent_decode (b'%' ∷ upper_hex high ∷ upper_hex low ∷ t)
      ≡ (high * 16 + low) ∷ percent_decode t
unfolding percent_decode
decode_escape high low t h l =
    rw (percent_decode, hex_value-upper_hex high h, hex_value-upper_hex low l)

unreserved_ne_percent : (c : ℕ) → is_unreserved c ≡ true → (c == b'%') ≡ false
unfolding is_unreserved
unreserved_ne_percent c h = ground arith

-- Decoding takes the escapes back.
pub percent_decode-encode_segment :
    (s t : Bytes)
    → All (λ c. c < 256) s
    → percent_decode (encode_segment s ++ t) ≡ s ++ percent_decode t
unfolding encode_segment
percent_decode-encode_segment [] t h = refl
percent_decode-encode_segment (c ∷ s) t h =
    let rest = percent_decode-encode_segment s t h.1 in
    elim (Bool-cases (is_unreserved c)) [
      | inl e ↦
          rw (encode_segment, e)
            (decode_raw c (encode_segment s ++ t) (unreserved_ne_percent c e) ∙ ap (◌∷◌ c) rest)
      | inr e ↦
          rw (encode_segment, e, upper_hex-mod c)
            (decode_escape (c / 16) (c % 16) (encode_segment s ++ t) (high_half c h.0) (low_half c)
              ∙ rw (halves c, rest))
    ]

-- A character of an escaped segment.
pub record IsUrlCharacter (c : ℕ) : Type 0 where
  pub plain : is_forbidden c ≡ false
  pub no_hash : c ≢ b'#'
  pub no_colon : c ≢ b':'
  pub no_question : c ≢ b'?'

abbrev pub IsEscaped : ℕ → Type 0
IsEscaped c = IsUrlCharacter c × (c ≢ b'/')

unreserved-IsEscaped : (c : ℕ) → is_unreserved c ≡ true → IsEscaped c
unfolding is_unreserved
unreserved-IsEscaped c h = (
  record {
    plain = unreserved_plain c h;
    no_hash = λ e. ground arith;
    no_colon = λ e. ground arith;
    no_question = λ e. ground arith;
  },
  λ e. ground arith,
)

upper_hex-unreserved : (c : ℕ) → is_unreserved (upper_hex c) ≡ true
unfolding is_unreserved upper_hex
upper_hex-unreserved c = ground arith

percent-IsEscaped : IsEscaped b'%'
unfolding is_forbidden
percent-IsEscaped = (
  record {
    plain = refl;
    no_hash = λ e. ground arith;
    no_colon = λ e. ground arith;
    no_question = λ e. ground arith;
  },
  λ e. ground arith,
)

pub encode_segment-IsEscaped : (s : Bytes) → All IsEscaped (encode_segment s)
unfolding encode_segment
encode_segment-IsEscaped [] = tt
encode_segment-IsEscaped (c ∷ s) = elim (Bool-cases (is_unreserved c)) [
  | inl e ↦ rw (encode_segment, e) (unreserved-IsEscaped c e, encode_segment-IsEscaped s)
  | inr e ↦
      rw (encode_segment, e)
        (
          percent-IsEscaped,
          (
            unreserved-IsEscaped (upper_hex (c / 16)) (upper_hex-unreserved (c / 16)),
            (
              unreserved-IsEscaped (upper_hex c) (upper_hex-unreserved c),
              encode_segment-IsEscaped s,
            ),
          ),
        )
]

decode_back : (s : Bytes) → All (λ c. c < 256) s → percent_decode (encode_segment s) ≡ s
unfolding percent_decode
decode_back s h =
    ap percent_decode (sym (append-nil (encode_segment s)))
    ∙ percent_decode-encode_segment s [] h
    ∙ append-nil s

encode_segment-differs :
    (s d : Bytes)
    → All (λ c. c < 256) s
    → percent_decode d ≡ d
    → bytes_eq s d ≡ false
    → bytes_eq (encode_segment s) d ≡ false
encode_segment-differs s d h k e = elim (Bool-cases (bytes_eq (encode_segment s) d)) [
  | inl same ↦
      let back : s ≡ d =
        sym (decode_back s h)
        ∙ ap percent_decode ((bytes_eq_iff (encode_segment s) d).0 same)
        ∙ k in
      absurd (ne ((bytes_eq_iff s d).1 back))
  | inr other ↦ other
]
  where
    ne : bytes_eq s d ≡ true → ⊥
    ne f = cc

-- A segment with plain bytes only that is no dot segment is escaped to a normal segment.
pub encode_segment-IsSegment :
    (s : Bytes)
    → All IsPlain s
    → is_dot s ≡ false
    → is_dots s ≡ false
    → IsSegment (encode_segment s)
unfolding percent_decode
encode_segment-IsSegment s h dot dots =
    let small = All-map (λ c k. k.small) s h in
    record {
      encoded = encode_segment-IsEncoded s h;
      no_dot = encode_segment-differs s (codes ".") small refl dot;
      no_dots = encode_segment-differs s (codes "..") small refl dots;
    }

pub encode_segment-filled : (c : ℕ) (t : Bytes) → encode_segment (c ∷ t) ≢ []
unfolding encode_segment
encode_segment-filled c t e = elim (Bool-cases (is_unreserved c)) [
  | inl k ↦ absurd (never (rw (encode_segment, k) at e))
  | inr k ↦ absurd (never (rw (encode_segment, k) at e))
]
  where
    never : {y : ℕ} {ys : Bytes} → ◌≡◌ {A = Bytes} (y ∷ ys) [] → ⊥
    never f = cc
