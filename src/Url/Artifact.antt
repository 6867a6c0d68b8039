-- ===== src/Url/Artifact.antt =====
-- appendEncodedPath of src/util/UrlUtil.cpp: the URL of a managed path below a directory.
use lib_auto_updater.Base.{
  ℕ, ◌<◌, ◌≤◌, ◌≡◌, ◌≢◌, refl, sym, ap, ◌∙◌, true, false, not, ◌||◌, List, [], ◌∷◌, ◌++◌, map,
  append-nil, arith, ◌==◌, Bool-cases, inl, inr, All, All-append, All-map, All-of, All-of_map,
  false-any_of, is_empty,
}
use lib_auto_updater.Base.Text.{Bytes, codes, starts_with}
use lib_auto_updater.Base.Text.Split.{
  Lacks, split, split-cons, split-Lacks, join, join-split, split-join,
}
use lib_auto_updater.Error.{ok}
use lib_auto_updater.ManagedPath.{ends_with}
use lib_auto_updater.ManagedPath.Segments.{IsManaged, IsSafeSegment, not_dots}
use lib_auto_updater.Url.Chars.{is_control, is_forbidden, percent_decode}
use lib_auto_updater.Url.Segments.{is_dot, is_dots}
use lib_auto_updater.Url.Clean.{IsSegment}
use lib_auto_updater.Url.Normal.{normalize_percent_encoded-Lacks}
use lib_auto_updater.Url.Below.{IsReference, resolve_url_reference-below}
use lib_auto_updater.Url.Normalized.{IsNormalized}
use lib_auto_updater.Url.Encoded.{
  IsPlain, IsUrlCharacter, IsEscaped, encode_segment-IsSegment, encode_segment-IsEscaped,
  encode_segment-filled, percent_decode-encode_segment,
}
use lib_auto_updater.Url.{ParsedUrl, with_canonical}
use lib_auto_updater.Url.Resolve.{encode_segment, is_unsafe_segment, append_encoded_path}

split-All {ℓ} : (P : ℕ → Type ℓ) (d : ℕ) (t : Bytes) → All P t → All (All P) (split d t)
unfolding split
split-All P d [] h = (tt, tt)
split-All P d (c ∷ cs) h =
    let (p, ps, e) = split-cons d cs in
    let rest : All (All P) (p ∷ ps) = rw e at (split-All P d cs h.1) in
    elim (Bool-cases (c == d)) [
      | inl k ↦ rw k (tt, split-All P d cs h.1)
      | inr k ↦ rw (k, e) ((h.0, rest.0), rest.1)
    ]

join-All {ℓ} : (P : ℕ → Type ℓ) (d : ℕ) (ss : List Bytes) → P d → All (All P) ss → All P (join d ss)
unfolding join
join-All P d [] k h = tt
join-All P d (s ∷ []) k h = h.0
join-All P d (s ∷ t ∷ ss) k h =
    All-append P s (d ∷ join d (t ∷ ss)) h.0 (k, join-All P d (t ∷ ss) k h.1)

-- A segment that can be put into a URL.
pub record IsPortable (s : Bytes) : Type 0 where
  pub plain : All IsPlain s
  pub filled : s ≢ []
  pub no_dot : is_dot s ≡ false
  pub no_dots : is_dots s ≡ false

bytes-IsPlain :
    (s : Bytes)
    → All (λ c. c < 256) s
    → Lacks b'\\' s
    → Lacks b'/' s
    → All (λ c. (0x20 ≤ c) × (c ≢ 0x7f)) s
    → All IsPlain s
unfolding is_control
bytes-IsPlain [] small back slash printable = tt
bytes-IsPlain (c ∷ s) small back slash printable = (
  record { small = small.0; no_control = ground arith; no_backslash = back.0; no_slash = slash.0 },
  bytes-IsPlain s small.1 back.1 slash.1 printable.1,
)

segments-IsPortable :
    (ss : List Bytes)
    → All (All (λ c. c < 256)) ss
    → All (Lacks b'\\') ss
    → All (Lacks b'/') ss
    → All IsSafeSegment ss
    → All IsPortable ss
segments-IsPortable [] small back slash safe = tt
segments-IsPortable (s ∷ ss) small back slash safe = (
  record {
    plain = bytes-IsPlain s small.0 back.0 slash.0 safe.0.printable;
    filled = safe.0.filled;
    no_dot = not_dots s [] safe.0.no_dot_end;
    no_dots = not_dots s (b'.' ∷ []) safe.0.no_dot_end;
  },
  segments-IsPortable ss small.1 back.1 slash.1 safe.1,
)

-- The segments of a managed path can be put into a URL.
pub IsManaged-IsPortable :
    (path : Bytes) → IsManaged path → All (λ c. c < 256) path → All IsPortable (split b'/' path)
IsManaged-IsPortable path h small =
    segments-IsPortable (split b'/' path) (split-All (λ c. c < 256) b'/' path small)
      (split-All (λ c. c ≢ b'\\') b'/' path h.forward) (split-Lacks b'/' path) h.segments

portable_safe : (s : Bytes) → IsPortable s → is_unsafe_segment s ≡ false
unfolding is_unsafe_segment
portable_safe s h = ground (
  arith,
  h.no_dot,
  h.no_dots,
  filled s h.filled,
  false-any_of (λ c. is_control c || c == b'\\') s
      (All-map (λ c k. ground (arith, k.no_control, k.no_backslash)) s h.plain),
)
  where
    filled : (t : Bytes) → t ≢ [] → is_empty t ≡ false
    filled [] k = absurd (k refl)
    filled (c ∷ cs) k = refl

-- The escaped form of a path.
abbrev pub encoded_path : Bytes → Bytes
encoded_path path = join b'/' (map encode_segment (split b'/' path))

segments_of : (ss : List Bytes) → All IsPortable ss → All IsSegment (map encode_segment ss)
segments_of ss h =
    All-of_map IsSegment encode_segment ss
      (All-map (λ s k. encode_segment-IsSegment s k.plain k.no_dot k.no_dots) ss h)

letters_of : (ss : List Bytes) → All IsUrlCharacter (join b'/' (map encode_segment ss))
unfolding is_forbidden
letters_of ss =
    join-All IsUrlCharacter b'/' (map encode_segment ss)
      (record {
        plain = refl;
        no_hash = λ e. ground arith;
        no_colon = λ e. ground arith;
        no_question = λ e. ground arith;
      })
      (All-of_map (All IsUrlCharacter) encode_segment ss (
        All-of (λ s. All IsUrlCharacter (encode_segment s))
          (λ s. All-map (λ c k. k.0) (encode_segment s) (encode_segment-IsEscaped s)) ss))

escaped_head :
    (u : Bytes) → u ≢ [] → All IsEscaped u → (c : ℕ) × (t : Bytes) × (u ≡ c ∷ t) × (c ≢ b'/')
escaped_head [] h k = absurd (h refl)
escaped_head (c ∷ t) h k = (c, t, refl, k.0.1)

join_head :
    (u : Bytes) (us : List Bytes) (c : ℕ) (t : Bytes)
    → u ≡ c ∷ t
    → (rest : Bytes) × (join b'/' (u ∷ us) ≡ c ∷ rest)
unfolding join
join_head u [] c t e = (t, e)
join_head u (v ∷ us) c t e = (t ++ b'/' ∷ join b'/' (v ∷ us), rw e)

filled_head : (s : Bytes) → s ≢ [] → (c : ℕ) × (t : Bytes) × (encode_segment s ≡ c ∷ t) × (c ≢ b'/')
filled_head [] h = absurd (h refl)
filled_head (c ∷ s) h =
    escaped_head (encode_segment (c ∷ s)) (encode_segment-filled c s)
      (encode_segment-IsEscaped (c ∷ s))

portable-IsReference :
    (s : Bytes) (ss : List Bytes)
    → All IsPortable (s ∷ ss)
    → IsReference (join b'/' (map encode_segment (s ∷ ss)))
portable-IsReference s ss h =
    let (c, t, e, ne) = filled_head s h.0.filled in
    let (rest, e') = join_head (encode_segment s) (map encode_segment ss) c t e in
    record {
      letters = letters_of (s ∷ ss);
      relative = (c, rest, e', ne);
      segments =
          rw
            (split-join b'/' (encode_segment s) (map encode_segment ss) (
              All-map (λ u k. normalize_percent_encoded-Lacks u u k.encoded)
                (map encode_segment (s ∷ ss)) (segments_of (s ∷ ss) h)))
            (segments_of (s ∷ ss) h);
    }

encoded_path-IsReference :
    (path : Bytes) → All IsPortable (split b'/' path) → IsReference (encoded_path path)
encoded_path-IsReference path h =
    let (s, ss, e) = split-cons b'/' path in rw e (portable-IsReference s ss (rw e at h))

decode_slash : (t : Bytes) → percent_decode (b'/' ∷ t) ≡ b'/' ∷ percent_decode t
unfolding percent_decode
decode_slash [] = refl
decode_slash (c ∷ []) = refl
decode_slash (c ∷ d ∷ t) = refl

percent_decode-join :
    (ss : List Bytes)
    → All (All (λ c. c < 256)) ss
    → percent_decode (join b'/' (map encode_segment ss)) ≡ join b'/' ss
unfolding join percent_decode
percent_decode-join [] h = refl
percent_decode-join (s ∷ []) h =
    ap percent_decode (sym (append-nil (encode_segment s)))
    ∙ percent_decode-encode_segment s [] h.0
    ∙ append-nil s
percent_decode-join (s ∷ t ∷ ss) h =
    percent_decode-encode_segment s (b'/' ∷ join b'/' (map encode_segment (t ∷ ss))) h.0
    ∙ ap (λ x. s ++ x)
        (decode_slash (join b'/' (map encode_segment (t ∷ ss)))
          ∙ ap (◌∷◌ b'/') (percent_decode-join (t ∷ ss) h.1))

-- The escaped form of any path of bytes decodes to the path.
pub percent_decode-encoded_path :
    (path : Bytes) → All (λ c. c < 256) path → percent_decode (encoded_path path) ≡ path
percent_decode-encoded_path path h =
    percent_decode-join (split b'/' path) (split-All (λ c. c < 256) b'/' path h)
    ∙ join-split b'/' path

no_start :
    (path : Bytes)
    → All IsPortable (split b'/' path)
    → Lacks b'\\' path
    → (is_empty path || starts_with path (codes "/") || starts_with path (codes "\\")) ≡ false
unfolding split starts_with
no_start [] h k = absurd (h.0.filled refl)
no_start (c ∷ cs) h k = elim (Bool-cases (c == b'/')) [
  | inl e ↦ let s : All IsPortable ([] ∷ split b'/' cs) = rw e at h in absurd (s.0.filled refl)
  | inr e ↦ ground (arith, k.0)
]

-- The URL of a managed path below a directory.
abbrev pub artifact_url : ParsedUrl → Bytes → ParsedUrl
artifact_url base path =
    with_canonical
      (record base { path = base.path ++ encoded_path path; query = []; has_query = false })

directory_fits :
    (base : ParsedUrl)
    → ends_with b'/' base.path ≡ true
    → base.has_query ≡ false
    → (is_empty base.path || not (ends_with b'/' base.path) || base.has_query) ≡ false
directory_fits base ends no_query = rw (ends, no_query) (filled base.path ends)
  where
    filled : (t : Bytes) → ends_with b'/' t ≡ true → (is_empty t || false || false) ≡ false
    filled [] h = cc
    filled (c ∷ t) h = refl

-- Every managed path has a URL below a directory that is given by a normalized URL with no query. The
-- URL differs from that of the directory only in the escaped path at its end.
pub append_encoded_path-artifact_url :
    (base : ParsedUrl) (path : Bytes)
    → IsNormalized base
    → ends_with b'/' base.path ≡ true
    → base.has_query ≡ false
    → IsManaged path
    → All (λ c. c < 256) path
    → append_encoded_path base path ≡ ok (artifact_url base path)
unfolding append_encoded_path
append_encoded_path-artifact_url base path normal ends no_query managed small =
    let portable = IsManaged-IsPortable path managed small in
    rw
      (
        directory_fits base ends no_query,
        no_start path portable managed.forward,
        false-any_of is_unsafe_segment (split b'/' path)
            (All-map portable_safe (split b'/' path) portable),
      )
      (resolve_url_reference-below base (encoded_path path) normal.clean ends
        (encoded_path-IsReference path portable))
