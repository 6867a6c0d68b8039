-- ===== src/Url/Kept.antt =====
-- The operations of src/util/UrlUtil.cpp on normalized URLs give normalized URLs.
use lib_auto_updater.Base.{
  ℕ, ◌≡◌, refl, subst, sym, ap, Bool, false, not, ◌||◌, Option, none, some, [], ◌∷◌, ◌++◌, arith,
  ◌==◌, is_empty, map, Bool-cases, ◌⊎◌, inl, inr, if◌then◌else◌, All, All-append, append-All,
  any_of,
}
use lib_auto_updater.Base.Text.{Bytes, codes, starts_with}
use lib_auto_updater.Base.Text.Split.{cut, split, split-append, join}
use lib_auto_updater.Error.{ok, ok_inj, >>=-eq-ok, reject_if, security_policy_violation}
use lib_auto_updater.ManagedPath.{contains, ends_with}
use lib_auto_updater.Url.Chars.{is_forbidden}
use lib_auto_updater.Url.Segments.{normalize_path}
use lib_auto_updater.Url.Clean.{IsSegment, IsClean, normalize_path-IsClean, empty-IsSegment}
use lib_auto_updater.Url.Normalized.{
  IsNormalized, IsQuery, parse_query-IsQuery, parse_absolute_url-IsNormalized,
}
use lib_auto_updater.Url.{
  ParsedUrl, serialize, with_canonical, parse_query, fits_no_url, cut_authority, scheme_name,
  slash_if_empty, take_one,
}
use lib_auto_updater.Url.Resolve.{
  through_last_slash, merged_path, resolve_query, resolve_path, resolve_url_reference,
  directory_url, as_directory_url, append_url_path_suffix, encode_segment, is_unsafe_segment,
  append_encoded_path,
}

-- Another path, and another query.
pub with_path_and_query :
    (url : ParsedUrl) (path text : Bytes) (has_query : Bool)
    → IsNormalized url
    → IsClean path
    → IsQuery url.scheme text has_query
    → IsNormalized
        (with_canonical (record url { path = path; query = text; has_query = has_query }))
unfolding serialize
with_path_and_query url path text has_query h k q = record {
  clean = k;
  in_range = h.in_range;
  fits_query = q;
  no_host = h.no_host;
  text = refl;
}

with_path :
    (url : ParsedUrl) (path : Bytes)
    → IsNormalized url
    → IsClean path
    → IsNormalized (with_canonical (record url { path = path }))
unfolding serialize
with_path url path h k = record {
  clean = k;
  in_range = h.in_range;
  fits_query = h.fits_query;
  no_host = h.no_host;
  text = refl;
}

resolve_query-IsNormalized :
    (base : ParsedUrl) (raw : Option Bytes) (url : ParsedUrl)
    → IsNormalized base
    → resolve_query base raw ≡ ok url
    → IsNormalized url
unfolding resolve_query
resolve_query-IsNormalized base none url h e =
    subst IsNormalized (ok_inj e) (with_path base base.path h h.clean)
resolve_query-IsNormalized base (some raw) url h e =
    let ((text, has_query), e1, h1) = >>=-eq-ok (parse_query base.scheme (some raw)) _ e in
    subst IsNormalized (ok_inj h1) (
      with_path_and_query base base.path text has_query h h.clean
        (parse_query-IsQuery base.scheme (some raw) text has_query e1))

resolve_path-IsNormalized :
    (base : ParsedUrl) (reference_path : Bytes) (raw : Option Bytes) (url : ParsedUrl)
    → IsNormalized base
    → resolve_path base reference_path raw ≡ ok url
    → IsNormalized url
unfolding resolve_path
resolve_path-IsNormalized base reference_path raw url h e =
    let (path, e1, h1) = >>=-eq-ok (normalize_path (merged_path base.path reference_path)) _ e in
    let ((text, has_query), e2, h2) = >>=-eq-ok (parse_query base.scheme raw) _ h1 in
    subst IsNormalized (ok_inj h2) (
      with_path_and_query base path text has_query h
        (normalize_path-IsClean (merged_path base.path reference_path) path e1)
        (parse_query-IsQuery base.scheme raw text has_query e2))

-- Resolving any reference against a normalized URL gives a normalized URL.
pub resolve_url_reference-IsNormalized :
    (base : ParsedUrl) (reference : Bytes) (url : ParsedUrl)
    → IsNormalized base
    → resolve_url_reference base reference ≡ ok url
    → IsNormalized url
unfolding resolve_url_reference
resolve_url_reference-IsNormalized base reference url h e =
    let (u, e1, h1) = >>=-eq-ok (reject_if (fits_no_url reference) security_policy_violation) _ e in
    elim (Bool-cases (contains b':' ((cut_authority reference).0))) [
      | inl a ↦ parse_absolute_url-IsNormalized reference url (rw a at h1)
      | inr a ↦ elim (Bool-cases (starts_with reference (codes "//"))) [
        | inl b ↦
            parse_absolute_url-IsNormalized (scheme_name base.scheme ++ b':' ∷ reference) url
              (rw (a, b) at h1)
        | inr b ↦ elim (Bool-cases (is_empty reference)) [
          | inl c ↦ subst IsNormalized (ok_inj (rw (a, b, c) at h1)) h
          | inr c ↦ elim (Bool-cases (is_empty ((cut b'?' reference).0))) [
            | inl d ↦
                resolve_query-IsNormalized base ((cut b'?' reference).1) url h
                  (rw (a, b, c, d) at h1)
            | inr d ↦
                resolve_path-IsNormalized base ((cut b'?' reference).0) ((cut b'?' reference).1) url
                  h (rw (a, b, c, d) at h1)
          ]
        ]
      ]
    ]

-- A text with no slash, or one cut after its last slash.
abbrev pub IsCut : Bytes → Bytes → Type 0
IsCut t front =
    (front ≡ []) ⊎ ((p : Bytes) × (q : Bytes) × (t ≡ p ++ b'/' ∷ q) × (front ≡ p ++ b'/' ∷ []))

append-not-empty : (p : Bytes) (d : ℕ) (q : Bytes) → is_empty (p ++ d ∷ q) ≡ false
append-not-empty [] d q = refl
append-not-empty (c ∷ p) d q = refl

pub through_last_slash-IsCut : (t : Bytes) → IsCut t (through_last_slash t)
unfolding through_last_slash
through_last_slash-IsCut [] = inl refl
through_last_slash-IsCut (c ∷ cs) = elim (through_last_slash-IsCut cs) [
  | inl e ↦ elim (Bool-cases (c == b'/')) [
    | inl slash ↦ inr ([], cs, ground arith, rw (through_last_slash, e, slash) (ground arith))
    | inr other ↦ inl (rw (through_last_slash, e, other))
  ]
  | inr (p, q, e, k) ↦
      inr (c ∷ p, q, ap (◌∷◌ c) e, rw (through_last_slash, k, append-not-empty p b'/' []))
]

-- The part of a list of segments before a slash.
closed-All :
    (p q : Bytes)
    → All IsSegment (split b'/' (p ++ b'/' ∷ q))
    → All IsSegment (split b'/' (p ++ b'/' ∷ []))
unfolding split
closed-All p q h =
    let both = subst (All IsSegment) (split-append b'/' p q) h in
    subst (All IsSegment) (sym (split-append b'/' p [])) (
      All-append IsSegment (split b'/' p) ([] ∷ [])
        (append-All IsSegment (split b'/' p) (split b'/' q) both).0 (empty-IsSegment, tt))

cut_path :
    (rest front : Bytes)
    → IsCut rest front
    → All IsSegment (split b'/' rest)
    → All IsSegment (split b'/' front)
unfolding split
cut_path rest front (inl e) h = rw e (empty-IsSegment, tt)
cut_path rest front (inr (p, q, e, k)) h = rw k (closed-All p q (rw e at h))

through_slash : (rest : Bytes) → through_last_slash (b'/' ∷ rest) ≡ b'/' ∷ through_last_slash rest
unfolding through_last_slash
through_slash rest = on_rest (through_last_slash rest)
  where
    on_rest : (r : Bytes) → (if is_empty r then b'/' ∷ [] else b'/' ∷ r) ≡ b'/' ∷ r
    on_rest [] = refl
    on_rest (c ∷ cs) = refl

pub through_last_slash-IsClean : (path : Bytes) → IsClean path → IsClean (through_last_slash path)
through_last_slash-IsClean [] h = absurd h
through_last_slash-IsClean (c ∷ rest) h =
    rw (h.0, through_slash rest)
      (refl, cut_path rest (through_last_slash rest) (through_last_slash-IsCut rest) h.1)

directory_path :
    (path : Bytes)
    → IsClean path
    → slash_if_empty (if contains b'/' path then through_last_slash path else take_one path)
      ≡ through_last_slash path
directory_path [] h = absurd h
directory_path (c ∷ rest) h = rw (h.0, through_slash rest)

-- The directory of a URL has the path up to the last slash.
pub directory_url-path :
    (url : ParsedUrl) → IsClean url.path → (directory_url url).path ≡ through_last_slash url.path
unfolding directory_url
directory_url-path url h = directory_path url.path h

-- The directory of a normalized URL is normalized.
pub directory_url-IsNormalized :
    (url : ParsedUrl) → IsNormalized url → IsNormalized (directory_url url)
unfolding directory_url
directory_url-IsNormalized url h =
    with_path_and_query url
      (slash_if_empty
        (if contains b'/' url.path then through_last_slash url.path else take_one url.path))
      [] false h
      (rw (directory_path url.path h.clean) (through_last_slash-IsClean url.path h.clean)) refl

closing_slash-IsClean : (path : Bytes) → IsClean path → IsClean (path ++ codes "/")
unfolding split
closing_slash-IsClean [] h = absurd h
closing_slash-IsClean (c ∷ rest) h = (
  h.0,
  subst (All IsSegment) (sym (split-append b'/' rest []))
      (All-append IsSegment (split b'/' rest) ([] ∷ []) h.1 (empty-IsSegment, tt)),
)

as_directory_path :
    (path : Bytes)
    → IsClean path
    → IsClean (
        if is_empty path
        then codes "/"
        else if ends_with b'/' path
        then path
        else path ++ codes "/")
as_directory_path [] h = absurd h
as_directory_path (c ∷ rest) h = elim (Bool-cases (ends_with b'/' (c ∷ rest))) [
  | inl e ↦ rw e h
  | inr e ↦ rw e (closing_slash-IsClean (c ∷ rest) h)
]

-- So is the URL taken as a directory.
pub as_directory_url-IsNormalized :
    (url out : ParsedUrl) → IsNormalized url → as_directory_url url ≡ ok out → IsNormalized out
unfolding as_directory_url
as_directory_url-IsNormalized url out h e =
    let (u, e1, h1) = >>=-eq-ok (reject_if url.has_query security_policy_violation) _ e in
    subst IsNormalized (ok_inj h1) (with_path url _ h (as_directory_path url.path h.clean))

-- And a URL with a suffix after its path.
pub append_url_path_suffix-IsNormalized :
    (url : ParsedUrl) (suffix : Bytes) (out : ParsedUrl)
    → IsNormalized url
    → append_url_path_suffix url suffix ≡ ok out
    → IsNormalized out
unfolding append_url_path_suffix
append_url_path_suffix-IsNormalized url [] out h e = subst IsNormalized (ok_inj e) h
append_url_path_suffix-IsNormalized url (c ∷ cs) out h e =
    let (u, e1, h1) =
      >>=-eq-ok
        (reject_if (any_of (λ d. is_forbidden d || d == b'/' || d == b'?' || d == b'#') (c ∷ cs))
          security_policy_violation)
        _ e in
    let (path, e2, h2) = >>=-eq-ok (normalize_path (url.path ++ c ∷ cs)) _ h1 in
    subst IsNormalized (ok_inj h2)
      (with_path url path h (normalize_path-IsClean (url.path ++ c ∷ cs) path e2))

-- And the URL of an artifact below a base.
pub append_encoded_path-IsNormalized :
    (base : ParsedUrl) (portable_path : Bytes) (out : ParsedUrl)
    → IsNormalized base
    → append_encoded_path base portable_path ≡ ok out
    → IsNormalized out
unfolding append_encoded_path
append_encoded_path-IsNormalized base p out h e =
    let (u, e1, h1) =
      >>=-eq-ok
        (reject_if (is_empty base.path || not (ends_with b'/' base.path) || base.has_query)
          security_policy_violation)
        _ e in
    let (v, e2, h2) =
      >>=-eq-ok
        (reject_if (is_empty p || starts_with p (codes "/") || starts_with p (codes "\\"))
          security_policy_violation)
        _ h1 in
    let (w, e3, h3) =
      >>=-eq-ok (reject_if (any_of is_unsafe_segment (split b'/' p)) security_policy_violation) _
        h2 in
    resolve_url_reference-IsNormalized base (join b'/' (map encode_segment (split b'/' p))) out h h3
