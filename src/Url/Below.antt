-- ===== src/Url/Below.antt =====
-- A relative reference with no query, resolved against a directory.
use lib_auto_updater.Base.{
  ℕ, ◌≡◌, ◌≢◌, refl, subst, sym, ap, true, false, ◌||◌, none, [], ◌∷◌, ◌++◌, append_assoc, arith,
  ◌==◌, Bool-cases, inl, inr, All, All-append, append-All, All-map, false-any_of, is_empty,
}
use lib_auto_updater.Base.Text.{Bytes, codes, starts_with}
use lib_auto_updater.Base.Text.Split.{cut-none, split, split-append}
use lib_auto_updater.Error.{ok}
use lib_auto_updater.ManagedPath.{ends_with}
use lib_auto_updater.ManagedPath.Segments.{contains-Lacks}
use lib_auto_updater.Url.Chars.{is_forbidden}
use lib_auto_updater.Url.Clean.{IsSegment, IsClean, IsClean-normalize_path}
use lib_auto_updater.Url.Encoded.{IsUrlCharacter}
use lib_auto_updater.Url.{ParsedUrl, with_canonical, fits_no_url, cut_authority, parse_query}
use lib_auto_updater.Url.Resolve.{
  through_last_slash, merged_path, resolve_path, resolve_url_reference,
}

pub record IsReference (e : Bytes) : Type 0 where
  pub letters : All IsUrlCharacter e
  pub relative : (c : ℕ) × (t : Bytes) × (e ≡ c ∷ t) × (c ≢ b'/')
  pub segments : All IsSegment (split b'/' e)

cut_authority-All {ℓ} : (P : ℕ → Type ℓ) (t : Bytes) → All P t → All P ((cut_authority t).0)
unfolding cut_authority
cut_authority-All P [] h = tt
cut_authority-All P (c ∷ cs) h = elim (Bool-cases (c == b'/' || c == b'?')) [
  | inl e ↦ rw (cut_authority, e) tt
  | inr e ↦ rw (cut_authority, e) (h.0, cut_authority-All P cs h.1)
]

reference_fits : (e : Bytes) → All IsUrlCharacter e → fits_no_url e ≡ false
reference_fits e h = rw (
  false-any_of is_forbidden e (All-map (λ c k. k.plain) e h),
  (contains-Lacks b'#' e).1 (All-map (λ c k. k.no_hash) e h),
)

last_slash : (d : Bytes) → ends_with b'/' d ≡ true → through_last_slash d ≡ d
unfolding through_last_slash
last_slash [] h = refl
last_slash (c ∷ []) h = rw h
last_slash (c ∷ d ∷ t) h = rw (through_last_slash, last_slash (d ∷ t) h)

directory_form : (d : Bytes) → ends_with b'/' d ≡ true → (front : Bytes) × (d ≡ front ++ b'/' ∷ [])
directory_form [] h = cc
directory_form (c ∷ []) h = ([], ground arith)
directory_form (c ∷ d ∷ t) h =
    let (front, e) = directory_form (d ∷ t) h in (c ∷ front, ap (◌∷◌ c) e)

below-All :
    (front e : Bytes)
    → All IsSegment (split b'/' (front ++ b'/' ∷ []))
    → All IsSegment (split b'/' e)
    → All IsSegment (split b'/' (front ++ b'/' ∷ e))
unfolding split
below-All front e h k =
    let parts =
      append-All IsSegment (split b'/' front) ([] ∷ [])
        (subst (All IsSegment) (split-append b'/' front []) h) in
    subst (All IsSegment) (sym (split-append b'/' front e))
      (All-append IsSegment (split b'/' front) (split b'/' e) parts.0 k)

below_rest :
    (rest e : Bytes)
    → ends_with b'/' rest ≡ true
    → All IsSegment (split b'/' rest)
    → All IsSegment (split b'/' e)
    → All IsSegment (split b'/' (rest ++ e))
below_rest rest e k h s =
    let (front, same) = directory_form rest k in
    rw (same, append_assoc front (b'/' ∷ []) e) (below-All front e (rw same at h) s)

-- What is put after a clean directory is clean.
pub below-IsClean :
    (d e : Bytes)
    → IsClean d
    → ends_with b'/' d ≡ true
    → All IsSegment (split b'/' e)
    → IsClean (d ++ e)
below-IsClean [] e h k s = absurd h
below-IsClean (c ∷ []) e h k s = (h.0, s)
below-IsClean (c ∷ d ∷ t) e h k s = (h.0, below_rest (d ∷ t) e k h.1 s)

record IsRelative (e : Bytes) : Type 0 where
  filled : is_empty e ≡ false
  no_root : starts_with e (codes "/") ≡ false
  no_authority : starts_with e (codes "//") ≡ false

head-IsRelative : (e : Bytes) (c : ℕ) (t : Bytes) → e ≡ c ∷ t → c ≢ b'/' → IsRelative e
unfolding starts_with
head-IsRelative e c t same ne = record {
  filled = rw same;
  no_root = rw same (ground (arith, ne));
  no_authority = rw same (ground (arith, ne));
}

resolve_path-below :
    (base : ParsedUrl) (e : Bytes)
    → IsClean base.path
    → ends_with b'/' base.path ≡ true
    → IsReference e
    → resolve_path base e none
      ≡ ok (with_canonical (record base { path = base.path ++ e; query = []; has_query = false }))
unfolding resolve_path merged_path parse_query
resolve_path-below base e clean ends h =
    let (c, t, same, ne) = h.relative in
    let r = head-IsRelative e c t same ne in
    rw (
      r.no_root,
      last_slash base.path ends,
      IsClean-normalize_path (base.path ++ e) (below-IsClean base.path e clean ends h.segments),
    )

-- The URL of the reference is the directory with the reference put after it.
pub resolve_url_reference-below :
    (base : ParsedUrl) (e : Bytes)
    → IsClean base.path
    → ends_with b'/' base.path ≡ true
    → IsReference e
    → resolve_url_reference base e
      ≡ ok (with_canonical (record base { path = base.path ++ e; query = []; has_query = false }))
unfolding resolve_url_reference
resolve_url_reference-below base e clean ends h =
    let (c, t, same, ne) = h.relative in
    let r = head-IsRelative e c t same ne in
    let no_colon =
      (contains-Lacks b':' ((cut_authority e).0)).1
        (cut_authority-All (λ d. d ≢ b':') e (All-map (λ d k. k.no_colon) e h.letters)) in
    rw
      (
        reference_fits e h.letters,
        no_colon,
        r.no_authority,
        r.filled,
        cut-none b'?' e (All-map (λ d k. k.no_question) e h.letters),
        r.filled,
      )
      (resolve_path-below base e clean ends h)
