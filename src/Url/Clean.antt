-- ===== src/Url/Clean.antt =====
-- Normal paths: absolute, every segment in normal form, and none of them a dot segment.
use lib_auto_updater.Base.{
  ◌≡◌, refl, subst, sym, ap, ◌∙◌, Bool, true, false, not, ◌&&◌, ◌||◌, List, [], ◌∷◌, ◌++◌,
  append_assoc, append-nil, ◌==◌, All, All-append, All-map, is_empty, Bool-cases, inl, inr,
}
use lib_auto_updater.Base.Text.{Bytes, bytes_eq}
use lib_auto_updater.Base.Text.Split.{split, join, join-split, split-join}
use lib_auto_updater.Error.{ok, ok_inj, >>=-eq-ok, reject_if, security_policy_violation}
use lib_auto_updater.Url.Chars.{path_segment, normalize_percent_encoded, contains_encoded_dot}
use lib_auto_updater.Url.Normal.{
  IsEncoded, normalize_percent_encoded-IsEncoded, normalize_percent_encoded-Lacks,
}
use lib_auto_updater.Url.Segments.{
  is_dot, is_dots, pop_back, place_segment, normalize_segments, normalize_path, close_directory,
}

pub record IsSegment (s : Bytes) : Type 0 where
  pub encoded : IsEncoded path_segment s
  pub no_dot : is_dot s ≡ false
  pub no_dots : is_dots s ≡ false

abbrev pub IsClean : Bytes → Type 0
IsClean [] = ⊥
IsClean (c ∷ rest) = (c ≡ b'/') × All IsSegment (split b'/' rest)

pub empty-IsSegment : IsSegment []
unfolding normalize_percent_encoded bytes_eq
empty-IsSegment = record { encoded = refl; no_dot = refl; no_dots = refl }

close_directory-All :
    (last : Bool) (ss : List Bytes) → All IsSegment ss → All IsSegment (close_directory last ss)
close_directory-All true ss h = All-append IsSegment ss ([] ∷ []) h (empty-IsSegment, tt)
close_directory-All false ss h = h

pop_back-All : (ss : List Bytes) → All IsSegment ss → All IsSegment (pop_back ss)
unfolding pop_back
pop_back-All [] h = tt
pop_back-All (x ∷ []) h = tt
pop_back-All (x ∷ y ∷ ys) h = (h.0, pop_back-All (y ∷ ys) h.1)

place_segment-All :
    (ss : List Bytes) (s : Bytes) (last : Bool) (next : List Bytes)
    → IsEncoded path_segment s
    → All IsSegment ss
    → place_segment ss s last ≡ ok next
    → All IsSegment next
unfolding place_segment
place_segment-All ss s last next e a h = elim (Bool-cases (is_dot s)) [
  | inl dot ↦
      subst (All IsSegment) (ok_inj (rw (place_segment, dot) at h)) (close_directory-All last ss a)
  | inr no_dot ↦ elim (Bool-cases (is_dots s)) [
    | inl dots ↦
        let (u, e1, h1) =
          >>=-eq-ok (reject_if (is_empty ss) security_policy_violation) _
            (rw (place_segment, no_dot, dots) at h) in
        subst (All IsSegment) (ok_inj h1)
          (close_directory-All last (pop_back ss) (pop_back-All ss a))
    | inr no_dots ↦ subst (All IsSegment) (ok_inj (rw (place_segment, no_dot, no_dots) at h)) (
        All-append IsSegment ss (s ∷ []) a
          (record { encoded = e; no_dot = no_dot; no_dots = no_dots }, tt))
  ]
]

normalize_segments-All :
    (ss raws out : List Bytes)
    → All IsSegment ss
    → normalize_segments ss raws ≡ ok out
    → All IsSegment out
unfolding normalize_segments
normalize_segments-All ss [] out a h = subst (All IsSegment) (ok_inj h) a
normalize_segments-All ss (raw ∷ rest) out a h =
    let (s, e, h1) = >>=-eq-ok (normalize_percent_encoded path_segment raw) _ h in
    let (u, e1, h2) =
      >>=-eq-ok
        (reject_if ((is_dot s || is_dots s) && contains_encoded_dot raw) security_policy_violation)
        _ h1 in
    let (next, e2, h3) = >>=-eq-ok (place_segment ss s (is_empty rest)) _ h2 in
    normalize_segments-All next rest out
      (place_segment-All ss s (is_empty rest) next
        (normalize_percent_encoded-IsEncoded path_segment raw s e) a e2)
      h3

split-join_segments :
    (ss : List Bytes) → All IsSegment ss → All IsSegment (split b'/' (join b'/' ss))
unfolding split join
split-join_segments [] h = (empty-IsSegment, tt)
split-join_segments (s ∷ ss) h =
    subst (All IsSegment)
      (sym (
        split-join b'/' s ss
          (All-map (λ t k. normalize_percent_encoded-Lacks t t k.encoded) (s ∷ ss) h)))
      h

-- A path that is returned is clean.
pub normalize_path-IsClean : (t p : Bytes) → normalize_path t ≡ ok p → IsClean p
unfolding normalize_path
normalize_path-IsClean [] p h = cc
normalize_path-IsClean (c ∷ rest) p h =
    let (u, e, h1) = >>=-eq-ok (reject_if (not (c == b'/')) security_policy_violation) _ h in
    let (ss, e1, h2) = >>=-eq-ok (normalize_segments [] (split b'/' rest)) _ h1 in
    subst IsClean (ok_inj h2)
      (refl, split-join_segments ss (normalize_segments-All [] (split b'/' rest) ss tt e1))

normalize_segments-fixed :
    (ss raws : List Bytes) → All IsSegment raws → normalize_segments ss raws ≡ ok (ss ++ raws)
unfolding normalize_segments place_segment
normalize_segments-fixed ss [] h = rw append-nil
normalize_segments-fixed ss (s ∷ rest) h =
    rw (normalize_segments, h.0.encoded, h.0.no_dot, h.0.no_dots)
      (normalize_segments-fixed (ss ++ s ∷ []) rest h.1 ∙ ap ok (append_assoc ss (s ∷ []) rest))

-- A clean path is left as it is.
pub IsClean-normalize_path : (p : Bytes) → IsClean p → normalize_path p ≡ ok p
unfolding normalize_path
IsClean-normalize_path [] h = absurd h
IsClean-normalize_path (c ∷ rest) h =
    rw (h.0, normalize_segments-fixed [] (split b'/' rest) h.1, join-split b'/' rest)
