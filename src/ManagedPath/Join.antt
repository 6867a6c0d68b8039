-- ===== src/ManagedPath/Join.antt =====
-- `safeJoin`: a managed path is appended below the root and cannot leave it.
use lib_auto_updater.Base.{
  ◌≡◌, ◌↔◌, refl, sym, ◌∙◌, ap, false, List, [], ◌∷◌, ◌++◌, append_assoc, append-nil, arith, All,
  if◌then◌else◌, length, length-append, Bool-cases, inl, inr, last?, some,
}
use lib_auto_updater.Base.Text.{Bytes, codes, bytes_eq, bytes_eq_iff, starts_with}
use lib_auto_updater.Base.Text.Split.{Lacks, split, split-Lacks}
use lib_auto_updater.Error.{ok, >>=-eq-ok}
use lib_auto_updater.ManagedPath.{
  FilePath, append_component, append_components, safe_join, validate_managed_path,
}
use lib_auto_updater.ManagedPath.Segments.{IsSafeSegment, IsManaged, validate_managed_path_iff}

-- A component as the operating system reads it, on a stack of open directories.
abbrev enter : List Bytes → Bytes → List Bytes
enter stack s =
    if bytes_eq s (codes ".")
    then stack
    else if bytes_eq s (codes "..")
    then up stack
    else s ∷ stack
  where
    up : List Bytes → List Bytes
    up [] = []
    up (d ∷ ds) = ds

-- Where a path leads from a directory, the innermost name first.
pub resolve : List Bytes → FilePath → List Bytes
resolve stack [] = stack
resolve stack (s ∷ ss) = resolve (enter stack s) ss

append_component-safe :
    (root : FilePath) (s : Bytes)
    → IsSafeSegment s
    → Lacks b'/' s
    → append_component root s ≡ root ++ s ∷ []
unfolding append_component starts_with
append_component-safe root [] h l = absurd (h.filled refl)
append_component-safe root (c ∷ cs) h l = ground (arith, l.0)

append_components-safe :
    (root : FilePath) (ss : List Bytes)
    → All IsSafeSegment ss
    → All (Lacks b'/') ss
    → append_components root ss ≡ root ++ ss
unfolding append_components
append_components-safe root [] h l = sym (append-nil root)
append_components-safe root (s ∷ ss) h l =
    rw (append_component-safe root s h.0 l.0, append_components-safe (root ++ s ∷ []) ss h.1 l.1)
      (append_assoc root (s ∷ []) ss)

-- Joining succeeds exactly on managed paths, and then appends their segments to the root.
pub safe_join_iff :
    (root : FilePath) (relative : Bytes) (joined : FilePath)
    → (safe_join root relative ≡ ok joined)
      ↔ (IsManaged relative × (joined ≡ root ++ split b'/' relative))
unfolding safe_join
safe_join_iff root relative joined = (
  λ h.
      let (u, eu, h1) = >>=-eq-ok (validate_managed_path relative) _ h in
      let m = (validate_managed_path_iff relative).0 eu in
      let e =
        append_components-safe root (split b'/' relative) m.segments (split-Lacks b'/' relative) in
      (m, cc (e, h1)),
  λ h. rw (
    (validate_managed_path_iff relative).1 h.0,
    append_components-safe root (split b'/' relative) h.0.segments (split-Lacks b'/' relative),
    h.1,
  ),
)

enter-safe : (stack : List Bytes) (s : Bytes) → IsSafeSegment s → enter stack s ≡ s ∷ stack
enter-safe stack s h = ground (arith, not_dot (codes ".") refl, not_dot (codes "..") refl)
  where
    not_dot : (t : Bytes) → last? t ≡ some b'.' → bytes_eq s t ≡ false
    not_dot t e = elim (Bool-cases (bytes_eq s t)) [
      | inl k ↦ absurd (h.no_dot_end (rw ((bytes_eq_iff s t).0 k) e))
      | inr k ↦ k
    ]

resolve-safe :
    (stack ss : List Bytes)
    → All IsSafeSegment ss
    → (inner : List Bytes) × (resolve stack ss ≡ inner ++ stack) × (length inner ≡ length ss)
unfolding resolve
resolve-safe stack [] h = ([], refl, refl)
resolve-safe stack (s ∷ ss) h =
    let (inner, e, l) = resolve-safe (s ∷ stack) ss h.1 in
    (
      inner ++ s ∷ [],
      rw (enter-safe stack s h.0) (e ∙ sym (append_assoc inner (s ∷ []) stack)),
      omega (arith, length-append inner (s ∷ []), l),
    )

resolve-append :
    (stack : List Bytes) (p q : FilePath) → resolve stack (p ++ q) ≡ resolve (resolve stack p) q
unfolding resolve
resolve-append stack [] q = refl
resolve-append stack (s ∷ p) q = resolve-append (enter stack s) p q

-- Wherever the root leads, a joined path leads to a place below it, one level for each segment.
pub safe_join-inside :
    (stack : List Bytes) (root : FilePath) (relative : Bytes) (joined : FilePath)
    → safe_join root relative ≡ ok joined
    → (inner : List Bytes) × (resolve stack joined ≡ inner ++ resolve stack root)
      × (length inner ≡ length (split b'/' relative))
safe_join-inside stack root relative joined h =
    let (m, e) = (safe_join_iff root relative joined).0 h in
    let (inner, f, l) = resolve-safe (resolve stack root) (split b'/' relative) m.segments in
    (inner, ap (resolve stack) e ∙ resolve-append stack root (split b'/' relative) ∙ f, l)
