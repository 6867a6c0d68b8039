-- ===== src/ManagedPath/Whitelist.antt =====
-- The whitelist by path segments, and the clean-up of manifest paths.
use lib_auto_updater.Base.{
  ◌↔◌, subst, ℕ, ◌≡◌, refl, ap, false, not, ◌&&◌, [], ◌∷◌, ◌++◌, arith, map, if◌then◌else◌, ◌==◌,
  Bool-cases, inl, inr, is_empty,
}
use lib_auto_updater.Base.Text.{Bytes, codes, bytes_eq, bytes_eq_turn, bytes_eq_iff, starts_with}
use lib_auto_updater.Base.Text.Split.{Lacks, split}
use lib_auto_updater.ManagedPath.{ends_with, rule_allows, normalize_manifest_path, drop_slashes}
use lib_auto_updater.ManagedPath.Covers.{covers_lem, is_prefix, covers-split, starts_with-length}
use lib_auto_updater.ManagedPath.Segments.{last?-append}

entry_rule :
    (path rule : Bytes)
    → ends_with b'/' rule ≡ false
    → rule_allows path rule ≡ (not (is_empty rule) && is_prefix (split b'/' rule) (split b'/' path))
unfolding rule_allows
entry_rule path rule h =
    ground (arith, bytes_eq_turn path rule, covers_lem b'/' rule path, covers-split b'/' rule path)

directory_rule :
    (path rule : Bytes)
    → rule_allows path (rule ++ codes "/")
      ≡ (is_prefix (split b'/' rule) (split b'/' path) && not (bytes_eq path rule))
unfolding rule_allows
directory_rule path rule = ground (
  arith,
  last?-append rule b'/',
  filled rule,
  bytes_eq_turn path rule,
  covers_lem b'/' rule path,
  covers-split b'/' rule path,
  starts_with-length rule path b'/',
  bytes_eq_iff path rule,
)
  where
    filled : (r : Bytes) → is_empty (r ++ b'/' ∷ []) ≡ false
    filled [] = refl
    filled (c ∷ cs) = refl

-- A rule goes by whole segments. Without a slash at its end it allows the entry that it names and
-- what lies below it, and nothing if it is empty; with one it allows only what lies below.
pub rule_allows-segments :
    (path rule : Bytes)
    → ends_with b'/' rule ≡ false
    → (rule_allows path rule
        ≡ (not (is_empty rule) && is_prefix (split b'/' rule) (split b'/' path)))
      × (rule_allows path (rule ++ codes "/")
          ≡ (is_prefix (split b'/' rule) (split b'/' path) && not (bytes_eq path rule)))
rule_allows-segments path rule h = (entry_rule path rule h, directory_rule path rule)

-- A path with neither a backslash nor a leading slash.
abbrev pub IsNormal : Bytes → Type 0
IsNormal path = Lacks b'\\' path × (starts_with path (codes "/") ≡ false)

abbrev forward : ℕ → ℕ
forward c = if c == b'\\' then b'/' else c

forward-Lacks : (path : Bytes) → Lacks b'\\' (map forward path)
forward-Lacks [] = tt
forward-Lacks (c ∷ cs) = (ground arith, forward-Lacks cs)

drop_slashes-IsNormal : (path : Bytes) → Lacks b'\\' path → IsNormal (drop_slashes path)
unfolding drop_slashes starts_with
drop_slashes-IsNormal [] h = (tt, refl)
drop_slashes-IsNormal (c ∷ cs) h = elim (Bool-cases (c == b'/')) [
  | inl e ↦ rw e (drop_slashes-IsNormal cs h.1)
  | inr e ↦ rw e (h, ground arith)
]

forward_fixed : (path : Bytes) → Lacks b'\\' path → map forward path ≡ path
forward_fixed [] h = refl
forward_fixed (c ∷ cs) h = ground (arith, forward_fixed cs h.1, h.0)

normal_fixed : (path : Bytes) → IsNormal path → normalize_manifest_path path ≡ path
unfolding normalize_manifest_path starts_with
normal_fixed [] h = refl
normal_fixed (c ∷ cs) h = ground (arith, forward_fixed cs h.0.1, h.0.0)

forward_backslash :
    (front back : Bytes) → map forward (front ++ b'\\' ∷ back) ≡ map forward (front ++ b'/' ∷ back)
forward_backslash [] back = refl
forward_backslash (c ∷ cs) back = ap (◌∷◌ (forward c)) (forward_backslash cs back)

-- A backslash counts as a slash wherever it stands, slashes at the front are dropped, and exactly the
-- paths with no backslash and no slash at the front are left as they are; every path becomes one of
-- them.
pub normalize_manifest_path-IsNormal :
    (path front back : Bytes)
    → IsNormal (normalize_manifest_path path)
      × ((normalize_manifest_path path ≡ path) ↔ IsNormal path)
      × (normalize_manifest_path (b'/' ∷ path) ≡ normalize_manifest_path path)
      × (normalize_manifest_path (front ++ b'\\' ∷ back)
          ≡ normalize_manifest_path (front ++ b'/' ∷ back))
unfolding normalize_manifest_path drop_slashes
normalize_manifest_path-IsNormal path front back =
    let normal = drop_slashes-IsNormal (map forward path) (forward-Lacks path) in
    (
      normal,
      (λ same. subst IsNormal same normal, normal_fixed path),
      refl,
      ap drop_slashes (forward_backslash front back),
    )
