-- ===== src/Url/Boundary.antt =====
-- A path is within another by whole segments.
use lib_auto_updater.Base.{ℕ, ◌≡◌, refl, true, false, not, ◌&&◌, [], ◌∷◌, ◌++◌, arith, ◌==◌, length}
use lib_auto_updater.Base.Text.{Bytes, codes, bytes_eq, bytes_eq_iff, bytes_eq_turn, starts_with}
use lib_auto_updater.Base.Text.Split.{split}
use lib_auto_updater.ManagedPath.{ends_with}
use lib_auto_updater.ManagedPath.Covers.{covers_lem, is_prefix, covers-split, starts_with-length}
use lib_auto_updater.ManagedPath.Segments.{last?-append}
use lib_auto_updater.Url.{path_matches_boundary}

same_length : (v p : Bytes) → (starts_with v p && length v == length p) ≡ bytes_eq p v
unfolding starts_with bytes_eq
same_length [] [] = refl
same_length [] (c ∷ p) = refl
same_length (c ∷ v) [] = ground arith
same_length (c ∷ v) (d ∷ p) = ground (arith, same_length v p)

starts_with-front :
    (v p : Bytes) (d : ℕ) → starts_with v (p ++ d ∷ []) ≡ true → starts_with v p ≡ true
unfolding starts_with
starts_with-front v [] d h = refl
starts_with-front [] (c ∷ p) d h = h
starts_with-front (a ∷ v) (c ∷ p) d h = ground (arith, starts_with-front v p d)

pub starts_with-append : (v p e : Bytes) → starts_with v p ≡ true → starts_with (v ++ e) p ≡ true
unfolding starts_with
starts_with-append v [] e h = refl
starts_with-append [] (c ∷ p) e h = cc
starts_with-append (a ∷ v) (c ∷ p) e h = ground (arith, starts_with-append v p e)

root_end : (scope : Bytes) → bytes_eq scope (codes "/") ≡ true → ends_with b'/' scope ≡ true
root_end scope h = rw ((bytes_eq_iff scope (codes "/")).0 h)

not_root : (c : ℕ) (s : Bytes) → bytes_eq (c ∷ s ++ b'/' ∷ []) (codes "/") ≡ false
unfolding bytes_eq
not_root c [] = ground arith
not_root c (d ∷ s) = ground arith

entry_scope :
    (path scope : Bytes)
    → ends_with b'/' scope ≡ false
    → path_matches_boundary path scope ≡ is_prefix (split b'/' scope) (split b'/' path)
unfolding path_matches_boundary
entry_scope path scope h = ground (
  arith,
  root_end scope,
  same_length path scope,
  starts_with-front path scope b'/',
  covers_lem b'/' scope path,
  covers-split b'/' scope path,
)

directory_scope :
    (path scope : Bytes)
    → path_matches_boundary path (scope ++ codes "/")
      ≡ (is_prefix (split b'/' scope) (split b'/' path) && not (bytes_eq path scope))
unfolding path_matches_boundary starts_with
directory_scope path [] = ground (
  arith,
  covers_lem b'/' [] path,
  covers-split b'/' [] path,
  bytes_eq_turn path [],
  bytes_eq_iff path [],
)
directory_scope path (c ∷ s) = ground (
  arith,
  not_root c s,
  last?-append (c ∷ s) b'/',
  bytes_eq_turn path (c ∷ s),
  covers_lem b'/' (c ∷ s) path,
  covers-split b'/' (c ∷ s) path,
  starts_with-length (c ∷ s) path b'/',
  bytes_eq_iff path (c ∷ s),
)

-- A scope goes by whole segments of the path, and so does one with a slash at its end, which does not
-- have the path without that slash.
pub path_matches_boundary-segments :
    (path scope : Bytes)
    → ends_with b'/' scope ≡ false
    → (path_matches_boundary path scope ≡ is_prefix (split b'/' scope) (split b'/' path))
      × (path_matches_boundary path (scope ++ codes "/")
          ≡ (is_prefix (split b'/' scope) (split b'/' path) && not (bytes_eq path scope)))
path_matches_boundary-segments path scope h = (entry_scope path scope h, directory_scope path scope)

-- A path that ends in a slash stays within a scope when more is put after it.
pub path_matches_boundary-append :
    (path scope e : Bytes)
    → ends_with b'/' path ≡ true
    → path_matches_boundary path scope ≡ true
    → path_matches_boundary (path ++ e) scope ≡ true
unfolding path_matches_boundary
path_matches_boundary-append path scope e h k = ground (
  arith,
  same_length path scope,
  starts_with-append path (codes "/") e,
  starts_with-append path scope e,
  starts_with-append path (scope ++ codes "/") e,
  closed,
)
  where
    closed : bytes_eq scope path ≡ true → ends_with b'/' scope ≡ true
    closed same = rw ((bytes_eq_iff scope path).0 same) h
