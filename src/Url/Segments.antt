-- ===== src/Url/Segments.antt =====
-- normalizePath of src/util/UrlUtil.cpp: the path of a URL, segment by segment.
use lib_auto_updater.Base.{
  Bool, not, ◌&&◌, ◌||◌, List, [], ◌∷◌, ◌++◌, is_empty, if◌then◌else◌, ◌==◌,
}
use lib_auto_updater.Base.Text.{Bytes, codes, bytes_eq}
use lib_auto_updater.Base.Text.Split.{split, join}
use lib_auto_updater.Error.{Result, ok, fail, ◌>>=◌, ◌>>◌, reject_if, security_policy_violation}
use lib_auto_updater.Url.Chars.{path_segment, normalize_percent_encoded, contains_encoded_dot}

unfoldable pub pop_back : List Bytes → List Bytes
pop_back [] = []
pop_back (x ∷ []) = []
pop_back (x ∷ y ∷ ys) = x ∷ pop_back (y ∷ ys)

abbrev pub is_dot : Bytes → Bool
is_dot segment = bytes_eq segment (codes ".")

abbrev pub is_dots : Bytes → Bool
is_dots segment = bytes_eq segment (codes "..")

-- An empty segment stands for a last segment that names a directory.
abbrev pub close_directory : Bool → List Bytes → List Bytes
close_directory last segments = if last then segments ++ [] ∷ [] else segments

-- What one normalized segment does to the segments so far.
unfoldable pub place_segment : List Bytes → Bytes → Bool → Result (List Bytes)
place_segment segments normalized last =
    if is_dot normalized
    then ok (close_directory last segments)
    else if is_dots normalized
    then (do
      reject_if (is_empty segments) security_policy_violation
      ok (close_directory last (pop_back segments)))
    else ok (segments ++ normalized ∷ [])

unfoldable pub normalize_segments : List Bytes → List Bytes → Result (List Bytes)
normalize_segments segments [] = ok segments
normalize_segments segments (raw ∷ rest) = do
  normalized ← normalize_percent_encoded path_segment raw
  reject_if ((is_dot normalized || is_dots normalized) && contains_encoded_dot raw)
      security_policy_violation
  next ← place_segment segments normalized (is_empty rest)
  normalize_segments next rest

unfoldable pub normalize_path : Bytes → Result Bytes
normalize_path [] = fail security_policy_violation
normalize_path (c ∷ rest) = do
  reject_if (not (c == b'/')) security_policy_violation
  segments ← normalize_segments [] (split b'/' rest)
  ok (b'/' ∷ join b'/' segments)
