-- ===== src/Url/Resolve.antt =====
-- src/util/UrlUtil.cpp: references resolved against a URL, directories, and the URLs of artifacts.
use lib_auto_updater.Base.{
  Bool, false, not, ◌&&◌, ◌||◌, Option, none, some, List, [], ◌∷◌, ◌++◌, map, ◌/◌, ◌==◌,
  if◌then◌else◌, is_empty, any_of,
}
use lib_auto_updater.Base.Text.{Bytes, codes, bytes_eq, starts_with}
use lib_auto_updater.Base.Text.Split.{cut, split, join}
use lib_auto_updater.Error.{Result, ok, fail, ◌>>=◌, ◌>>◌, reject_if, security_policy_violation}
use lib_auto_updater.ManagedPath.{contains, ends_with}
use lib_auto_updater.Url.{
  ParsedUrl, is_file, scheme_eq, scheme_name, with_canonical, path_matches_boundary, parse_query,
  parse_absolute_url, slash_if_empty, take_one, fits_no_url, cut_authority,
}
use lib_auto_updater.Url.Chars.{
  is_forbidden, is_control, is_unreserved, upper_hex, lower_ascii, percent_decode,
}
use lib_auto_updater.Url.Segments.{is_dot, is_dots, normalize_path}

-- The text through its last slash.
unfoldable pub through_last_slash : Bytes → Bytes
through_last_slash [] = []
through_last_slash (c ∷ cs) =
    let rest = through_last_slash cs in
    if is_empty rest then (if c == b'/' then c ∷ [] else []) else c ∷ rest

unfoldable pub merged_path : Bytes → Bytes → Bytes
merged_path base_path reference_path =
    if starts_with reference_path (codes "/")
    then reference_path
    else through_last_slash base_path ++ reference_path

-- A reference to another query of the base.
unfoldable pub resolve_query : ParsedUrl → Option Bytes → Result ParsedUrl
resolve_query base none = ok (with_canonical base)
resolve_query base (some raw) = do
  (text, has_query) ← parse_query base.scheme (some raw)
  ok (with_canonical (record base { query = text; has_query = has_query }))

-- A reference with a path, after the absolute forms are taken care of.
unfoldable pub resolve_path : ParsedUrl → Bytes → Option Bytes → Result ParsedUrl
resolve_path base reference_path raw_query = do
  path ← normalize_path (merged_path base.path reference_path)
  (text, has_query) ← parse_query base.scheme raw_query
  ok (with_canonical (record base { path = path; query = text; has_query = has_query }))

unfoldable pub resolve_url_reference : ParsedUrl → Bytes → Result ParsedUrl
resolve_url_reference base reference = do
  reject_if (fits_no_url reference) security_policy_violation
  if contains b':' ((cut_authority reference).0)
      then parse_absolute_url reference
      else if starts_with reference (codes "//")
      then parse_absolute_url (scheme_name base.scheme ++ b':' ∷ reference)
      else if is_empty reference
      then ok base
      else if is_empty ((cut b'?' reference).0)
      then resolve_query base ((cut b'?' reference).1)
      else resolve_path base ((cut b'?' reference).0) ((cut b'?' reference).1)

unfoldable pub directory_url : ParsedUrl → ParsedUrl
directory_url url =
    let path = if contains b'/' url.path then through_last_slash url.path else take_one url.path in
    with_canonical (record url { path = slash_if_empty path; query = []; has_query = false })

unfoldable pub as_directory_url : ParsedUrl → Result ParsedUrl
as_directory_url url = do
  reject_if url.has_query security_policy_violation
  ok (
      with_canonical (record url {
        path =
            if is_empty url.path
            then codes "/"
            else if ends_with b'/' url.path
            then url.path
            else url.path ++ codes "/";
      }))

unfoldable pub append_url_path_suffix : ParsedUrl → Bytes → Result ParsedUrl
append_url_path_suffix url suffix = if is_empty suffix then ok url else (do
  reject_if (any_of (λ c. is_forbidden c || c == b'/' || c == b'?' || c == b'#') suffix)
      security_policy_violation
  path ← normalize_path (url.path ++ suffix)
  ok (with_canonical (record url { path = path })))

-- The bytes of one segment of a path, escaped.
unfoldable pub encode_segment : Bytes → Bytes
encode_segment [] = []
encode_segment (c ∷ cs) =
    if is_unreserved c
    then c ∷ encode_segment cs
    else b'%' ∷ upper_hex (c / 16) ∷ upper_hex c ∷ encode_segment cs

unfoldable pub is_unsafe_segment : Bytes → Bool
is_unsafe_segment segment =
    is_empty segment
    || is_dot segment
    || is_dots segment
    || any_of (λ c. is_control c || c == b'\\') segment

unfoldable pub append_encoded_path : ParsedUrl → Bytes → Result ParsedUrl
append_encoded_path base portable_path = do
  reject_if (is_empty base.path || not (ends_with b'/' base.path) || base.has_query)
      security_policy_violation
  reject_if
      (is_empty portable_path
        || starts_with portable_path (codes "/")
        || starts_with portable_path (codes "\\"))
      security_policy_violation
  reject_if (any_of is_unsafe_segment (split b'/' portable_path)) security_policy_violation
  resolve_url_reference base (join b'/' (map encode_segment (split b'/' portable_path)))

abbrev pub same_origin : ParsedUrl → ParsedUrl → Bool
same_origin left right =
    scheme_eq left.scheme right.scheme && bytes_eq left.host right.host && left.port == right.port

abbrev pub urls_equivalent : ParsedUrl → ParsedUrl → Bool
urls_equivalent left right = bytes_eq left.canonical right.canonical

unfoldable pub resolve_text : Bytes → Bytes → Result ParsedUrl
resolve_text base reference = do
  parsed ← parse_absolute_url base
  resolve_url_reference parsed reference

-- The canonical text, or none.
abbrev text_of : Result ParsedUrl → Bytes
text_of (ok url) = url.canonical
text_of (fail e) = []

unfoldable pub join_url : Bytes → Bytes → Bytes
join_url base_url relative_path = text_of (resolve_text base_url relative_path)

abbrev is_below : ParsedUrl → Result ParsedUrl → Bool
is_below url (ok rule) = same_origin url rule && path_matches_boundary url.path rule.path
is_below url (fail e) = false

unfoldable pub url_starts_with_any : Bytes → List Bytes → Bool
url_starts_with_any url allowed = not (is_empty allowed) && (elim (parse_absolute_url url) [
  | fail e ↦ false
  | ok parsed ↦ any_of (λ prefix. is_below parsed (parse_absolute_url prefix)) allowed
])

abbrev names_file : Bytes × Option Bytes → Bool
names_file (name, none) = false
names_file (name, some rest) = bytes_eq (lower_ascii name) (codes "file")

unfoldable pub is_file_url : Bytes → Bool
is_file_url url = names_file (cut b':' url)

abbrev path_of : Result ParsedUrl → Bytes
path_of (ok url) = if is_file url.scheme then percent_decode url.path else []
path_of (fail e) = []

-- The path as bytes.
unfoldable pub file_url_to_path : Bytes → Bytes
file_url_to_path url = path_of (parse_absolute_url url)
