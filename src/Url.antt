-- ===== src/Url.antt =====
-- src/util/UrlUtil.cpp: absolute URLs, their normal form and their resolution, as built where paths
-- have no drives.
pub mod Chars
pub mod Segments
pub mod Address
pub mod Host
pub mod Normal
pub mod Clean
pub mod Resolve
pub mod Normalized
pub mod Kept
pub mod Below
pub mod Artifact
pub mod Encoded
pub mod Public
pub mod Boundary
use lib_auto_updater.Base.{
  ℕ, Bool, true, false, not, ◌&&◌, ◌||◌, Option, none, some, List, [], ◌∷◌, ◌++◌, map, ◌/◌, ◌==◌,
  if◌then◌else◌, is_empty, any_of, all_of, length, drop,
}
use lib_auto_updater.Base.Text.{Bytes, codes, bytes_eq, starts_with}
use lib_auto_updater.Base.Text.Split.{cut, split, join}
use lib_auto_updater.Error.{
  Result, ok, fail, ◌>>=◌, ◌>>◌, reject_if, is_ok, security_policy_violation,
}
use lib_auto_updater.ManagedPath.{contains, ends_with}
use lib_auto_updater.Version.{decimal_text}
use Chars.{
  is_forbidden, is_control, is_ascii_alpha, is_ascii_alnum, is_unreserved, lower_ascii, upper_hex,
  normalize_percent_encoded,
}
use Segments.{is_dot, is_dots, normalize_path}
use Host.{normalize_host, parse_port}

pub data UrlScheme : Type 0 where
  http https file : UrlScheme

pub record ParsedUrl : Type 0 where
  pub scheme : UrlScheme
  pub host : Bytes
  pub port : ℕ
  pub ipv6_host : Bool
  pub path : Bytes
  pub query : Bytes
  pub has_query : Bool
  pub canonical : Bytes

abbrev pub is_file : UrlScheme → Bool
is_file file = true
is_file _ = false

abbrev pub scheme_eq : UrlScheme → UrlScheme → Bool
scheme_eq http http = true
scheme_eq https https = true
scheme_eq file file = true
scheme_eq _ _ = false

unfoldable pub scheme_name : UrlScheme → Bytes
scheme_name http = codes "http"
scheme_name https = codes "https"
scheme_name file = codes "file"

unfoldable pub default_port : UrlScheme → ℕ
default_port https = 443
default_port http = 80
default_port file = 0

unfoldable pub serialize : ParsedUrl → Bytes
serialize url =
    scheme_name url.scheme
    ++ codes "://"
    ++ (if is_file url.scheme
        then []
        else (if url.ipv6_host then b'[' ∷ url.host ++ b']' ∷ [] else url.host)
          ++ (if url.port == default_port url.scheme then [] else b':' ∷ decimal_text url.port))
    ++ url.path
    ++ (if url.has_query then b'?' ∷ url.query else [])

abbrev pub with_canonical : ParsedUrl → ParsedUrl
with_canonical url = record url { canonical = serialize url }

unfoldable pub path_matches_boundary : Bytes → Bytes → Bool
path_matches_boundary value prefix =
    if bytes_eq prefix (codes "/")
    then starts_with value (codes "/")
    else starts_with value prefix
      && (length value == length prefix
          || ends_with b'/' prefix
          || starts_with value (prefix ++ codes "/"))

unfoldable pub valid_scheme : Bytes → Bool
valid_scheme [] = false
valid_scheme (c ∷ cs) =
    is_ascii_alpha c && all_of (λ d. is_ascii_alnum d || d == b'+' || d == b'-' || d == b'.') cs

unfoldable pub scheme_of : Bytes → Result UrlScheme
scheme_of name =
    if bytes_eq name (codes "http")
    then ok http
    else if bytes_eq name (codes "https")
    then ok https
    else if bytes_eq name (codes "file")
    then ok file
    else fail security_policy_violation

-- The text before the first slash or question mark, and the text from there on.
unfoldable pub cut_authority : Bytes → Bytes × Bytes
cut_authority [] = ([], [])
cut_authority (c ∷ cs) =
    let rest = cut_authority cs in
    if c == b'/' || c == b'?' then ([], c ∷ cs) else (c ∷ rest.0, rest.1)

-- What follows a host in brackets.
abbrev pub bracket_port : Bytes → Result (Option Bytes)
bracket_port [] = ok none
bracket_port (c ∷ cs) = do reject_if (not (c == b':')) security_policy_violation; ok (some cs)

abbrev pub bracket_host : Bytes × Option Bytes → Result (Bytes × Option Bytes)
bracket_host (front, none) = fail security_policy_violation
bracket_host (front, some rest) = do port ← bracket_port rest; ok (front ++ b']' ∷ [], port)

abbrev colon_host : Bytes × Option Bytes → Result (Bytes × Option Bytes)
colon_host (front, none) = ok (front, none)
colon_host (front, some rest) = do
  reject_if (contains b':' rest) security_policy_violation
  ok (front, some rest)

-- The raw host, and the raw port where there is one.
unfoldable pub split_authority : Bytes → Result (Bytes × Option Bytes)
split_authority authority =
    if starts_with authority (codes "[")
    then bracket_host (cut b']' authority)
    else colon_host (cut b':' authority)

abbrev pub port_or_default : UrlScheme → Option Bytes → Result ℕ
port_or_default scheme none = ok (default_port scheme)
port_or_default scheme (some text) = parse_port text

-- Host, IPv6 flag and port.
unfoldable pub parse_authority : UrlScheme → Bytes → Result (Bytes × Bool × ℕ)
parse_authority scheme authority =
    if is_file scheme
    then (do reject_if (not (is_empty authority)) security_policy_violation; ok ([], false, 0))
    else (do
      (raw_host, raw_port) ← split_authority authority
      (host, ipv6_host) ← normalize_host raw_host
      port ← port_or_default scheme raw_port
      ok (host, ipv6_host, port))

-- The query of a URL: its text and whether there is one.
unfoldable pub parse_query : UrlScheme → Option Bytes → Result (Bytes × Bool)
parse_query scheme none = ok ([], false)
parse_query scheme (some raw) = do
  reject_if (is_file scheme) security_policy_violation
  text ← normalize_percent_encoded Chars.query raw
  ok (text, true)

abbrev pub slash_if_empty : Bytes → Bytes
slash_if_empty path = if is_empty path then codes "/" else path

abbrev pub take_one : Bytes → Bytes
take_one [] = []
take_one (c ∷ cs) = c ∷ []

abbrev pub fits_no_url : Bytes → Bool
fits_no_url text = any_of is_forbidden text || contains b'#' text

-- What follows the scheme and its colon.
unfoldable pub parse_hierarchy : UrlScheme → Bytes → Result ParsedUrl
parse_hierarchy scheme rest = do
  reject_if (not (starts_with rest (codes "//"))) security_policy_violation
  let (authority, path_and_query) = cut_authority (drop 2 rest)
  reject_if (contains b'@' authority) security_policy_violation
  (host, ipv6_host, port) ← parse_authority scheme authority
  let (raw_path, raw_query) = cut b'?' path_and_query
  path ← normalize_path (slash_if_empty raw_path)
  (query, has_query) ← parse_query scheme raw_query
  ok (
      with_canonical (record {
        scheme = scheme;
        host = host;
        port = port;
        ipv6_host = ipv6_host;
        path = path;
        query = query;
        has_query = has_query;
        canonical = [];
      }))

abbrev pub on_scheme : Bytes × Option Bytes → Result ParsedUrl
on_scheme (name, none) = fail security_policy_violation
on_scheme (name, some rest) = do
  reject_if (not (valid_scheme name)) security_policy_violation
  scheme ← scheme_of (lower_ascii name)
  parse_hierarchy scheme rest

unfoldable pub parse_absolute_url : Bytes → Result ParsedUrl
parse_absolute_url url = do
  reject_if (is_empty url) security_policy_violation
  reject_if (fits_no_url url) security_policy_violation
  on_scheme (cut b':' url)
