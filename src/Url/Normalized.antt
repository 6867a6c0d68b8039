-- ===== src/Url/Normalized.antt =====
-- What every URL that src/util/UrlUtil.cpp returns is like.
use lib_auto_updater.Base.{
  ℕ, ◌+◌, ◌-◌, ◌*◌, ◌≤◌, ◌≡◌, refl, subst, Bool, true, false, not, Option, none, some, [], ◌∷◌,
  arith, ltb, ◌==◌, is_empty, drop,
}
use lib_auto_updater.Base.Text.{Bytes, codes, starts_with}
use lib_auto_updater.Base.Text.Split.{cut}
use lib_auto_updater.Error.{
  ok, ok_inj, >>=-eq-ok, reject_if, reject_if-eq-ok, security_policy_violation,
}
use lib_auto_updater.ManagedPath.{contains}
use lib_auto_updater.Url.Chars.{normalize_percent_encoded, is_digit, lower_ascii}
use lib_auto_updater.Url.Segments.{normalize_path}
use lib_auto_updater.Url.Host.{port_digits, parse_port, max_port, normalize_host}
use lib_auto_updater.Url.Normal.{IsEncoded, normalize_percent_encoded-IsEncoded}
use lib_auto_updater.Url.Clean.{IsClean, normalize_path-IsClean}
use lib_auto_updater.Url.{
  UrlScheme, http, https, file, ParsedUrl, is_file, default_port, serialize, split_authority,
  port_or_default, parse_authority, parse_query, parse_hierarchy, parse_absolute_url,
  slash_if_empty, cut_authority, scheme_of, valid_scheme, fits_no_url, on_scheme,
}

-- The port of a scheme.
abbrev pub IsPort : UrlScheme → ℕ → Type 0
IsPort file port = port ≡ 0
IsPort _ port = (1 ≤ port) × (port ≤ max_port)

abbrev pub IsQuery : UrlScheme → Bytes → Bool → Type 0
IsQuery scheme text true =
    IsEncoded lib_auto_updater.Url.Chars.query text × (is_file scheme ≡ false)
IsQuery scheme text false = text ≡ []

pub record IsNormalized (url : ParsedUrl) : Type 0 where
  pub clean : IsClean url.path
  pub in_range : IsPort url.scheme url.port
  pub fits_query : IsQuery url.scheme url.query url.has_query
  pub no_host : is_file url.scheme ≡ true → url.host ≡ []
  pub text : url.canonical ≡ serialize url

port_digits-le :
    (value : ℕ) (t : Bytes) (n : ℕ) → value ≤ max_port → port_digits value t ≡ ok n → n ≤ max_port
unfolding port_digits
port_digits-le value [] n h e = subst (λ m. m ≤ max_port) (ok_inj e) h
port_digits-le value (c ∷ cs) n h e =
    let (u, e1, h1) = >>=-eq-ok (reject_if (not (is_digit c)) security_policy_violation) _ e in
    let (v, e2, h2) =
      >>=-eq-ok (reject_if (ltb max_port (value * 10 + (c - b'0'))) security_policy_violation) _
        h1 in
    let fits =
      reject_if-eq-ok (ltb max_port (value * 10 + (c - b'0'))) security_policy_violation e2 in
    port_digits-le (value * 10 + (c - b'0')) cs n (ground arith) h2

-- A port that is read is between 1 and 65535.
pub parse_port-range : (t : Bytes) (n : ℕ) → parse_port t ≡ ok n → (1 ≤ n) × (n ≤ max_port)
unfolding parse_port
parse_port-range t n h =
    let (u, e, h1) = >>=-eq-ok (reject_if (is_empty t) security_policy_violation) _ h in
    let (v, e1, h2) = >>=-eq-ok (port_digits 0 t) _ h1 in
    let (w, e2, h3) = >>=-eq-ok (reject_if (v == 0) security_policy_violation) _ h2 in
    let some_port = reject_if-eq-ok (v == 0) security_policy_violation e2 in
    let same = ok_inj h3 in
    let small = port_digits-le 0 t v (ground arith) e1 in (ground arith, ground arith)

port_or_default-IsPort :
    (scheme : UrlScheme) (text : Option Bytes) (n : ℕ)
    → is_file scheme ≡ false
    → port_or_default scheme text ≡ ok n
    → IsPort scheme n
unfolding default_port
port_or_default-IsPort http none n k h = let e = ok_inj h in (ground arith, ground arith)
port_or_default-IsPort https none n k h = let e = ok_inj h in (ground arith, ground arith)
port_or_default-IsPort http (some t) n k h = parse_port-range t n h
port_or_default-IsPort https (some t) n k h = parse_port-range t n h
port_or_default-IsPort file text n k h = cc

abbrev IsAuthority : UrlScheme → Bytes × Bool × ℕ → Type 0
IsAuthority scheme (host, ipv6_host, port) =
    IsPort scheme port × (is_file scheme ≡ true → host ≡ [])

network-IsAuthority :
    (scheme : UrlScheme) (authority : Bytes) (a : Bytes × Bool × ℕ)
    → is_file scheme ≡ false
    → parse_authority scheme authority ≡ ok a
    → IsAuthority scheme a
unfolding parse_authority
network-IsAuthority scheme authority a k h =
    let ((raw_host, raw_port), e, h1) =
      >>=-eq-ok (split_authority authority) _ (rw (parse_authority, k) at h) in
    let ((host, v6), e1, h2) = >>=-eq-ok (normalize_host raw_host) _ h1 in
    let (port, e2, h3) = >>=-eq-ok (port_or_default scheme raw_port) _ h2 in
    subst (IsAuthority scheme) (ok_inj h3)
      (port_or_default-IsPort scheme raw_port port k e2, (λ f. cc))

parse_authority-IsAuthority :
    (scheme : UrlScheme) (authority : Bytes) (a : Bytes × Bool × ℕ)
    → parse_authority scheme authority ≡ ok a
    → IsAuthority scheme a
unfolding parse_authority
parse_authority-IsAuthority http authority a h = network-IsAuthority http authority a refl h
parse_authority-IsAuthority https authority a h = network-IsAuthority https authority a refl h
parse_authority-IsAuthority file authority a h =
    let (u, e, h1) =
      >>=-eq-ok (reject_if (not (is_empty authority)) security_policy_violation) _ h in
    subst (IsAuthority file) (ok_inj h1) (refl, (λ f. refl))

abbrev HasQuery : UrlScheme → Bytes × Bool → Type 0
HasQuery scheme (text, has_query) = IsQuery scheme text has_query

pub parse_query-IsQuery :
    (scheme : UrlScheme) (raw : Option Bytes) (text : Bytes) (has_query : Bool)
    → parse_query scheme raw ≡ ok (text, has_query)
    → IsQuery scheme text has_query
unfolding parse_query
parse_query-IsQuery scheme none text has_query h = subst (HasQuery scheme) (ok_inj h) refl
parse_query-IsQuery scheme (some raw) text has_query h =
    let (u, e, h1) = >>=-eq-ok (reject_if (is_file scheme) security_policy_violation) _ h in
    let (t, e1, h2) =
      >>=-eq-ok (normalize_percent_encoded lib_auto_updater.Url.Chars.query raw) _ h1 in
    subst (HasQuery scheme) (ok_inj h2) (
      normalize_percent_encoded-IsEncoded lib_auto_updater.Url.Chars.query raw t e1,
      reject_if-eq-ok (is_file scheme) security_policy_violation e,
    )

parse_hierarchy-IsNormalized :
    (scheme : UrlScheme) (rest : Bytes) (url : ParsedUrl)
    → parse_hierarchy scheme rest ≡ ok url
    → IsNormalized url
unfolding parse_hierarchy serialize
parse_hierarchy-IsNormalized scheme rest url h =
    let (u, e, h1) =
      >>=-eq-ok (reject_if (not (starts_with rest (codes "//"))) security_policy_violation) _ h in
    let (v, e1, h2) =
      >>=-eq-ok
        (reject_if (contains b'@' ((cut_authority (drop 2 rest)).0)) security_policy_violation) _
        h1 in
    let ((host, v6, port), e2, h3) =
      >>=-eq-ok (parse_authority scheme ((cut_authority (drop 2 rest)).0)) _ h2 in
    let target = (cut_authority (drop 2 rest)).1 in
    let (path, e3, h4) = >>=-eq-ok (normalize_path (slash_if_empty ((cut b'?' target).0))) _ h3 in
    let ((text, has_query), e4, h5) = >>=-eq-ok (parse_query scheme ((cut b'?' target).1)) _ h4 in
    let (in_range, no_host) =
      parse_authority-IsAuthority scheme ((cut_authority (drop 2 rest)).0) (host, v6, port) e2 in
    subst IsNormalized (ok_inj h5) (record {
      clean = normalize_path-IsClean (slash_if_empty ((cut b'?' target).0)) path e3;
      in_range = in_range;
      fits_query = parse_query-IsQuery scheme ((cut b'?' target).1) text has_query e4;
      no_host = no_host;
      text = refl;
    })

on_scheme-IsNormalized :
    (parts : Bytes × Option Bytes) (url : ParsedUrl) → on_scheme parts ≡ ok url → IsNormalized url
on_scheme-IsNormalized (name, none) url h = cc
on_scheme-IsNormalized (name, some rest) url h =
    let (u, e, h1) =
      >>=-eq-ok (reject_if (not (valid_scheme name)) security_policy_violation) _ h in
    let (scheme, e1, h2) = >>=-eq-ok (scheme_of (lower_ascii name)) _ h1 in
    parse_hierarchy-IsNormalized scheme rest url h2

-- A text that is accepted as a URL gives a URL in normal form.
pub parse_absolute_url-IsNormalized :
    (t : Bytes) (url : ParsedUrl) → parse_absolute_url t ≡ ok url → IsNormalized url
unfolding parse_absolute_url
parse_absolute_url-IsNormalized t url h =
    let (u, e, h1) = >>=-eq-ok (reject_if (is_empty t) security_policy_violation) _ h in
    let (v, e1, h2) = >>=-eq-ok (reject_if (fits_no_url t) security_policy_violation) _ h1 in
    on_scheme-IsNormalized (cut b':' t) url h2
