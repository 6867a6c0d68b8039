-- ===== src/Tests/Urls.antt =====
-- URLs of one site: its scope, its manifest, a release below it and an artifact.
use lib_auto_updater.Url.Public.{
  IsAddress, number, is_within, reserved_ranges, normalize_ipv4_host-ranges,
}
use lib_auto_updater.UrlPolicy.Chain.{Chain, step, stop, Follows, Chain-Follows, IsStep}
use lib_auto_updater.UrlPolicy.Config.{IsPolicy, from_config-IsPolicy, resolve_and_authorize-IsStep}
use lib_auto_updater.Url.Boundary.{path_matches_boundary-segments}
use lib_auto_updater.Url.Kept.{resolve_url_reference-IsNormalized}
use lib_auto_updater.Url.Normal.{normalize_percent_encoded-IsEncoded}
use lib_auto_updater.ManagedPath.Covers.{is_prefix}
use lib_auto_updater.Url.Address.{
  Ipv4, octet_digits, octet, four_octets, parse_canonical_ipv4, is_public_ipv4,
}
use lib_auto_updater.Url.Host.{
  port_digits, parse_port, drop_last, ends_with_text, ipv4_text, normalize_ipv4_host, is_dns_label,
  is_local_host, is_numeric_looking, normalize_dns_host, normalize_named_host, normalize_host,
}
use lib_auto_updater.Url.Segments.{pop_back, place_segment, normalize_segments, normalize_path}
use lib_auto_updater.Url.Chars.{
  path_segment, is_control_or_space, is_control, hex_value, upper_hex, is_unreserved,
  is_sub_delimiter, is_allowed_raw_character, lower_ascii, is_forbidden, raw_character,
  is_refused_escape, decoded_escape, escape, normalize_percent_encoded, contains_encoded_dot,
  percent_decode,
}
use lib_auto_updater.Version.{has_leading_zero, decimal_text}
use lib_auto_updater.Base.{not, ◌&&◌, any_of, ◌≡◌, refl, true, false, [], ◌∷◌, ◌++◌, arith}
use lib_auto_updater.Base.Text.{bytes_eq, bytes_compare, starts_with, Bytes, codes}
use lib_auto_updater.Base.Text.Split.{cut, join, split}
use lib_auto_updater.Error.{◌>>=◌, ok, fail, security_policy_violation}
use lib_auto_updater.ManagedPath.{
  to_upper, to_lower, has_drive_prefix, is_windows_device_name, is_unsafe_portable_segment,
  is_updater_state_segment, validate_managed_path,
}
use lib_auto_updater.ManagedPath.Segments.{IsManaged, validate_managed_path_iff}
use lib_auto_updater.Url.{
  scheme_name, default_port, serialize, valid_scheme, scheme_of, cut_authority, split_authority,
  parse_authority, parse_query, parse_hierarchy, ParsedUrl, https, parse_absolute_url,
  path_matches_boundary,
}
use lib_auto_updater.Url.Resolve.{
  through_last_slash, merged_path, resolve_path, encode_segment, file_url_to_path,
  resolve_url_reference, append_encoded_path,
}
use lib_auto_updater.Url.Artifact.{
  append_encoded_path-artifact_url, percent_decode-encoded_path, encoded_path, artifact_url,
}
use lib_auto_updater.Url.Normalized.{IsNormalized, parse_absolute_url-IsNormalized}
use lib_auto_updater.UrlPolicy.{
  matches_network_scope, matches_local_scope, network_scopes, authorize_url, authorize, UrlConfig,
  UrlPolicy, network, from_config, allows, authorize_transition, resolve_and_authorize,
}

abbrev pub site_url : Bytes → Bytes → ParsedUrl
site_url path canonical = record {
  scheme = https;
  host = codes "example.com";
  port = 443;
  ipv6_host = false;
  path = path;
  query = [];
  has_query = false;
  canonical = canonical;
}

abbrev pub scope : ParsedUrl
scope = site_url (codes "/app/") (codes "https://example.com/app/")

abbrev pub manifest_url : ParsedUrl
manifest_url = site_url (codes "/app/m.json") (codes "https://example.com/app/m.json")

abbrev pub release_url : ParsedUrl
release_url = site_url (codes "/app/v2/") (codes "https://example.com/app/v2/")

abbrev pub url_config : UrlConfig
url_config = record {
  manifest_url = codes "https://Example.com:443/app/x/../m.json";
  allow_local_file_urls = false;
  allowed_base_urls = codes "https://example.com/app/" ∷ [];
}

abbrev pub policy : UrlPolicy
policy = record { mode = network (scope ∷ []); initial = manifest_url }

pub scope_parsed : parse_absolute_url (codes "https://example.com/app/") ≡ ok scope
unfolding bytes_eq starts_with cut split join scheme_name default_port serialize valid_scheme
    scheme_of cut_authority split_authority parse_authority parse_query parse_hierarchy
    parse_absolute_url is_unreserved is_allowed_raw_character lower_ascii is_forbidden raw_character
    normalize_percent_encoded place_segment normalize_segments normalize_path ends_with_text
    is_dns_label is_local_host is_numeric_looking normalize_dns_host normalize_named_host
    normalize_host to_lower
scope_parsed = refl

pub release_parsed : parse_absolute_url (codes "https://EXAMPLE.com./app/%762/") ≡ ok release_url
unfolding bytes_eq starts_with cut split join scheme_name default_port serialize valid_scheme
    scheme_of cut_authority split_authority parse_authority parse_query parse_hierarchy
    parse_absolute_url is_control hex_value is_unreserved is_allowed_raw_character lower_ascii
    is_forbidden raw_character is_refused_escape decoded_escape escape normalize_percent_encoded
    place_segment normalize_segments normalize_path drop_last ends_with_text is_dns_label
    is_local_host is_numeric_looking normalize_dns_host normalize_named_host normalize_host to_lower
release_parsed = refl

-- The port that is not the one of the scheme, and the query, stay in the text.
port_and_query :
    (parse_absolute_url (codes "HTTP://Example.com:8080/a?b=c") >>= λ url. ok url.canonical)
    ≡ ok (codes "http://example.com:8080/a?b=c")
unfolding bytes_eq starts_with cut split join scheme_name default_port serialize valid_scheme
    scheme_of cut_authority split_authority parse_authority parse_query parse_hierarchy
    parse_absolute_url is_unreserved is_allowed_raw_character lower_ascii is_forbidden raw_character
    normalize_percent_encoded place_segment normalize_segments normalize_path ends_with_text
    port_digits parse_port has_leading_zero decimal_text is_sub_delimiter is_dns_label is_local_host
    is_numeric_looking normalize_dns_host normalize_named_host normalize_host to_lower
port_and_query = refl

pub policy_made : from_config url_config ≡ ok policy
unfolding bytes_eq starts_with cut split join scheme_name default_port serialize
    path_matches_boundary valid_scheme scheme_of cut_authority split_authority parse_authority
    parse_query parse_hierarchy parse_absolute_url is_unreserved is_allowed_raw_character
    lower_ascii is_forbidden raw_character normalize_percent_encoded contains_encoded_dot pop_back
    place_segment normalize_segments normalize_path port_digits parse_port ends_with_text
    is_dns_label is_local_host is_numeric_looking normalize_dns_host normalize_named_host
    normalize_host matches_network_scope network_scopes from_config to_lower
policy_made = refl

private_address : parse_absolute_url (codes "http://192.168.0.1/") ≡ fail security_policy_violation
unfolding bytes_eq starts_with cut split has_leading_zero valid_scheme scheme_of cut_authority
    split_authority parse_authority parse_hierarchy parse_absolute_url lower_ascii is_forbidden
    ends_with_text normalize_ipv4_host is_local_host normalize_named_host normalize_host
    octet_digits octet four_octets parse_canonical_ipv4 is_public_ipv4 to_lower
private_address = refl

outside :
    resolve_and_authorize policy manifest_url (codes "../other/") ≡ fail security_policy_violation
unfolding bytes_eq starts_with cut split join path_matches_boundary cut_authority parse_query
    is_unreserved is_allowed_raw_character is_forbidden raw_character normalize_percent_encoded
    contains_encoded_dot pop_back place_segment normalize_segments normalize_path through_last_slash
    merged_path resolve_path resolve_url_reference matches_network_scope authorize_url
    authorize_transition resolve_and_authorize
outside = refl

pub to_release : resolve_and_authorize policy manifest_url (codes "v2/") ≡ ok release_url
unfolding bytes_eq starts_with cut split join scheme_name default_port serialize
    path_matches_boundary cut_authority parse_query is_unreserved is_allowed_raw_character
    is_forbidden raw_character normalize_percent_encoded place_segment normalize_segments
    normalize_path through_last_slash merged_path resolve_path resolve_url_reference
    matches_network_scope authorize_url authorize_transition resolve_and_authorize
to_release = refl

abbrev file_path : Bytes
file_path = codes "bin/app 1.so"

file_path-valid : validate_managed_path file_path ≡ ok tt
unfolding bytes_eq bytes_compare starts_with cut split join authorize_transition
    resolve_and_authorize to_upper to_lower has_drive_prefix is_windows_device_name
    is_unsafe_portable_segment is_updater_state_segment validate_managed_path
file_path-valid = refl

pub file_path-IsManaged : IsManaged file_path
file_path-IsManaged = (validate_managed_path_iff file_path).0 file_path-valid

pub scope-IsNormalized : IsNormalized scope
scope-IsNormalized =
    parse_absolute_url-IsNormalized (codes "https://example.com/app/") scope scope_parsed

parse_absolute_url-IsNormalized_example : IsNormalized release_url
parse_absolute_url-IsNormalized_example =
    parse_absolute_url-IsNormalized (codes "https://EXAMPLE.com./app/%762/") release_url
      release_parsed

reference_resolved : resolve_url_reference scope (codes "./v2/../v2/") ≡ ok release_url
unfolding bytes_eq starts_with cut split join scheme_name default_port serialize cut_authority
    parse_query is_unreserved is_allowed_raw_character is_forbidden raw_character
    normalize_percent_encoded contains_encoded_dot pop_back place_segment normalize_segments
    normalize_path through_last_slash merged_path resolve_path resolve_url_reference
reference_resolved = refl

resolve_url_reference-IsNormalized_example : IsNormalized release_url
resolve_url_reference-IsNormalized_example =
    resolve_url_reference-IsNormalized scope (codes "./v2/../v2/") release_url scope-IsNormalized
      reference_resolved

append_encoded_path-artifact_url_example :
    append_encoded_path release_url file_path ≡ ok (artifact_url release_url file_path)
append_encoded_path-artifact_url_example =
    append_encoded_path-artifact_url release_url file_path
      (parse_absolute_url-IsNormalized (codes "https://EXAMPLE.com./app/%762/") release_url
        release_parsed)
      refl refl file_path-IsManaged (ground arith)

artifact_text :
    (artifact_url release_url file_path).canonical
    ≡ codes "https://example.com/app/v2/bin/app%201.so"
unfolding split join scheme_name default_port serialize upper_hex is_unreserved encode_segment
artifact_text = refl

percent_decode-encoded_path_example : percent_decode (encoded_path file_path) ≡ file_path
percent_decode-encoded_path_example = percent_decode-encoded_path file_path (ground arith)

path_matches_boundary-segments_example :
    (path_matches_boundary (codes "/application") (codes "/app")
      ≡ is_prefix (split b'/' (codes "/app")) (split b'/' (codes "/application")))
    × (path_matches_boundary (codes "/application") (codes "/app" ++ codes "/") ≡ (
        is_prefix (split b'/' (codes "/app")) (split b'/' (codes "/application"))
        && not (bytes_eq (codes "/application") (codes "/app"))))
path_matches_boundary-segments_example =
    path_matches_boundary-segments (codes "/application") (codes "/app") refl

escapes_normalized :
    normalize_percent_encoded path_segment (codes "%41%2f%c3") ≡ fail security_policy_violation
unfolding is_control_or_space is_control hex_value upper_hex is_refused_escape decoded_escape escape
    normalize_percent_encoded
escapes_normalized = refl

letters_normalized : normalize_percent_encoded path_segment (codes "%41b%c3") ≡ ok (codes "Ab%C3")
unfolding is_control_or_space is_control hex_value upper_hex is_unreserved is_sub_delimiter
    is_allowed_raw_character lower_ascii is_forbidden raw_character is_refused_escape decoded_escape
    escape normalize_percent_encoded
letters_normalized = refl

normalize_percent_encoded-IsEncoded_example :
    normalize_percent_encoded path_segment (codes "Ab%C3") ≡ ok (codes "Ab%C3")
normalize_percent_encoded-IsEncoded_example =
    normalize_percent_encoded-IsEncoded path_segment (codes "%41b%c3") (codes "Ab%C3")
      letters_normalized

from_config-IsPolicy_example : IsPolicy policy
from_config-IsPolicy_example = from_config-IsPolicy url_config policy policy_made

resolve_and_authorize-IsStep_example :
    IsNormalized release_url × IsStep policy manifest_url release_url
resolve_and_authorize-IsStep_example =
    resolve_and_authorize-IsStep policy manifest_url (codes "v2/") release_url
      ((from_config-IsPolicy url_config policy policy_made).initial) to_release

release_step : authorize_transition policy manifest_url release_url ≡ ok tt
unfolding bytes_eq bytes_compare starts_with path_matches_boundary valid_scheme scheme_of
    file_url_to_path matches_network_scope matches_local_scope network_scopes from_config
    authorize_url authorize authorize_transition resolve_and_authorize
release_step = refl

abbrev release_chain : Chain policy manifest_url release_url
release_chain = step manifest_url release_url release_url release_step (stop release_url)

Chain-Follows_example :
    (allows policy.mode release_url ≡ true) × Follows manifest_url.scheme release_url.scheme
Chain-Follows_example =
    Chain-Follows policy manifest_url release_url release_chain
      ((from_config-IsPolicy url_config policy policy_made).allowed)

public_host : normalize_ipv4_host (codes "93.184.216.34") ≡ ok (codes "93.184.216.34", false)
unfolding split has_leading_zero decimal_text ipv4_text normalize_ipv4_host octet_digits octet
    four_octets parse_canonical_ipv4 is_public_ipv4
public_host = refl

normalize_ipv4_host-ranges_example :
    (ip : Ipv4) × IsAddress ip
    × (codes "93.184.216.34" ≡ ipv4_text ip)
    × (any_of (is_within (number ip)) reserved_ranges ≡ false)
normalize_ipv4_host-ranges_example =
    normalize_ipv4_host-ranges (codes "93.184.216.34") (codes "93.184.216.34") false public_host
