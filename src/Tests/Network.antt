-- ===== src/Tests/Network.antt =====
-- A plan whose URLs come from the policy of the site.
use lib_auto_updater.ManagedPath.{
  to_upper, to_lower, has_drive_prefix, is_windows_device_name, is_unsafe_portable_segment,
  is_updater_state_segment, validate_managed_path, validate_managed_target_path,
  managed_path_lookup_key, insert_key, sort_keys, is_descendant_key, any_neighbours_conflict,
  lookup_keys, validate_managed_target_paths, safe_join, path_allowed_by_whitelist,
}
use lib_auto_updater.UrlPolicy.{
  matches_network_scope, matches_local_scope, network_scopes, from_config, authorize_url, authorize,
  authorize_transition, resolve_and_authorize,
}
use lib_auto_updater.Url.Resolve.{
  through_last_slash, merged_path, resolve_query, resolve_path, resolve_url_reference,
  encode_segment, is_unsafe_segment, append_encoded_path, file_url_to_path,
}
use lib_auto_updater.Url.Address.{
  octet_digits, octet, four_octets, parse_canonical_ipv4, is_public_ipv4,
}
use lib_auto_updater.Url.Host.{
  port_digits, parse_port, drop_last, ends_with_text, ipv4_text, normalize_ipv4_host, is_dns_label,
  is_local_host, is_numeric_looking, normalize_dns_host, normalize_named_host, normalize_host,
}
use lib_auto_updater.Url.Segments.{pop_back, place_segment, normalize_segments, normalize_path}
use lib_auto_updater.Url.Chars.{
  is_control_or_space, is_control, hex_value, upper_hex, is_unreserved, is_sub_delimiter,
  is_allowed_raw_character, lower_ascii, is_forbidden, raw_character, is_refused_escape,
  decoded_escape, escape, normalize_percent_encoded, contains_encoded_dot,
}
use lib_auto_updater.Url.{
  scheme_name, default_port, serialize, path_matches_boundary, valid_scheme, scheme_of,
  cut_authority, split_authority, parse_authority, parse_query, parse_hierarchy, parse_absolute_url,
}
use lib_auto_updater.Version.{
  has_leading_zero, decimal_text, compare_prerelease, version_eq, version_lt,
}
use lib_auto_updater.Base.Text.Split.{cut, split, join}
use lib_auto_updater.Base.{◌≡◌, refl, some, List, [], ◌∷◌, arith}
use lib_auto_updater.Base.Text.{bytes_eq, bytes_compare, starts_with, codes}
use lib_auto_updater.Error.{ok}
use lib_auto_updater.ManagedPath.Segments.{validate_managed_path_iff}
use lib_auto_updater.ManagedPath.Targets.{validate_managed_target_path_iff}
use lib_auto_updater.Planner.Types.{
  parse_optional_timestamp, downgrade_baseline, find_local, check_snapshot, ManifestEnvelope,
  UpdateDecision, ApplyOperation, PlannedDownload,
}
use lib_auto_updater.Planner.Network.{
  url_rules, IsBase, IsPlannable, IsSafeDecision, plan_files-ok, plan_update-IsSafe,
}
use lib_auto_updater.Planner.{
  validate_manifest_against_config, plan_download, check_target, plan_file, plan_removes,
  plan_changes, plan_update, plan_files,
}
use lib_auto_updater.Tests.Plans.{envelope, config, snapshot, decision, now, version_of, new_file}
use lib_auto_updater.Tests.Urls.{url_config, policy, scope, scope-IsNormalized}

abbrev site_envelope : ManifestEnvelope
site_envelope = record envelope {
  source_url = codes "https://example.com/app/m.json";
  artifact_base_url = codes "https://example.com/app/";
}

abbrev site_decision : UpdateDecision
site_decision = record decision {
  downloads =
      record {
        file = new_file;
        url = codes "https://example.com/app/b";
        staging_path = codes "t" ∷ codes "b" ∷ [];
      }
      ∷ [];
}

planned_on_site :
    plan_update (url_rules url_config) config site_envelope snapshot (some (version_of 1)) now
    ≡ ok site_decision
unfolding any_neighbours_conflict authorize authorize_transition authorize_url bytes_compare
    bytes_eq check_snapshot check_target compare_prerelease contains_encoded_dot cut cut_authority
    decimal_text decoded_escape default_port downgrade_baseline drop_last encode_segment
    ends_with_text escape file_url_to_path find_local four_octets from_config has_drive_prefix
    has_leading_zero hex_value insert_key ipv4_text is_allowed_raw_character is_control
    is_control_or_space is_descendant_key is_dns_label is_forbidden is_local_host is_numeric_looking
    is_public_ipv4 is_refused_escape is_sub_delimiter is_unreserved is_unsafe_portable_segment
    is_updater_state_segment is_windows_device_name join lookup_keys lower_ascii
    managed_path_lookup_key matches_local_scope matches_network_scope merged_path network_scopes
    normalize_dns_host normalize_host normalize_ipv4_host normalize_named_host normalize_path
    normalize_percent_encoded normalize_segments octet octet_digits parse_absolute_url
    parse_authority parse_canonical_ipv4 parse_hierarchy parse_optional_timestamp parse_port
    parse_query path_allowed_by_whitelist path_matches_boundary place_segment plan_changes
    plan_download plan_file plan_files plan_removes plan_update pop_back port_digits raw_character
    resolve_and_authorize resolve_path resolve_url_reference safe_join scheme_name scheme_of
    serialize sort_keys split split_authority starts_with through_last_slash to_lower to_upper
    upper_hex valid_scheme validate_managed_path validate_managed_target_path
    validate_managed_target_paths validate_manifest_against_config version_eq version_lt
    append_encoded_path is_unsafe_segment resolve_query
planned_on_site = refl

plan_update-IsSafe_example :
    IsSafeDecision url_config config site_envelope snapshot (some (version_of 1)) now site_decision
plan_update-IsSafe_example =
    plan_update-IsSafe url_config config site_envelope snapshot (some (version_of 1)) now
      site_decision planned_on_site

scope-IsBase : IsBase policy scope
unfolding matches_network_scope path_matches_boundary bytes_eq starts_with
scope-IsBase = record {
  normalized = scope-IsNormalized;
  allowed = refl;
  directory = refl;
  no_query = refl;
}

target_valid : validate_managed_target_path (codes "c") ≡ ok tt
unfolding bytes_eq cut split starts_with validate_managed_target_path validate_managed_path
    has_drive_prefix is_unsafe_portable_segment is_windows_device_name to_upper to_lower
    is_updater_state_segment path_allowed_by_whitelist
target_valid = refl

path_valid : validate_managed_path (codes "b") ≡ ok tt
unfolding bytes_eq cut split starts_with validate_managed_target_path validate_managed_path
    has_drive_prefix is_unsafe_portable_segment is_windows_device_name to_upper to_lower
    is_updater_state_segment path_allowed_by_whitelist
path_valid = refl

new_file-IsPlannable : IsPlannable config new_file
unfolding path_allowed_by_whitelist
new_file-IsPlannable = record {
  target = record {
    target = (validate_managed_target_path_iff (codes "c")).0 target_valid;
    listed = refl;
  };
  managed = (validate_managed_path_iff (codes "b")).0 path_valid;
  small = ground arith;
}

plan_files-ok_example :
    (r : List PlannedDownload × List ApplyOperation) × (plan_files
        (url_rules url_config)
        config
        policy
        scope
        snapshot
        (new_file ∷ [])
      ≡ ok r)
plan_files-ok_example =
    plan_files-ok url_config config policy scope scope-IsBase snapshot (new_file ∷ [])
      (new_file-IsPlannable, tt)
