-- ===== src/UrlPolicy.antt =====
-- src/UrlPolicy.cpp: which URLs the configuration allows, and which steps from one to another, as
-- built where paths have no drives.
pub mod Chain
pub mod Config
use lib_auto_updater.Base.{
  Bool, true, false, not, ◌&&◌, ◌||◌, List, [], ◌∷◌, is_empty, any_of, if◌then◌else◌,
}
use lib_auto_updater.Base.Text.{Bytes}
use lib_auto_updater.Error.{
  Result, ok, fail, ◌>>=◌, ◌>>◌, ErrorCode, reject_if, invalid_config, security_policy_violation,
}
use lib_auto_updater.Url.{
  UrlScheme, http, https, file, ParsedUrl, is_file, scheme_eq, parse_absolute_url,
  path_matches_boundary,
}
use lib_auto_updater.Url.Resolve.{resolve_url_reference, directory_url, same_origin}

-- The fields of Config that the policy is made from.
pub record UrlConfig : Type 0 where
  pub manifest_url : Bytes
  pub allow_local_file_urls : Bool
  pub allowed_base_urls : List Bytes

-- The mode, with what each mode keeps.
pub data Mode : Type 0 where
  local_file : ParsedUrl → Mode
  network : List ParsedUrl → Mode

pub record UrlPolicy : Type 0 where
  pub mode : Mode
  pub initial : ParsedUrl

-- The error of a URL in the configuration.
abbrev or_invalid_config {ℓ} : {A : Type ℓ} → Result A → Result A
or_invalid_config (ok a) = ok a
or_invalid_config (fail e) = fail invalid_config

unfoldable pub matches_network_scope : List ParsedUrl → ParsedUrl → Bool
matches_network_scope scopes url =
    not (is_file url.scheme)
    && any_of (λ scope. same_origin url scope && path_matches_boundary url.path scope.path) scopes

unfoldable pub matches_local_scope : ParsedUrl → ParsedUrl → Bool
matches_local_scope local_root url =
    is_file url.scheme && path_matches_boundary url.path local_root.path

unfoldable pub network_scopes : List Bytes → Result (List ParsedUrl)
network_scopes [] = ok []
network_scopes (configured ∷ rest) = do
  scope ← or_invalid_config (parse_absolute_url configured)
  reject_if (is_file scope.scheme || scope.has_query) invalid_config
  scopes ← network_scopes rest
  ok (scope ∷ scopes)

unfoldable pub from_config : UrlConfig → Result UrlPolicy
from_config config = do
  initial ← or_invalid_config (parse_absolute_url config.manifest_url)
  if is_file initial.scheme
      then (do
        reject_if (not config.allow_local_file_urls) invalid_config
        ok (record { mode = local_file (directory_url initial); initial = initial }))
      else (do
        reject_if (is_empty config.allowed_base_urls) invalid_config
        scopes ← network_scopes config.allowed_base_urls
        reject_if (not (matches_network_scope scopes initial)) invalid_config
        ok (record { mode = network scopes; initial = initial }))

abbrev pub allows : Mode → ParsedUrl → Bool
allows (local_file local_root) url = matches_local_scope local_root url
allows (network scopes) url = matches_network_scope scopes url

-- `authorize` of a parsed URL.
unfoldable pub authorize_url : UrlPolicy → ParsedUrl → Result (Unit {0})
authorize_url policy url = reject_if (not (allows policy.mode url)) security_policy_violation

unfoldable pub authorize : UrlPolicy → Bytes → Result ParsedUrl
authorize policy text = do url ← parse_absolute_url text; authorize_url policy url; ok url

abbrev pub is_downgrade : UrlScheme → UrlScheme → Bool
is_downgrade https http = true
is_downgrade _ _ = false

abbrev pub kinds_differ : Bool → Bool → Bool
kinds_differ a b = (a && not b) || (not a && b)

unfoldable pub authorize_transition : UrlPolicy → ParsedUrl → ParsedUrl → Result (Unit {0})
authorize_transition policy from to = do
  authorize_url policy from
  authorize_url policy to
  reject_if (is_downgrade from.scheme to.scheme) security_policy_violation
  reject_if (kinds_differ (is_file from.scheme) (is_file to.scheme)) security_policy_violation

unfoldable pub resolve_and_authorize : UrlPolicy → ParsedUrl → Bytes → Result ParsedUrl
resolve_and_authorize policy base reference = do
  authorize_url policy base
  resolved ← resolve_url_reference base reference
  authorize_transition policy base resolved
  ok resolved
