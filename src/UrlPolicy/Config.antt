-- ===== src/UrlPolicy/Config.antt =====
-- The policy that the configuration gives.
use lib_auto_updater.Base.{
  ◌≡◌, refl, subst, true, false, not, ◌||◌, List, [], ◌∷◌, ◌++◌, arith, is_empty, All, Bool-cases,
  inl, inr,
}
use lib_auto_updater.Base.Text.{Bytes, codes, bytes_eq, bytes_eq_iff, starts_with}
use lib_auto_updater.Error.{
  Result, ok, fail, ok_inj, >>=-eq-ok, reject_if, reject_if-eq-ok, invalid_config,
}
use lib_auto_updater.ManagedPath.Segments.{last?-append}
use lib_auto_updater.Url.{ParsedUrl, is_file, parse_absolute_url, path_matches_boundary}
use lib_auto_updater.Url.Resolve.{directory_url, through_last_slash, resolve_url_reference}
use lib_auto_updater.Url.Clean.{IsClean}
use lib_auto_updater.Url.Normalized.{IsNormalized, parse_absolute_url-IsNormalized}
use lib_auto_updater.Url.Kept.{
  IsCut, through_last_slash-IsCut, through_last_slash-IsClean, directory_url-path,
  directory_url-IsNormalized, resolve_url_reference-IsNormalized,
}
use lib_auto_updater.UrlPolicy.{
  UrlConfig, UrlPolicy, Mode, local_file, network, or_invalid_config, network_scopes,
  matches_network_scope, matches_local_scope, from_config, allows, authorize_url, authorize,
  authorize_transition, resolve_and_authorize,
}
use lib_auto_updater.UrlPolicy.Chain.{IsStep, authorize_url-eq-ok, authorize_transition-eq-ok}

or_invalid_config-eq-ok {ℓ} :
    {A : Type ℓ} → (r : Result A) (a : A) → or_invalid_config r ≡ ok a → r ≡ ok a
or_invalid_config-eq-ok (ok b) a h = h
or_invalid_config-eq-ok (fail e) a h = cc

pub record IsScope (scope : ParsedUrl) : Type 0 where
  pub normalized : IsNormalized scope
  pub remote : is_file scope.scheme ≡ false
  pub no_query : scope.has_query ≡ false

abbrev pub IsMode : Mode → Type 0
IsMode (local_file root) = IsNormalized root × (is_file root.scheme ≡ true)
IsMode (network scopes) = All IsScope scopes

-- A policy that its own manifest URL conforms to.
pub record IsPolicy (policy : UrlPolicy) : Type 0 where
  pub initial : IsNormalized policy.initial
  pub mode : IsMode policy.mode
  pub allowed : allows policy.mode policy.initial ≡ true

network_scopes-IsScope :
    (texts : List Bytes) (scopes : List ParsedUrl)
    → network_scopes texts ≡ ok scopes
    → All IsScope scopes
unfolding network_scopes
network_scopes-IsScope [] scopes h = subst (All IsScope) (ok_inj h) tt
network_scopes-IsScope (t ∷ ts) scopes h =
    let (scope, e, h1) = >>=-eq-ok (or_invalid_config (parse_absolute_url t)) _ h in
    let (u, e1, h2) =
      >>=-eq-ok (reject_if (is_file scope.scheme || scope.has_query) invalid_config) _ h1 in
    let (rest, e2, h3) = >>=-eq-ok (network_scopes ts) _ h2 in
    let none_of = reject_if-eq-ok (is_file scope.scheme || scope.has_query) invalid_config e1 in
    subst (All IsScope) (ok_inj h3) (
      record {
        normalized =
            parse_absolute_url-IsNormalized t scope
              (or_invalid_config-eq-ok (parse_absolute_url t) scope e);
        remote = ground arith;
        no_query = ground arith;
      },
      network_scopes-IsScope ts rest e2,
    )

starts_with-same : (p e : Bytes) → starts_with (p ++ e) p ≡ true
unfolding starts_with
starts_with-same [] e = refl
starts_with-same (c ∷ p) e = ground (arith, starts_with-same p e)

starts_with-cut : (p q : Bytes) → starts_with (p ++ b'/' ∷ q) (p ++ b'/' ∷ []) ≡ true
unfolding starts_with
starts_with-cut [] q = ground arith
starts_with-cut (c ∷ p) q = ground (arith, starts_with-cut p q)

cut-matches :
    (path front : Bytes)
    → IsClean front
    → IsCut path front
    → path_matches_boundary path front ≡ true
unfolding path_matches_boundary
cut-matches path front k (inl e) = absurd (rw e at k)
cut-matches path front k (inr (p, q, e, f)) =
    rw (e, f) (ground (arith, starts_with-cut p q, last?-append p b'/', root_front))
  where
    root_front :
        bytes_eq (p ++ b'/' ∷ []) (codes "/") ≡ true
        → starts_with (p ++ b'/' ∷ q) (codes "/") ≡ true
    root_front h =
        subst (λ x. starts_with (p ++ b'/' ∷ q) x ≡ true) ((bytes_eq_iff _ (codes "/")).0 h)
          (starts_with-cut p q)

local_url-IsPolicy :
    (initial : ParsedUrl)
    → IsNormalized initial
    → is_file initial.scheme ≡ true
    → IsPolicy (record { mode = local_file (directory_url initial); initial = initial })
unfolding matches_local_scope directory_url
local_url-IsPolicy initial h local =
    let front = through_last_slash initial.path in
    record {
      initial = h;
      mode = (directory_url-IsNormalized initial h, local);
      allowed =
          rw (local, directory_url-path initial h.clean)
            (cut-matches initial.path front (through_last_slash-IsClean initial.path h.clean)
              (through_last_slash-IsCut initial.path));
    }

-- A policy is made of normalized URLs, and it allows the manifest URL that it was made for.
pub from_config-IsPolicy :
    (config : UrlConfig) (policy : UrlPolicy) → from_config config ≡ ok policy → IsPolicy policy
unfolding from_config
from_config-IsPolicy config policy h =
    let (initial, e, h1) =
      >>=-eq-ok (or_invalid_config (parse_absolute_url config.manifest_url)) _ h in
    let normal =
      parse_absolute_url-IsNormalized config.manifest_url initial
        (or_invalid_config-eq-ok (parse_absolute_url config.manifest_url) initial e) in
    elim (Bool-cases (is_file initial.scheme)) [
      | inl local ↦
          let (u, e1, h2) =
            >>=-eq-ok (reject_if (not config.allow_local_file_urls) invalid_config) _
              (rw local at h1) in
          subst IsPolicy (ok_inj h2) (local_url-IsPolicy initial normal local)
      | inr remote ↦
          let (u, e1, h2) =
            >>=-eq-ok (reject_if (is_empty config.allowed_base_urls) invalid_config) _
              (rw remote at h1) in
          let (scopes, e2, h3) = >>=-eq-ok (network_scopes config.allowed_base_urls) _ h2 in
          let (v, e3, h4) =
            >>=-eq-ok (reject_if (not (matches_network_scope scopes initial)) invalid_config) _
              h3 in
          let matched =
            reject_if-eq-ok (not (matches_network_scope scopes initial)) invalid_config e3 in
          subst IsPolicy (ok_inj h4) (record {
            initial = normal;
            mode = network_scopes-IsScope config.allowed_base_urls scopes e2;
            allowed = ground arith;
          })
    ]

-- A text that the policy authorizes is a normalized URL that it allows.
pub authorize-IsNormalized :
    (policy : UrlPolicy) (text : Bytes) (url : ParsedUrl)
    → authorize policy text ≡ ok url
    → IsNormalized url × (allows policy.mode url ≡ true)
unfolding authorize
authorize-IsNormalized policy text url h =
    let (parsed, e, h1) = >>=-eq-ok (parse_absolute_url text) _ h in
    let (u, e1, h2) = >>=-eq-ok (authorize_url policy parsed) _ h1 in
    subst (λ x. IsNormalized x × (allows policy.mode x ≡ true)) (ok_inj h2)
      (parse_absolute_url-IsNormalized text parsed e, authorize_url-eq-ok policy parsed e1)

-- A reference that is resolved and authorized leads from an allowed URL by an allowed step, and keeps
-- the normal form.
pub resolve_and_authorize-IsStep :
    (policy : UrlPolicy) (base : ParsedUrl) (reference : Bytes) (url : ParsedUrl)
    → IsNormalized base
    → resolve_and_authorize policy base reference ≡ ok url
    → IsNormalized url × IsStep policy base url
unfolding resolve_and_authorize
resolve_and_authorize-IsStep policy base reference url k h =
    let (u, e, h1) = >>=-eq-ok (authorize_url policy base) _ h in
    let (resolved, e1, h2) = >>=-eq-ok (resolve_url_reference base reference) _ h1 in
    let (v, e2, h3) = >>=-eq-ok (authorize_transition policy base resolved) _ h2 in
    subst (λ x. IsNormalized x × IsStep policy base x) (ok_inj h3)
      (
        resolve_url_reference-IsNormalized base reference resolved k e1,
        authorize_transition-eq-ok policy base resolved e2,
      )
