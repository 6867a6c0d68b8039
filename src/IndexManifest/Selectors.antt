-- ===== src/IndexManifest/Selectors.antt =====
-- The targets of an index manifest, read in order, have pairwise different selectors.
use lib_auto_updater.Base.{
  subst, ap, ◌≡◌, ◌∙◌, false, List, [], ◌∷◌, ◌++◌, arith, All, All-map, All-append, any_of,
  any_of-false, is_empty,
}
use lib_auto_updater.Base.Text.{codes, bytes_eq_turn}
use lib_auto_updater.Error.{
  ok, ok_inj, >>=-eq-ok, reject_if, reject_if-eq-ok, manifest_parse_failed,
}
use lib_auto_updater.Json.{Json, as_array?, as_object?, get}
use lib_auto_updater.ManagedPath.Sorted.{AllPairs, snoc-AllPairs}
use lib_auto_updater.Manifest.{check_schema}
use lib_auto_updater.Manifest.Fields.{
  wanted, required_string, optional_string, validate_optional_timestamp, require_only_keys,
}
use lib_auto_updater.IndexManifest.{
  IndexManifest, IndexTarget, same_selector, parse_target, parse_targets, index_of_json,
}

abbrev pub HasUrl : IndexTarget → Type 0
HasUrl t = is_empty t.manifest_url ≡ false

abbrev pub OtherSelector : IndexTarget → IndexTarget → Type 0
OtherSelector a b = same_selector a b ≡ false

same_selector_turn : (a b : IndexTarget) → same_selector a b ≡ same_selector b a
same_selector_turn a b =
    ground (arith, bytes_eq_turn a.platform b.platform, bytes_eq_turn a.arch b.arch)

parse_target-HasUrl : (j : Json) (t : IndexTarget) → parse_target j ≡ ok t → HasUrl t
unfolding parse_target
parse_target-HasUrl j t h =
    let (u, e, h1) = >>=-eq-ok (wanted (as_object? j)) _ h in
    let (u1, e1, h2) = >>=-eq-ok (require_only_keys j _) _ h1 in
    let (p, e2, h3) = >>=-eq-ok (optional_string j _) _ h2 in
    let (a, e3, h4) = >>=-eq-ok (optional_string j _) _ h3 in
    let (url, e4, h5) = >>=-eq-ok (required_string j _) _ h4 in
    let (u5, e5, h6) = >>=-eq-ok (reject_if (is_empty url) manifest_parse_failed) _ h5 in
    subst HasUrl (ok_inj h6) (reject_if-eq-ok (is_empty url) manifest_parse_failed e5)

parse_targets-selectors :
    (seen : List IndexTarget) (items : List Json) (targets : List IndexTarget)
    → parse_targets seen items ≡ ok targets
    → AllPairs OtherSelector seen
    → All HasUrl seen
    → AllPairs OtherSelector targets × All HasUrl targets
unfolding parse_targets
parse_targets-selectors seen [] targets h other urls =
    subst (λ ts. AllPairs OtherSelector ts × All HasUrl ts) (ok_inj h) (other, urls)
parse_targets-selectors seen (i ∷ items) targets h other urls =
    let (t, e, h1) = >>=-eq-ok (parse_target i) _ h in
    let (u, e1, h2) =
      >>=-eq-ok (reject_if (any_of (same_selector t) seen) manifest_parse_failed) _ h1 in
    let fresh =
      any_of-false (same_selector t) seen
        (reject_if-eq-ok (any_of (same_selector t) seen) manifest_parse_failed e1) in
    parse_targets-selectors (seen ++ t ∷ []) items targets h2
      (snoc-AllPairs OtherSelector seen t other
        (All-map (λ s d. same_selector_turn s t ∙ d) seen fresh))
      (All-append HasUrl seen (t ∷ []) urls (parse_target-HasUrl i t e, tt))

-- An index manifest that is accepted has no two targets for one platform and architecture, and every
-- target has a URL.
pub index_of_json-selectors :
    (json : Json) (m : IndexManifest)
    → index_of_json json ≡ ok m
    → AllPairs OtherSelector m.targets × All HasUrl m.targets
unfolding index_of_json
index_of_json-selectors json m h =
    let (u, e, h1) = >>=-eq-ok (check_schema json) _ h in
    let (u1, e1, h2) = >>=-eq-ok (require_only_keys json _) _ h1 in
    let (a, e2, h3) = >>=-eq-ok (optional_string json _) _ h2 in
    let (c, e3, h4) = >>=-eq-ok (optional_string json _) _ h3 in
    let (g, e4, h5) = >>=-eq-ok (optional_string json _) _ h4 in
    let (u5, e5, h6) = >>=-eq-ok (validate_optional_timestamp json _) _ h5 in
    let (v, e6, h7) = >>=-eq-ok (wanted (get json (codes "targets"))) _ h6 in
    let (items, e7, h8) = >>=-eq-ok (wanted (as_array? v)) _ h7 in
    let (ts, e8, h9) = >>=-eq-ok (parse_targets [] items) _ h8 in
    let found = parse_targets-selectors [] items ts e8 tt tt in
    subst (λ ts. AllPairs OtherSelector ts × All HasUrl ts) (ap (λ n. n.targets) (ok_inj h9)) found
