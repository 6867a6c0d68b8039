-- ===== src/UrlPolicy/Chain.antt =====
-- Chains of URLs, each authorized from the one before it: a redirect, a release named by an index, a
-- file of a release.
use lib_auto_updater.Base.{◌≡◌, refl, Bool, true, false, not, arith}
use lib_auto_updater.Error.{ok, >>=-eq-ok, reject_if, reject_if-eq-ok, security_policy_violation}
use lib_auto_updater.Url.{UrlScheme, http, https, file, ParsedUrl, is_file}
use lib_auto_updater.UrlPolicy.{
  UrlPolicy, allows, authorize_url, authorize_transition, is_downgrade, kinds_differ,
}

pub record IsStep (policy : UrlPolicy) (from to : ParsedUrl) : Type 0 where
  pub from_allowed : allows policy.mode from ≡ true
  pub to_allowed : allows policy.mode to ≡ true
  pub upgrade : is_downgrade from.scheme to.scheme ≡ false
  pub same_kind : kinds_differ (is_file from.scheme) (is_file to.scheme) ≡ false

pub authorize_url-eq-ok :
    (policy : UrlPolicy) (url : ParsedUrl)
    → authorize_url policy url ≡ ok tt
    → allows policy.mode url ≡ true
unfolding authorize_url
authorize_url-eq-ok policy url h =
    let e = reject_if-eq-ok (not (allows policy.mode url)) security_policy_violation h in
    ground arith

pub authorize_transition-eq-ok :
    (policy : UrlPolicy) (from to : ParsedUrl)
    → authorize_transition policy from to ≡ ok tt
    → IsStep policy from to
unfolding authorize_transition
authorize_transition-eq-ok policy from to h =
    let (u, e, h1) = >>=-eq-ok (authorize_url policy from) _ h in
    let (v, e1, h2) = >>=-eq-ok (authorize_url policy to) _ h1 in
    let (w, e2, h3) =
      >>=-eq-ok (reject_if (is_downgrade from.scheme to.scheme) security_policy_violation) _ h2 in
    record {
      from_allowed = authorize_url-eq-ok policy from e;
      to_allowed = authorize_url-eq-ok policy to e1;
      upgrade = reject_if-eq-ok (is_downgrade from.scheme to.scheme) security_policy_violation e2;
      same_kind =
          reject_if-eq-ok (kinds_differ (is_file from.scheme) (is_file to.scheme))
            security_policy_violation h3;
    }

-- A chain of authorized steps.
pub data Chain (policy : UrlPolicy) : ParsedUrl → ParsedUrl → Type 0 where
  stop : (url : ParsedUrl) → Chain policy url url
  step :
      (from next to : ParsedUrl)
      → authorize_transition policy from next ≡ ok tt
      → Chain policy next to
      → Chain policy from to

-- The scheme stays, or http becomes https.
pub data Follows : UrlScheme → UrlScheme → Type 0 where
  stays : (scheme : UrlScheme) → Follows scheme scheme
  upgrades : Follows http https

step-Follows :
    (a b : UrlScheme)
    → is_downgrade a b ≡ false
    → kinds_differ (is_file a) (is_file b) ≡ false
    → Follows a b
step-Follows http http h k = stays http
step-Follows http https h k = upgrades
step-Follows http file h k = cc
step-Follows https http h k = cc
step-Follows https https h k = stays https
step-Follows https file h k = cc
step-Follows file http h k = cc
step-Follows file https h k = cc
step-Follows file file h k = stays file

Follows-trans : {a b c : UrlScheme} → Follows a b → Follows b c → Follows a c
Follows-trans (stays a) k = k
Follows-trans upgrades (stays b) = upgrades

-- However long the chain is: it ends in a URL that the policy allows if it starts in one, and with
-- the scheme it began with, or with https where it began with http. So https is never left, and files
-- and the network are never mixed.
pub Chain-Follows :
    (policy : UrlPolicy) (from to : ParsedUrl)
    → Chain policy from to
    → allows policy.mode from ≡ true
    → (allows policy.mode to ≡ true) × Follows from.scheme to.scheme
Chain-Follows policy from to (stop url) h = (h, stays url.scheme)
Chain-Follows policy from to (step first next last e rest) h =
    let s = authorize_transition-eq-ok policy first next e in
    let (a, f) = Chain-Follows policy next last rest s.to_allowed in
    (a, Follows-trans (step-Follows first.scheme next.scheme s.upgrade s.same_kind) f)

pub no_downgrade : (scheme : UrlScheme) → is_downgrade scheme scheme ≡ false
no_downgrade http = refl
no_downgrade https = refl
no_downgrade file = refl

pub no_change_of_kind : (b : Bool) → kinds_differ b b ≡ false
no_change_of_kind true = refl
no_change_of_kind false = refl
