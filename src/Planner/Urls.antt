-- ===== src/Planner/Urls.antt =====
-- The interface of src/UrlPolicy.cpp and src/util/UrlUtil.cpp to the planner.
use lib_auto_updater.Base.Text.{Bytes}
use lib_auto_updater.Error.{Result}
pub use lib_auto_updater.Url.{UrlScheme, http, https, file, ParsedUrl}

-- A policy made from the configuration, and what it authorizes.
pub record UrlRules : Type 1 where
  pub Policy : Type 0
  pub policy : Result Policy
  pub authorize : Policy → Bytes → Result ParsedUrl
  pub authorize_transition : Policy → ParsedUrl → ParsedUrl → Result (Unit {0})
  pub append_encoded_path : ParsedUrl → Bytes → Result ParsedUrl
