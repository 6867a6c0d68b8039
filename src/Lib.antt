-- ===== src/Lib.antt =====
-- libAutoUpdater, modelled over byte strings and natural numbers.
--
-- The library fetches a release manifest, takes a snapshot of the installed files, plans the
-- downloads and file operations that lead from one to the other, and hands the plan to a separate
-- updater process that carries it out. What is modelled here is the part that decides, from the JSON
-- value of a manifest to the decision with the URLs that it may go to, and of the updater process the
-- checks on its plan and the records of its journal.
--
--   Base           helpers: lists, tests, comparisons, byte strings, splitting, integers
--   Error          include/libAutoUpdater/Error.h and Result.h: `Result` with an error code; the
--                  messages are left out. `>>=` is the early return `if (!x) return fail(x.error())`
--                  and `reject_if` the check `if (refused) return fail(...)`
--   Version        src/Version.cpp: `parse`, `to_string`, `version_eq`, `version_lt`
--   ManagedPath    src/util/PathUtil.cpp: validators of paths, lookup keys, `safe_join`, whitelist
--   Rfc3339        src/util/Rfc3339.cpp: `parse_rfc3339`, and the order of instants; Rfc3339.Civil
--                  and Rfc3339.Format: `civilFromDays` and `formatApplyCompletionTimestamp` of
--                  src/ApplyTransactionReceipt.cpp
--   Json           src/util/Json.h: the values, and the accessors of src/util/Json.cpp
--   Manifest       src/Manifest.cpp, `Manifest::parse`: `manifest_of_json`, from the parsed value on
--   IndexManifest  src/Manifest.cpp, `IndexManifest::parse`: `index_of_json`
--   Snapshot       src/LocalSnapshotBuilder.cpp: `build_local_snapshot`
--   NetworkLimits  src/NetworkLimits.cpp: the limits on a response; header names fold case as in the C
--                  locale
--   Url            src/util/UrlUtil.cpp: parsing and normal forms of URLs, hosts and literal addresses;
--                  Url.Resolve has references, directories and the URLs of artifacts
--   UrlPolicy      src/UrlPolicy.cpp: `from_config`, `authorize`, `authorize_transition`,
--                  `resolve_and_authorize`
--   Planner        src/UpdatePlanner.cpp: `plan_update`
--   ApplyPlan      include/libAutoUpdater/ApplyPlan.h, and validateApplyPlanResources of
--                  updater/ApplyExecutor.cpp up to the plan being printed and parsed again
--   Journal        updater/ApplyJournal.cpp: the states, and the record of an operation between its
--                  struct and its JSON value
--   Tests          concrete runs
--
-- How the parts meet: `manifest_of_json` reads versions with Version.parse, timestamps with
-- `parse_rfc3339` and paths with the validators of ManagedPath; the planner takes the manifest, the
-- snapshot, the last accepted version and the time as arguments, as planUpdate does. It calls the URL
-- functions through the interface `UrlRules`, about which its own theorems assume nothing;
-- Planner.Network fills it with the functions of UrlPolicy and Url.
--
-- Names are those of the source in this language's spelling. A std::string is the list of its bytes,
-- a std::filesystem::path the list of its components, a std::vector or std::map a list, and an int or
-- unsigned integer a natural number with its bounds written out where the code has them; seconds
-- since 1970 are integers, since the years that the parser takes keep them within 64 bits. Loops are
-- recursion on lists. `decimal_text`, which is also std::to_string of the journal, runs for 32 rounds,
-- the size of the buffer in src/Version.cpp, which the 20 digits of a 64-bit number do not fill. The
-- paths of file URLs and their comparison are those of systems without drive letters, where the source
-- compiles the branches for Windows out. Exceptions (memory) are not modelled, nor are log messages.
--
-- Not modelled: the text parsers and printers of src/util/Json.cpp, the network, file system and
-- process back ends of src/default, the downloads, the state store, the receipts, the summary and the
-- store of the apply journal, and the transaction that the updater process runs. The effect of the
-- operations of a plan is stated over a tree from lookup keys to digests.
pub mod Base
pub mod Error
pub mod Version
pub mod ManagedPath
pub mod Rfc3339
pub mod Json
pub mod Manifest
pub mod IndexManifest
pub mod Journal
pub mod ApplyPlan
pub mod Url
pub mod UrlPolicy
pub mod Planner
pub mod Snapshot
pub mod NetworkLimits
pub mod Tests
