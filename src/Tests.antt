-- ===== src/Tests.antt =====
-- Concrete runs of the modelled code, and the theorems applied to them.
mod Versions
mod Urls
mod Paths
mod Dates
mod Limits
mod Manifests
mod Releases
mod Plans
mod Applies
mod Network
mod Snapshots
