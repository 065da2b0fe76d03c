-- ===== src/Repo.antt =====
-- crates/lar-repo: package sources, trusted keys, advisories, the index, and fetching.
pub mod Sources
pub mod Error
pub mod Trust
pub mod Index
pub mod Advisories
pub mod Fetch
pub mod Versions
pub mod Audit
mod Tests
