-- ===== src/Resolver.antt =====
-- crates/lar-resolver: the lockfile, its verification, and the resolution of a manifest.
pub mod Locked
pub mod Lock
pub mod Cycle
pub mod Requirement
pub mod Provider
pub mod Resolve
mod Tests
