-- ===== src/Runtime.antt =====
-- crates/lar-runtime: directories composed from the packages of a lockfile.
pub mod Compose
pub mod Build
mod Tests
