-- ===== src/Package.antt =====
-- crates/lar-package: package ids and manifests.
pub mod Error
pub mod Id
pub mod Manifest
mod Tests
