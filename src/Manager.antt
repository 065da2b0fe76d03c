-- ===== src/Manager.antt =====
-- crates/lar-manager: installed applications.
pub mod Record
pub mod Source
pub mod Home
pub mod Action
pub mod Installs
pub mod Replace
pub mod Parts
pub mod Root
pub mod Host
pub mod Pins
pub mod Compose
pub mod Ops
pub mod Healthy
mod Tests
