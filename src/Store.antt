-- ===== src/Store.antt =====
-- crates/lar-store: the side-by-side package store and its install pins.
pub mod World
pub mod Pins
pub mod Read
pub mod Change
mod Tests
