-- ===== src/Composer.antt =====
-- crates/daemon/src/composer.rs.
pub mod Words
pub mod Diff
pub mod Quirks
pub mod Plan
pub mod EditModel
pub mod State
pub mod Keys
pub mod Apply
pub mod Confirm
pub mod Frames
pub mod Ratchet
mod Examples
