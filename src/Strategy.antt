-- ===== src/Strategy.antt =====
-- crates/edit-strategy/src.
pub mod Types
pub mod Shadow
pub mod Tiers
pub mod Client
mod Examples
