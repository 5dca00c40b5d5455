-- ===== src/Engine.antt =====
-- crates/engine/src.
pub mod Arm
pub mod Telex
pub mod Vni
pub mod Viqr
pub mod Passthrough
pub mod Context
pub mod KeyMap
pub mod State
pub mod Toy
mod Examples
