-- ===== src/Wayland.antt =====
-- crates/wayland-adapter: the state of the Wayland adapter, its sink, and what it does with the events
-- of the compositor.
pub mod Frame
pub mod Repeat
pub mod State
pub mod Sink
pub mod Context
pub mod Adapter
pub mod Dispatch
pub mod Echo
pub mod Typed
mod Examples
