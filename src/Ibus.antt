-- ===== src/Ibus.antt =====
-- crates/ibus-adapter: the translation of keys, the buffered sink, and the engine that IBus calls.
pub mod Keyval
pub mod Sink
pub mod Engine
pub mod Drain
mod Examples
