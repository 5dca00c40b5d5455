-- ===== src/Composer/Quirks.antt =====
-- crates/daemon/src/quirks: the stale-echo workaround for Firefox, and the echo watchdog for IBus.
pub mod Firefox
pub mod Ibus
