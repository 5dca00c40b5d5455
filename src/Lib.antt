-- ===== src/Lib.antt =====
-- A model of daklak, a Vietnamese input method daemon for Linux, with the theorems that make its core correct.
--
-- The program. A transport (Wayland, IBus or evdev) hands each key to the composer, which has the engine
-- process it and decides: the key goes out as it is, or an edit goes out, that many backspaces and then a
-- commit. An edit goes to an output sink by one of two tiers, the text-input protocol's
-- delete_surrounding_text or synthetic Backspace keys; a shadow buffer holds what should stand before the
-- application's cursor, since the protocol counts bytes. Applications report their text in frames: the
-- composer decides which to trust, seeds the engine from the word at the cursor, and finishes with them
-- the edits that it deferred while it did not know where the cursor was. A custom keymap makes every
-- Vietnamese letter a key.
--
-- Where the parts are, and the code that they model:
-- - Prelude: shared names, Boolean tests, lists over the native numbers, fixed-width integers. Text: a text
--   as its list of scalar values, with Rust's byte positions, boundaries and slices. Both are the language's.
-- - Engine (crates/engine/src): Telex, Vni and Viqr are the reversal tables of telex.rs, vni.rs and viqr.rs;
--   Passthrough, Context and State are lib.rs (ascii_passthrough, context_from_surrounding, EngineState);
--   KeyMap is telex_key_map of telex.rs. The third-party vnkey-engine is the record VnkeyEngine, a
--   parameter with no law assumed. State.Gate says what keys show on a screen, step by step.
-- - Strategy (crates/edit-strategy/src): Types is lib.rs and capability.rs, Shadow is shadow.rs, Tiers is
--   surrounding.rs, forward_key.rs and Strategy of lib.rs, over any sink. Client is the specification: an
--   application that honours what the sink sends.
-- - Keymap (crates/keymap/src): Inventory holds the letters and the key codes, Keymap the lookups and the rows
--   of lib.rs. Layout is the specification: what a client types with those rows over the US layout. Xkb is
--   xkb.rs; libxkbcommon is the record Xkbcommon, a parameter with no law assumed.
-- - Emitter (crates/key-emitter/src): Emitter is the trait KeyEmitter of lib.rs and emit_char of
--   emit_char_impl.rs. Client is the specification: an application that drops the press of a key it has down.
-- - Composer (crates/daemon/src): Words, Diff, Plan and EditModel are the pure parts of composer.rs;
--   State is the record Composer and its lifecycle, Keys is feed_key and feed_backspace, Apply is
--   apply_to_sink and its kin, Confirm is confirm_pending_raw_key, Frames is apply_surrounding. Quirks is
--   quirks/firefox.rs and quirks/ibus.rs.
-- - Daemon (crates/daemon/src): handler.rs, with MethodConfig of config.rs and ConfigChange of control.rs;
--   Ibus is its sessions and what the IBus transport calls. Wayland is transport/wayland.rs: Handler is the
--   implementation of the adapter's trait, Lifecycle any sequence of its callbacks and session operations.
-- - Wayland (crates/wayland-adapter/src): Frame is frame.rs with the types of lib.rs, Repeat is ClientRepeat and
--   State the rest of state.rs, Sink is AdapterSink of sink.rs, Context is AdapterCtx and the small steps of
--   lib.rs, Adapter its handlers of keys, frames and modifiers, Dispatch is dispatch.rs and dispatch_v1.rs.
--   A request to the compositor is appended to the list that the state has sent.
-- - Ibus (crates/ibus-adapter/src): Keyval is keyval.rs, Sink is IbusSink of sink.rs, Engine is engine.rs over
--   the trait IbusHandler, with the signals that it emits.
-- - Evdev (crates/evdev-adapter/src/adapter.rs): Evdev is the record EvdevAdapter with the trait EvdevHandler,
--   Output what it sends to the uinput device, Events is process_event and the loop over it. Daemon.Evdev is
--   transport/evdev.rs.
-- - Daemon.Supervisor (crates/daemon/src/transport/supervisor.rs): Supervisor is the record with handle_cmd and
--   resolve_target, and the choice of a backend of backend.rs. Machine is run with its loops as one machine,
--   over a list of events after which the channel of the commands closes. Daemon.Hooks is the setup and the
--   cleanup of evdev_hooks.rs.
--
-- How the code is rendered. A method that changes its object is a function from the record to the record, with
-- what it returns beside it. A cursor is a byte position, as in the code, and u32 arithmetic wraps where
-- the code's `as` casts do. usize is 64 bits wide: the sum backspaces + 1 of surrounding.rs wraps, that of
-- a stashed edit in composer.rs does not, and the theorem that uses it bounds it. The clock is an argument
-- in milliseconds. A key plan, a frame or a decision is a value of a data type with the source's
-- constructors. Every loop is structural but that of the supervisor, which is a number of steps of its
-- machine: Daemon.Supervisor.Ends has how many are enough.
--
-- Whether a flush of the Wayland connection succeeds is a function of the requests sent, a parameter.
--
-- What is left out: log lines; the text of the XKB files around the rows of keysyms; the connection to the
-- compositor and to the bus, and the focus protocols; the search for the evdev devices and the hook
-- scripts; the configuration file, the control socket, the tray and the installation, which are input
-- and output around this core.
pub mod Prelude
pub mod Text
pub mod Emitter
pub mod Wayland
pub mod Ibus
pub mod Evdev
pub mod Engine
pub mod Strategy
pub mod Keymap
pub mod Composer
pub mod Daemon
