-- ===== src/Daemon/Evdev.antt =====
-- crates/daemon/src/transport/evdev.rs: `Daemon` as the handler of the evdev adapter.
use daklak_rs.Prelude.{ℕ, false, none, if◌then◌else◌}
use daklak_rs.Strategy.Types.{KeyDecision, forward_raw}
use daklak_rs.Engine.State.{VnkeyEngine}
use daklak_rs.Composer.State
use daklak_rs.Evdev.{EvdevHandler}
use daklak_rs.Daemon
use daklak_rs.Daemon.{Daemon, on_composer, sync_enabled_edge}

module _ {E : Type 0} where
  unfoldable pub clear_session : Daemon E → Daemon E
  clear_session d = record d {
    router = record (d.router) {
      current_active = false;
      synthetic_active = false;
      composer = none;
      focused_app_id = none;
    };
  }

  unfoldable pub clear_last_input_char : Daemon E → Daemon E
  unfolding on_composer
  clear_last_input_char d = on_composer (λ w. record w { last_input_char = none }) d

module _ {E : Type 0} (vnkey : VnkeyEngine E) where
  unfoldable pub evdev_char : ℕ → ℕ → Daemon E → Daemon E × KeyDecision
  unfolding sync_enabled_edge Daemon.handle_char
  evdev_char now ch d =
      let (d', enabled) = sync_enabled_edge vnkey d in
      if enabled then Daemon.handle_char vnkey ch now d' else (d', forward_raw)

  unfoldable pub evdev_backspace : ℕ → Daemon E → Daemon E × KeyDecision
  unfolding sync_enabled_edge Daemon.handle_backspace
  evdev_backspace now d =
      let (d', enabled) = sync_enabled_edge vnkey d in
      if enabled then Daemon.handle_backspace vnkey now d' else (d', forward_raw)

  unfoldable pub full_reset_window : Daemon E → Daemon E
  unfolding on_composer State.full_reset
  full_reset_window d = on_composer (State.full_reset vnkey) d

  unfoldable pub check_idle_reset_window : ℕ → Daemon E → Daemon E
  unfolding on_composer State.check_idle_reset
  check_idle_reset_window now d = on_composer (λ w. (State.check_idle_reset vnkey now w).0) d

  -- The implementation of `EvdevHandler`.
  abbrev pub evdev_handler : EvdevHandler (Daemon E)
  unfolding evdev_char evdev_backspace full_reset_window check_idle_reset_window clear_session
      clear_last_input_char
  evdev_handler = record {
    handle_char = λ now code ch d. evdev_char now ch d;
    handle_backspace = evdev_backspace;
    clear_session = clear_session;
    clear_last_input_char = clear_last_input_char;
    full_reset_window = full_reset_window;
    check_idle_reset_window = check_idle_reset_window;
  }
