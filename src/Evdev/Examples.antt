-- ===== src/Evdev/Examples.antt =====
-- The theorem on crates/evdev-adapter at a concrete input, with the daemon as the handler.
use daklak_rs.Prelude.{ℕ, ◌≡◌, refl, Bool, true, false, List, [], ◌∷◌, some, none}
use daklak_rs.Text.{Text}
use daklak_rs.Strategy.Types.{forward_key}
use daklak_rs.Engine.Toy.{toy_engine}
use daklak_rs.Engine.Context.{InputMethod}
use daklak_rs.Composer.State
use daklak_rs.Keymap.Toy.{toy_xkb}
use daklak_rs.Daemon.{Daemon, telex}
use daklak_rs.Daemon.Evdev.{evdev_handler}
use daklak_rs.Evdev.{EvdevAdapter, InputEvent, no_keys, prepare}
use daklak_rs.Evdev.Shrinks.{device, IsTracked}
use daklak_rs.Evdev.Events.{process_event, run}
use daklak_rs.Evdev.Output.{emit_string}
use daklak_rs.Evdev.RightShift.{press_of, emit_string-right_shift}
use daklak_rs.Keymap.{char_to_emit}
use daklak_rs.Keymap.Inventory.{safe_keycodes}
use daklak_rs.Evdev.Stuck.{release_of, run-release}

abbrev session : Daemon Text
session = record {
  config = record { method = telex; modern_style = true; bracket_shortcuts = false };
  router = record {
    modifiers = 0;
    current_active = true;
    synthetic_active = true;
    composer = some (State.new toy_engine InputMethod.telex forward_key false 100000);
    focused_app_id = none;
    last_enabled = true;
  };
  enabled = true;
  suspended = false;
  last_config = record { method = telex; modern_style = true; enable_evdev_grab = true };
}

abbrev fresh : EvdevAdapter (ℕ → Bool) Bool
fresh = prepare no_keys true

fresh-IsTracked : IsTracked fresh
unfolding prepare
fresh-IsTracked k plain down = down

abbrev key : ℕ → ℕ → InputEvent
key code value = record { is_key = true; code = code; value = value }

-- Shift, a letter and its repeat, a Backspace.
abbrev typed : List (ℕ × InputEvent)
typed = (100100, key 42 1) ∷ (100200, key 30 1) ∷ (100300, key 30 2) ∷ (100400, key 14 1) ∷ []

run-release_example :
    let x = run device toy_xkb (evdev_handler toy_engine) typed (session, fresh) in
    (process_event device toy_xkb (evdev_handler toy_engine) 100500 (release_of 30) x).1.output 30
    ≡ false
run-release_example =
    run-release toy_xkb (evdev_handler toy_engine) typed 100500 30 session fresh fresh-IsTracked

-- ế, on a key of the base level.
emit_string-right_shift_example :
    let h = evdev_handler toy_engine in
    let (d', shifted) = process_event device toy_xkb h 100100 (press_of 54) (session, fresh) in
    let (_, let_go) =
      process_event device toy_xkb h 100100
        (release_of 54)
        (d', emit_string device (0x1ebf ∷ []) shifted) in
    let_go.output 42 ≡ true
unfolding prepare char_to_emit safe_keycodes
emit_string-right_shift_example =
    emit_string-right_shift toy_xkb (evdev_handler toy_engine) 100100 0x1ebf
      (record { keycode = 94; mods = 0 }) session fresh refl refl refl
