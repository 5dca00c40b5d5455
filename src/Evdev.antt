-- ===== src/Evdev.antt =====
-- `EvdevAdapter` of crates/evdev-adapter/src/adapter.rs: the keys of the grabbed keyboards, over any
-- output, keymap and handler. The search for the devices, the grab itself and the log are left out. A set
-- of keycodes is its characteristic function, the value of an event is its `u32`, and the time of an event
-- is an argument, in milliseconds.
pub mod Output
pub mod Events
pub mod Shrinks
pub mod Stuck
pub mod RightShift
mod Examples
use Prim.Native.Nat.{bit_and, bit_or}
use daklak_rs.Prelude.{
  ℕ, zero, suc, ◌-◌, Bool, true, false, not, ◌&&◌, ◌||◌, List, [], ◌∷◌, ◌++◌, Option, none, some,
  ltb, leb, ◌==◌, if◌then◌else◌, is_empty, length,
}
use daklak_rs.Text.{Text}
use daklak_rs.Strategy.Types.{KeyDecision, consumed, forward_raw}
use daklak_rs.Keymap.{EmitSpec, Emit, panic, absent, emit, char_to_emit}
use daklak_rs.Keymap.Inventory.{mod_shift, mod_level3, mod_level5}
use daklak_rs.Keymap.Xkb.{Xkbcommon, update_modifiers, key_to_char}
use daklak_rs.Emitter.{KeyEmitter}

-- The trait, over the state of the daemon; an operation that reads the clock takes the time first.
pub record EvdevHandler (D : Type 0) : Type 0 where
  pub handle_char : ℕ → ℕ → ℕ → D → D × KeyDecision
  pub handle_backspace : ℕ → D → D × KeyDecision
  pub clear_session : D → D
  pub clear_last_input_char : D → D
  pub full_reset_window : D → D
  pub check_idle_reset_window : ℕ → D → D

pub record EvdevAdapter (S K : Type 0) : Type 0 where
  pub output : S
  pub xkb : K
  pub mod_mask : ℕ
  pub emitted_mods : ℕ
  pub held_physical : ℕ → Bool
  pub forwarded_press : ℕ → Bool
  pub escape_taps : List ℕ
  pub should_exit : Bool

pub record InputEvent : Type 0 where
  pub is_key : Bool
  pub code : ℕ
  pub value : ℕ

abbrev pub no_keys : ℕ → Bool
no_keys k = false

abbrev pub insert_key : ℕ → (ℕ → Bool) → ℕ → Bool
insert_key code set k = k == code || set k

abbrev pub remove_key : ℕ → (ℕ → Bool) → ℕ → Bool
remove_key code set k = not (k == code) && set k

-- `mask & !bits`.
abbrev pub clear_bits : ℕ → ℕ → ℕ
clear_bits mask bits = bit_and mask (0xffffffff - bits)

unfoldable pub mod_bit : ℕ → Option ℕ
mod_bit code =
    if code == 42 || code == 54
    then some 0x01
    else if code == 29 || code == 97
    then some 0x04
    else if code == 56
    then some 0x08
    else if code == 125 || code == 127
    then some 0x40
    else if code == 100
    then some 0x80
    else if code == 92
    then some 0x20
    else none

abbrev pub dance_mask : ℕ
dance_mask = bit_or (bit_or mod_shift mod_level3) mod_level5

-- The taps of the last second, and this one.
unfoldable pub recent_taps : ℕ → List ℕ → List ℕ
recent_taps now [] = now ∷ []
recent_taps now (t ∷ ts) = if ltb (now - t) 1000 then t ∷ recent_taps now ts else recent_taps now ts

module _ {S K : Type 0} where
  -- `prepare`, with the output and the keymap that it opened.
  unfoldable pub prepare : S → K → EvdevAdapter S K
  prepare output xkb = record {
    output = output;
    xkb = xkb;
    mod_mask = 0;
    emitted_mods = 0;
    held_physical = no_keys;
    forwarded_press = no_keys;
    escape_taps = [];
    should_exit = false;
  }

  unfoldable pub shortcut_mods_held : EvdevAdapter S K → Bool
  shortcut_mods_held a = ltb 0 (clear_bits a.mod_mask 0x01)

  -- A press or a release is noted; an autorepeat changes nothing.
  unfoldable pub track_held : ℕ → ℕ → EvdevAdapter S K → EvdevAdapter S K
  track_held code value a =
      if value == 1
      then record a { held_physical = insert_key code a.held_physical }
      else if value == 0
      then record a { held_physical = remove_key code a.held_physical }
      else a
