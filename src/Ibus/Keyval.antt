-- ===== src/Ibus/Keyval.antt =====
-- crates/ibus-adapter/src/keyval.rs: the keys of IBus and those of the daemon.
use Prim.Native.Nat.{bit_and, bit_or}
use daklak_rs.Prelude.{
  ℕ, ◌-◌, ◌/◌, ◌%◌, ◌≡◌, true, ◌&&◌, ◌||◌, Option, none, arith, ltb, leb, ◌==◌, if◌then◌else◌,
  is_some,
}
use daklak_rs.Keymap.Xkb.{from_u32}

abbrev pub xk_backspace : ℕ
xk_backspace = 0xff08

abbrev pub ibus_forward_mask : ℕ
ibus_forward_mask = 0x2000000

abbrev pub ibus_release_mask : ℕ
ibus_release_mask = 0x40000000

-- `keyval & 0xff000000` and `keyval & 0x00ffffff` of a 32-bit number, by arithmetic.
unfoldable pub keyval_to_char : ℕ → Option ℕ
unfolding from_u32
keyval_to_char keyval =
    if keyval / 0x1000000 == 1
    then from_u32 (keyval % 0x1000000)
    else if (leb 0x20 keyval && leb keyval 0xff) || (leb 0x100 keyval && leb keyval 0x2ff)
    then from_u32 keyval
    else none

unfoldable pub x11_to_evdev : ℕ → ℕ
x11_to_evdev x11_kc = x11_kc - 8

unfoldable pub keyval_to_evdev : ℕ → ℕ → ℕ
keyval_to_evdev keyval keycode =
    if keyval == xk_backspace
    then 14
    else if keyval == 0xff51
    then 105
    else if keyval == 0xff53
    then 106
    else if keyval == 0xff52
    then 103
    else if keyval == 0xff54
    then 108
    else if keyval == 0xff50
    then 102
    else if keyval == 0xff57
    then 107
    else if keyval == 0xff55
    then 104
    else if keyval == 0xff56
    then 109
    else keycode

unfoldable pub evdev_to_keyval : ℕ → ℕ
evdev_to_keyval evdev_kc = if evdev_kc == 14 then xk_backspace else 0

-- A bit of `ModifierState` for each of Shift, Control, Mod1 and Mod4.
unfoldable pub ibus_state_to_modifiers : ℕ → ℕ
ibus_state_to_modifiers state =
    let bit = λ (mask m : ℕ). if ltb 0 (bit_and state mask) then m else 0 in
    bit_or (bit_or (bit_or (bit 0x01 0x01) (bit 0x04 0x04)) (bit 0x08 0x08)) (bit 0x40 0x40)

-- For a keysym that is a character, `keyval_to_evdev` passes the keycode through.
pub keyval_to_evdev-keyval_to_char :
    (keyval keycode : ℕ)
    → is_some (keyval_to_char keyval) ≡ true
    → keyval_to_evdev keyval keycode ≡ keycode
unfolding keyval_to_char keyval_to_evdev
keyval_to_evdev-keyval_to_char keyval keycode types = ground arith
