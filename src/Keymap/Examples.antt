-- ===== src/Keymap/Examples.antt =====
-- The theorems on crates/keymap at concrete inputs.
use daklak_rs.Prelude.{ℕ, ◌+◌, ◌≡◌, ◌≢◌, ◌≤◌, refl, true, some}
use daklak_rs.Keymap.{EmitSpec, char_to_emit, panic}
use daklak_rs.Keymap.Xkb.{char_to_keycode, Finds, char_to_keycode-Finds}
use daklak_rs.Keymap.Toy.{toy_xkb}
use daklak_rs.Keymap.Inventory.{safe_keycodes, level5_shift_evdev}
use daklak_rs.Keymap.Layout.{typed}
use daklak_rs.Keymap.RoundTrip.{char_to_emit-typed, char_to_emit-ne-panic}

-- ế.
abbrev e_acute : ℕ
e_acute = 0x1ebf

abbrev key : EmitSpec
key = record { keycode = 94; mods = 0 }

char_to_emit-typed_example :
    (typed key.keycode key.mods ≡ some e_acute)
    × (key.keycode + 8 ≤ 255)
    × (key.keycode ≢ level5_shift_evdev)
unfolding char_to_emit safe_keycodes
char_to_emit-typed_example = char_to_emit-typed e_acute key refl

char_to_emit-ne-panic_example : char_to_emit e_acute ≢ panic
char_to_emit-ne-panic_example = char_to_emit-ne-panic e_acute

-- The key of the letter a.
char_to_keycode-Finds_example : Finds toy_xkb true b'a' 8 256 (char_to_keycode toy_xkb true b'a')
char_to_keycode-Finds_example = char_to_keycode-Finds toy_xkb true b'a' (λ e. cc)
