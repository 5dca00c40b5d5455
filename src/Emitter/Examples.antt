-- ===== src/Emitter/Examples.antt =====
-- The theorems on `emit_char` at concrete inputs.
use daklak_rs.Prelude.{ℕ, ◌≡◌, refl, true, false, [], ◌∷◌, ◌++◌, some, none, arith}
use daklak_rs.Keymap.{EmitSpec, char_to_emit}
use daklak_rs.Keymap.Inventory.{vn_lower, vn_upper, mod_shift, safe_keycodes}
use daklak_rs.Keymap.Layout.{typed}
use daklak_rs.Emitter.{ModifierSnapshot, SyntheticMods, EmitCharParams, emit_char, is_held}
use daklak_rs.Emitter.Client.{
  Client, Holds, client_emitter, press_mask, shown, emit_char-press_mask,
}
use daklak_rs.Emitter.Shift.{emit_char-get_elem?}

-- ế, and its capital.
abbrev e_acute : ℕ
e_acute = 0x1ebf

abbrev big_e_acute : ℕ
big_e_acute = 0x1ebe

abbrev key : EmitSpec
key = record { keycode = 94; mods = 0 }

abbrev mods_of : ℕ → ModifierSnapshot
mods_of depressed = record { depressed = depressed; latched = 0; locked = 0; group = 0 }

-- The user holds the very key that the letter is on.
abbrev params : ℕ → EmitCharParams
params depressed = record {
  raw_mods = mods_of depressed;
  held_user_kc = some 94;
  time = 40;
  c = e_acute;
}

abbrev client : ℕ → Client
client depressed = record {
  down = λ k. is_held (some 94) k;
  mods = mods_of depressed;
  text = b'm' ∷ [];
}

abbrev idle : SyntheticMods
idle = record { pending = 0; expected = []; emitted_at = none }

client-Holds : (depressed : ℕ) → Holds (some 94) (client depressed)
client-Holds depressed k h = h

emit_char-press_mask_example :
    let sent = emit_char (client_emitter true) (params 0) 7 (client 0, idle) in
    let c' = sent.0.0 in
    (sent.1 ≡ true)
    × (c'.down 94 ≡ false)
    × (c'.mods ≡ mods_of 0)
    × (c'.text ≡ (b'm' ∷ []) ++ shown (typed 94 (press_mask 0 0)))
unfolding char_to_emit safe_keycodes
emit_char-press_mask_example =
    emit_char-press_mask true (params 0) 7 key (client 0) idle refl (client-Holds 0) refl

emit_char-get_elem?_example :
    (emit_char (client_emitter true) (params mod_shift) 7 (client mod_shift, idle)).0.0.text
    ≡ (b'm' ∷ []) ++ big_e_acute ∷ []
unfolding char_to_emit safe_keycodes vn_lower vn_upper
emit_char-get_elem?_example =
    emit_char-get_elem? true (params mod_shift) 7 24 big_e_acute key (client mod_shift) idle
      (omega arith) refl refl refl (client-Holds mod_shift) refl refl
