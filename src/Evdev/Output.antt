-- ===== src/Evdev/Output.antt =====
-- What `EvdevAdapter` of crates/evdev-adapter/src/adapter.rs sends to the output device.
use Prim.Native.Nat.{bit_and, bit_or}
use daklak_rs.Prelude.{ℕ, zero, suc, not, ◌&&◌, [], ◌∷◌, ltb, ◌==◌, if◌then◌else◌}
use daklak_rs.Text.{Text}
use daklak_rs.Keymap.{EmitSpec, Emit, panic, absent, emit, char_to_emit}
use daklak_rs.Keymap.Inventory.{mod_shift, mod_level3, mod_level5}
use daklak_rs.Emitter.{KeyEmitter}
use daklak_rs.Evdev.{EvdevAdapter, insert_key, remove_key, clear_bits, dance_mask}

module _ {S K : Type 0} (e : KeyEmitter S) where
  unfoldable pub passthrough : ℕ → ℕ → EvdevAdapter S K → EvdevAdapter S K
  passthrough code value a = record a { output = e.emit_key a.output 0 code value }

  unfoldable pub forward_press_raw : ℕ → ℕ → EvdevAdapter S K → EvdevAdapter S K
  unfolding passthrough
  forward_press_raw code value a =
      let newly_forwarded = not (a.forwarded_press code) in
      passthrough code (if newly_forwarded && value == 2 then 1 else value)
        (record a { forwarded_press = insert_key code a.forwarded_press })

  -- One modifier of `set_uinput_mods`: its key, and its bit in both masks.
  unfoldable pub set_mod : ℕ → ℕ → ℕ → ℕ → EvdevAdapter S K → EvdevAdapter S K
  unfolding passthrough
  set_mod code bit target cur a =
      let want = ltb 0 (bit_and target bit) in
      let have = ltb 0 (bit_and cur bit) in
      if want && not have
      then passthrough code 1 a
      else if not want && have
      then passthrough code 0 a
      else a

  unfoldable pub set_uinput_mods : ℕ → EvdevAdapter S K → EvdevAdapter S K
  unfolding set_mod
  set_uinput_mods wanted a =
      let cur = a.emitted_mods in
      let target = bit_and wanted dance_mask in
      let danced =
        set_mod 92 mod_level5 target cur
          (set_mod 100 mod_level3 target cur (set_mod 42 mod_shift target cur a)) in
      record danced { emitted_mods = bit_or (clear_bits cur dance_mask) target }

  -- A press and a release, past a release of a key that the user still holds.
  unfoldable pub emit_spec : EmitSpec → EvdevAdapter S K → EvdevAdapter S K
  unfolding set_uinput_mods passthrough
  emit_spec spec a =
      let danced = set_uinput_mods spec.mods a in
      let freed =
        if danced.held_physical spec.keycode then passthrough spec.keycode 0 danced else danced in
      passthrough spec.keycode 0 (passthrough spec.keycode 1 freed)

  -- A character outside the keymap is dropped; the lookup does not panic.
  unfoldable pub emit_one : Emit → EvdevAdapter S K → EvdevAdapter S K
  unfolding emit_spec
  emit_one panic a = a
  emit_one absent a = a
  emit_one (emit spec) a = emit_spec spec a

  unfoldable pub emit_chars : Text → EvdevAdapter S K → EvdevAdapter S K
  unfolding emit_one char_to_emit
  emit_chars [] a = a
  emit_chars (c ∷ cs) a = emit_chars cs (emit_one (char_to_emit c) a)

  unfoldable pub emit_string : Text → EvdevAdapter S K → EvdevAdapter S K
  unfolding emit_chars set_uinput_mods
  emit_string t a = set_uinput_mods (bit_and a.emitted_mods dance_mask) (emit_chars t a)

  unfoldable pub emit_backspaces : ℕ → EvdevAdapter S K → EvdevAdapter S K
  unfolding passthrough
  emit_backspaces zero a = a
  emit_backspaces (suc n) a = emit_backspaces n (passthrough 14 0 (passthrough 14 1 a))

  -- A release goes out where the press did.
  unfoldable pub release_key : ℕ → EvdevAdapter S K → EvdevAdapter S K
  unfolding passthrough
  release_key code a =
      if a.forwarded_press code
      then record (passthrough code 0 a) { forwarded_press = remove_key code a.forwarded_press }
      else a
