-- ===== src/Evdev/RightShift.antt =====
-- What `emit_string` of crates/evdev-adapter/src/adapter.rs leaves down while the user holds the right Shift.
use Prim.Native.Nat.{bit_and, bit_or}
use daklak_rs.Prelude.{ℕ, ◌≡◌, refl, sym, ap, ◌∙◌, subst, Bool, true, false, [], ◌∷◌, if◌then◌else◌}
use daklak_rs.Keymap.{EmitSpec, Emit, emit, char_to_emit}
use daklak_rs.Keymap.Inventory.{mod_shift, mod_level3, mod_level5}
use daklak_rs.Keymap.Xkb.{Xkbcommon}
use daklak_rs.Evdev.{
  EvdevHandler, EvdevAdapter, InputEvent, dance_mask, clear_bits, mod_bit, track_held,
}
use daklak_rs.Evdev.Output.{
  passthrough, set_mod, set_uinput_mods, emit_spec, emit_one, emit_chars, emit_string,
}
use daklak_rs.Evdev.Events.{on_modifier, on_key_code, process_event}
use daklak_rs.Evdev.Shrinks.{device}
use daklak_rs.Evdev.Stuck.{release_of}

-- A press of a key.
abbrev pub press_of : ℕ → InputEvent
press_of code = record { is_key = true; code = code; value = 1 }

module _ {K : Type 0} where
  -- From no modifier back to Shift: the left Shift is pressed.
  restored :
      (a : EvdevAdapter (ℕ → Bool) K)
      → a.emitted_mods ≡ 0
      → (set_uinput_mods device mod_shift a).output 42 ≡ true
  unfolding set_uinput_mods set_mod passthrough
  restored a e =
      subst
        (λ cur.
          (set_mod device 92 mod_level5 mod_shift cur (
              set_mod device 100 mod_level3 mod_shift cur
                (set_mod device 42 mod_shift mod_shift cur a))).output
            42
          ≡ true)
        (sym e) refl

  -- A character of the base level leaves no modifier where there was Shift alone.
  emit_spec-emitted_mods :
      (s : EmitSpec) (a : EvdevAdapter (ℕ → Bool) K)
      → s.mods ≡ 0
      → a.emitted_mods ≡ mod_shift
      → (emit_spec device s a).emitted_mods ≡ 0
  unfolding emit_spec set_uinput_mods passthrough
  emit_spec-emitted_mods s a base shift =
      either (λ (x : EvdevAdapter (ℕ → Bool) K). x.emitted_mods)
        ((set_uinput_mods device s.mods a).held_physical s.keycode)
        (passthrough device s.keycode 0 (set_uinput_mods device s.mods a))
        (set_uinput_mods device s.mods a) refl
      ∙ ap (λ m. bit_or (clear_bits a.emitted_mods dance_mask) (bit_and m dance_mask)) base
      ∙ ap (λ m. bit_or (clear_bits m dance_mask) (bit_and 0 dance_mask)) shift
    where
      either :
          {A : Type 0} (f : EvdevAdapter (ℕ → Bool) K → A) (b : Bool)
          (x y : EvdevAdapter (ℕ → Bool) K)
          → f x ≡ f y
          → f (if b then x else y) ≡ f y
      either f true x y e = e
      either f false x y e = refl

  emit_string-restored :
      (c : ℕ) (s : EmitSpec) (a : EvdevAdapter (ℕ → Bool) K)
      → char_to_emit c ≡ emit s
      → s.mods ≡ 0
      → a.emitted_mods ≡ mod_shift
      → (emit_string device (c ∷ []) a).output 42 ≡ true
  unfolding emit_string emit_chars emit_one
  emit_string-restored c s a found base shift =
      ap
        (λ (r : Emit × ℕ).
          (set_uinput_mods device (bit_and r.1 dance_mask) (emit_one device r.0 a)).output 42)
        (λ i. (found i, shift i))
      ∙ restored (emit_spec device s a) (emit_spec-emitted_mods s a base shift)

module _ {K D : Type 0} (lib : Xkbcommon K) (h : EvdevHandler D) where
  -- Where the user presses the right Shift while the device has no Shift and no level modifier on, the
  -- adapter types a character of the
  -- base level, and the user lets the right Shift go, the output device is left with the left Shift down,
  -- which the user has not touched.
  pub emit_string-right_shift :
      (now c : ℕ) (s : EmitSpec) (d : D) (a : EvdevAdapter (ℕ → Bool) K)
      → char_to_emit c ≡ emit s
      → s.mods ≡ 0
      → a.emitted_mods ≡ 0
      → let (d', shifted) = process_event device lib h now (press_of 54) (d, a) in
        let (_, let_go) =
          process_event device lib h now
            (release_of 54)
            (d', emit_string device (c ∷ []) shifted) in
        let_go.output 42 ≡ true
  unfolding process_event mod_bit on_key_code on_modifier track_held passthrough
  emit_string-right_shift now c s d a found base bare =
      let (d', shifted) = process_event device lib h now (press_of 54) (d, a) in
      emit_string-restored c s shifted found base (ap (λ m. bit_or m mod_shift) bare)
