-- ===== src/Evdev/Shrinks.antt =====
-- What the output of crates/evdev-adapter/src/adapter.rs presses and lets go, one operation at a time.
use Prim.Native.Nat.{bit_and}
use daklak_rs.Prelude.{
  ℕ, zero, suc, ◌≡◌, refl, ap, ◌∙◌, Bool, true, false, not, ◌&&◌, [], ◌∷◌, none, some, arith, ltb,
  ◌==◌, ==_iff, if◌then◌else◌, Bool-cases, inl, inr,
}
use daklak_rs.Text.{Text}
use daklak_rs.Keymap.{EmitSpec, Emit, panic, absent, emit, char_to_emit}
use daklak_rs.Keymap.Inventory.{mod_shift, mod_level3, mod_level5}
use daklak_rs.Emitter.{KeyEmitter}
use daklak_rs.Evdev.{EvdevAdapter, insert_key, remove_key, mod_bit, dance_mask}
use daklak_rs.Evdev.Output.{
  passthrough, forward_press_raw, set_mod, set_uinput_mods, emit_spec, emit_one, emit_chars,
  emit_string, emit_backspaces, release_key,
}

-- The device: the keys that it has down.
abbrev pub device : KeyEmitter (ℕ → Bool)
device = record {
  emit_key =
      λ down time code value. if value == 0 then remove_key code down else insert_key code down;
  emit_modifiers = λ down m. down;
  modifier_echo_through_grab = false;
}

module _ {K : Type 0} where
  -- A key that is down, but for a modifier, is one whose press was forwarded.
  abbrev pub IsTracked : EvdevAdapter (ℕ → Bool) K → Type 0
  IsTracked a = (k : ℕ) → mod_bit k ≡ none → a.output k ≡ true → a.forwarded_press k ≡ true

  -- No key goes down but a modifier, and what was forwarded is still known.
  abbrev Shrinks : EvdevAdapter (ℕ → Bool) K → EvdevAdapter (ℕ → Bool) K → Type 0
  Shrinks a a' =
      ((k : ℕ) → mod_bit k ≡ none → a'.output k ≡ true → a.output k ≡ true)
      × (a'.forwarded_press ≡ a.forwarded_press)

  pub Shrinks-IsTracked :
      (a a' : EvdevAdapter (ℕ → Bool) K) → Shrinks a a' → IsTracked a → IsTracked a'
  Shrinks-IsTracked a a' (less, same) tracked k plain down =
      ap (λ f. f k) same ∙ tracked k plain (less k plain down)

  Shrinks-trans : (a b c : EvdevAdapter (ℕ → Bool) K) → Shrinks a b → Shrinks b c → Shrinks a c
  Shrinks-trans a b c (less, same) (less', same') =
      (λ k plain down. less k plain (less' k plain down), same' ∙ same)

  Shrinks-self : (a : EvdevAdapter (ℕ → Bool) K) → Shrinks a a
  Shrinks-self a = (λ k plain down. down, refl)

  pub release-Shrinks :
      (code : ℕ) (a : EvdevAdapter (ℕ → Bool) K) → Shrinks a (passthrough device code 0 a)
  unfolding passthrough
  release-Shrinks code a = (λ k plain down. ground arith, refl)

  pub either-Shrinks :
      (b : Bool) (a a' : EvdevAdapter (ℕ → Bool) K) → Shrinks a a' → Shrinks a (if b then a' else a)
  either-Shrinks true a a' less = less
  either-Shrinks false a a' less = Shrinks-self a

  -- A press and its release.
  pub pulse-Shrinks :
      (code : ℕ) (a : EvdevAdapter (ℕ → Bool) K)
      → Shrinks a (passthrough device code 0 (passthrough device code 1 a))
  unfolding passthrough
  pulse-Shrinks code a = (λ k plain down. ground arith, refl)

  pub mod-Shrinks :
      (code bit value : ℕ) (a : EvdevAdapter (ℕ → Bool) K)
      → mod_bit code ≡ some bit
      → Shrinks a (passthrough device code value a)
  unfolding passthrough
  mod-Shrinks code bit value a is_mod = (
    λ k plain down. elim (Bool-cases (k == code)) [
      | inl same ↦ let e : k ≡ code = (==_iff k code).0 same in cc
      | inr other ↦ ground arith
    ],
    refl,
  )

  pub set_mod-Shrinks :
      (code bit b target cur : ℕ) (a : EvdevAdapter (ℕ → Bool) K)
      → mod_bit code ≡ some b
      → Shrinks a (set_mod device code bit target cur a)
  unfolding set_mod
  set_mod-Shrinks code bit b target cur a is_mod =
      let want = ltb 0 (bit_and target bit) in
      let have = ltb 0 (bit_and cur bit) in
      elim (Bool-cases (want && not have)) [
        | inl e ↦ rw e (mod-Shrinks code b 1 a is_mod)
        | inr e ↦ rw e (elim (Bool-cases (not want && have)) [
          | inl f ↦ rw f (mod-Shrinks code b 0 a is_mod)
          | inr f ↦ rw f (Shrinks-self a)
        ])
      ]

  pub set_uinput_mods-Shrinks :
      (wanted : ℕ) (a : EvdevAdapter (ℕ → Bool) K) → Shrinks a (set_uinput_mods device wanted a)
  unfolding set_uinput_mods mod_bit
  set_uinput_mods-Shrinks wanted a =
      let cur = a.emitted_mods in
      let target = bit_and wanted dance_mask in
      let a1 = set_mod device 42 mod_shift target cur a in
      let a2 = set_mod device 100 mod_level3 target cur a1 in
      let a3 = set_mod device 92 mod_level5 target cur a2 in
      Shrinks-trans a a2 a3
        (Shrinks-trans a a1 a2 (set_mod-Shrinks 42 mod_shift 0x01 target cur a refl)
          (set_mod-Shrinks 100 mod_level3 0x80 target cur a1 refl))
        (set_mod-Shrinks 92 mod_level5 0x20 target cur a2 refl)

  pub emit_spec-Shrinks :
      (spec : EmitSpec) (a : EvdevAdapter (ℕ → Bool) K) → Shrinks a (emit_spec device spec a)
  unfolding emit_spec
  emit_spec-Shrinks spec a =
      let danced = set_uinput_mods device spec.mods a in
      let freed =
        if danced.held_physical spec.keycode
        then passthrough device spec.keycode 0 danced
        else danced in
      let frees : Shrinks danced freed =
        either-Shrinks (danced.held_physical spec.keycode) danced
          (passthrough device spec.keycode 0 danced) (release-Shrinks spec.keycode danced) in
      let sent = passthrough device spec.keycode 0 (passthrough device spec.keycode 1 freed) in
      Shrinks-trans a danced sent (set_uinput_mods-Shrinks spec.mods a)
        (Shrinks-trans danced freed sent frees (pulse-Shrinks spec.keycode freed))

  pub emit_one-Shrinks :
      (found : Emit) (a : EvdevAdapter (ℕ → Bool) K) → Shrinks a (emit_one device found a)
  unfolding emit_one
  emit_one-Shrinks panic a = Shrinks-self a
  emit_one-Shrinks absent a = Shrinks-self a
  emit_one-Shrinks (emit spec) a = emit_spec-Shrinks spec a

  pub emit_chars-Shrinks :
      (t : Text) (a : EvdevAdapter (ℕ → Bool) K) → Shrinks a (emit_chars device t a)
  unfolding emit_chars
  emit_chars-Shrinks [] a = Shrinks-self a
  emit_chars-Shrinks (c ∷ cs) a =
      let a' = emit_one device (char_to_emit c) a in
      Shrinks-trans a a' (emit_chars device cs a') (emit_one-Shrinks (char_to_emit c) a)
        (emit_chars-Shrinks cs a')

  pub emit_string-Shrinks :
      (t : Text) (a : EvdevAdapter (ℕ → Bool) K) → Shrinks a (emit_string device t a)
  unfolding emit_string
  emit_string-Shrinks t a =
      let a' = emit_chars device t a in
      let original = bit_and a.emitted_mods dance_mask in
      Shrinks-trans a a' (set_uinput_mods device original a') (emit_chars-Shrinks t a)
        (set_uinput_mods-Shrinks original a')

  pub emit_backspaces-Shrinks :
      (n : ℕ) (a : EvdevAdapter (ℕ → Bool) K) → Shrinks a (emit_backspaces device n a)
  unfolding emit_backspaces
  emit_backspaces-Shrinks zero a = Shrinks-self a
  emit_backspaces-Shrinks (suc n) a =
      let a' = passthrough device 14 0 (passthrough device 14 1 a) in
      Shrinks-trans a a' (emit_backspaces device n a') (pulse-Shrinks 14 a)
        (emit_backspaces-Shrinks n a')

  pub forward-IsTracked :
      (code value : ℕ) (a : EvdevAdapter (ℕ → Bool) K)
      → IsTracked a
      → IsTracked (forward_press_raw device code value a)
  unfolding forward_press_raw passthrough
  forward-IsTracked code value a tracked k plain down = ground (arith, tracked k plain)

  pub release-IsTracked :
      (code : ℕ) (a : EvdevAdapter (ℕ → Bool) K)
      → IsTracked a
      → IsTracked (release_key device code a)
  unfolding release_key passthrough
  release-IsTracked code a tracked k plain down = elim (Bool-cases (a.forwarded_press code)) [
    | inl e ↦ ground (arith, tracked k plain)
    | inr e ↦ ground (arith, tracked k plain)
  ]
