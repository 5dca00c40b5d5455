-- ===== src/Emitter/Keeps.antt =====
-- What `emit_char` of crates/key-emitter leaves alone: all that no key and no modifier update changes.
use daklak_rs.Prelude.{ℕ, ◌≡◌, refl, ◌∙◌, Option, none, some, Bool-cases, inl, inr}
use daklak_rs.Keymap.{EmitSpec, Emit, panic, absent, emit, char_to_emit, plan_mod_dance}
use daklak_rs.Emitter.{
  ModifierSnapshot, KeyEmitter, SyntheticMods, EmitCharParams, is_held, emit_char, emit_found,
  emit_danced, dance_step, pulse, prelude_release,
}

module _ {S A : Type 0} (e : KeyEmitter S) (f : S → A)
    (key : (s : S) (time kc value : ℕ) → f (e.emit_key s time kc value) ≡ f s)
    (mods : (s : S) (m : ModifierSnapshot) → f (e.emit_modifiers s m) ≡ f s) where
  pulse_keeps :
      (spec : EmitSpec) (time : ℕ) (s : S) (q : SyntheticMods)
      → f (pulse e spec time (s, q)).0 ≡ f s
  unfolding pulse
  pulse_keeps spec time s q = key _ _ _ _ ∙ key _ _ _ _

  danced_keeps :
      (dance : Option (ℕ × ℕ)) (spec : EmitSpec) (p : EmitCharParams) (now : ℕ) (s : S)
      (q : SyntheticMods)
      → f (emit_danced e dance spec p now (s, q)).0 ≡ f s
  unfolding emit_danced dance_step
  danced_keeps none spec p now s q = pulse_keeps spec p.time s q
  danced_keeps (some (a, b)) spec p now s q =
      let (s', q') = dance_step e a p now (s, q) in
      mods _ _ ∙ pulse_keeps spec p.time s' q' ∙ mods s _

  prelude_keeps :
      (spec : EmitSpec) (p : EmitCharParams) (s : S) → f (prelude_release e spec p s) ≡ f s
  unfolding prelude_release
  prelude_keeps spec p s = elim (Bool-cases (is_held p.held_user_kc spec.keycode)) [
    | inl held ↦ rw held (key _ _ _ _)
    | inr free ↦ rw free refl
  ]

  found_keeps :
      (found : Emit) (p : EmitCharParams) (now : ℕ) (s : S) (q : SyntheticMods)
      → f (emit_found e found p now (s, q)).0.0 ≡ f s
  unfolding emit_found
  found_keeps panic p now s q = refl
  found_keeps absent p now s q = refl
  found_keeps (emit spec) p now s q =
      danced_keeps (plan_mod_dance p.raw_mods.depressed spec.mods) spec p now _ q
      ∙ prelude_keeps spec p s

  pub emit_char_keeps :
      (p : EmitCharParams) (now : ℕ) (s : S) (q : SyntheticMods)
      → f (emit_char e p now (s, q)).0.0 ≡ f s
  unfolding emit_char
  emit_char_keeps p now s q = found_keeps (char_to_emit p.c) p now s q
