-- ===== src/Emitter.antt =====
-- crates/key-emitter: the trait `KeyEmitter` of lib.rs and `emit_char` of emit_char_impl.rs, over the
-- state of the backend. The time of an emission is an argument, in milliseconds. Log lines are left out,
-- and so is `sync_barrier`, which nothing calls.
pub mod Client
pub mod Shift
pub mod Keeps
mod Examples
use daklak_rs.Prelude.{
  ℕ, Bool, true, false, ◌&&◌, List, [], ◌∷◌, ◌++◌, Option, none, some, ◌==◌, if◌then◌else◌, u32,
  length,
}
use daklak_rs.Keymap.{EmitSpec, Emit, panic, absent, emit, char_to_emit, plan_mod_dance}

pub record ModifierSnapshot : Type 0 where
  pub depressed : ℕ
  pub latched : ℕ
  pub locked : ℕ
  pub group : ℕ

abbrev pub same_snapshot : ModifierSnapshot → ModifierSnapshot → Bool
same_snapshot a b =
    a.depressed == b.depressed
    && a.latched == b.latched
    && a.locked == b.locked
    && a.group == b.group

-- The trait, over the state of its implementation. A key's value is 1 for a press, 0 for a release.
pub record KeyEmitter (S : Type 0) : Type 0 where
  pub emit_key : S → ℕ → ℕ → ℕ → S
  pub emit_modifiers : S → ModifierSnapshot → S
  pub modifier_echo_through_grab : Bool

pub record SyntheticMods : Type 0 where
  pub pending : ℕ
  pub expected : List ModifierSnapshot
  pub emitted_at : Option ℕ

pub record EmitCharParams : Type 0 where
  pub raw_mods : ModifierSnapshot
  pub held_user_kc : Option ℕ
  pub time : ℕ
  pub c : ℕ

-- `held_user_kc == Some(keycode)`.
abbrev pub is_held : Option ℕ → ℕ → Bool
is_held none keycode = false
is_held (some kc) keycode = kc == keycode

-- An echo to wait for.
unfoldable pub expect : ModifierSnapshot → ℕ → SyntheticMods → SyntheticMods
expect m now q =
    let expected = q.expected ++ m ∷ [] in
    record { pending = u32 (length expected); expected = expected; emitted_at = some now }

module _ {S : Type 0} (e : KeyEmitter S) where
  -- One half of the dance: the user's masks with another depressed one.
  unfoldable pub dance_step : ℕ → EmitCharParams → ℕ → S × SyntheticMods → S × SyntheticMods
  unfolding expect
  dance_step mask p now (s, q) =
      let m = record (p.raw_mods) { depressed = mask } in
      (e.emit_modifiers s m, if e.modifier_echo_through_grab then expect m now q else q)

  -- The press and the release.
  unfoldable pub pulse : EmitSpec → ℕ → S × SyntheticMods → S × SyntheticMods
  pulse spec time (s, q) = (e.emit_key (e.emit_key s time spec.keycode 1) time spec.keycode 0, q)

  unfoldable pub prelude_release : EmitSpec → EmitCharParams → S → S
  prelude_release spec p s =
      if is_held p.held_user_kc spec.keycode then e.emit_key s p.time spec.keycode 0 else s

  -- The key, between the two halves of the dance if there is one.
  unfoldable pub emit_danced :
      Option (ℕ × ℕ) → EmitSpec → EmitCharParams → ℕ → S × SyntheticMods → S × SyntheticMods
  unfolding dance_step pulse
  emit_danced none spec p now sq = pulse spec p.time sq
  emit_danced (some (emit_mask, restore_mask)) spec p now sq =
      dance_step restore_mask p now (pulse spec p.time (dance_step emit_mask p now sq))

  -- `char_to_emit` does not panic: `char_to_emit-ne-panic`.
  unfoldable pub emit_found :
      Emit → EmitCharParams → ℕ → S × SyntheticMods → (S × SyntheticMods) × Bool
  unfolding prelude_release emit_danced plan_mod_dance
  emit_found panic p now sq = (sq, false)
  emit_found absent p now sq = (sq, false)
  emit_found (emit spec) p now (s, q) = (
    emit_danced (plan_mod_dance p.raw_mods.depressed spec.mods) spec p now
        (prelude_release spec p s, q),
    true,
  )

  unfoldable pub emit_char : EmitCharParams → ℕ → S × SyntheticMods → (S × SyntheticMods) × Bool
  unfolding emit_found
  emit_char p now sq = emit_found (char_to_emit p.c) p now sq
