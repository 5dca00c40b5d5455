-- ===== src/Wayland/Echo/Commit.antt =====
-- The echoes of one character that `AdapterSink::vk_commit_char` of crates/wayland-adapter/src/sink.rs types.
use Prim.Native.Nat.{bit_or}
use daklak_rs.Prelude.{ℕ, ◌≡◌, refl, ap, ◌∙◌, false, List, [], ◌∷◌, arith, ◌==◌}
use daklak_rs.Keymap.{EmitSpec, Emit, emit, char_to_emit, plan_mod_dance}
use daklak_rs.Keymap.Xkb.{Xkbcommon}
use daklak_rs.Emitter.{
  ModifierSnapshot, EmitCharParams, emit_char, emit_found, emit_danced, dance_step, pulse, expect,
}
use daklak_rs.Wayland.State.{AdapterState, no_echoes}
use daklak_rs.Wayland.Sink.{SinkParams, vk_emitter, emit_on_vk, commit_char}
use daklak_rs.Wayland.Frame.{im_v2}
use daklak_rs.Wayland.Context.{AdapterHandler, adapter}
use daklak_rs.Wayland.Echo.{Weave, waiting, InTime, with_echoes, IgnoresEchoes, run, run-Weave}

-- The updates of the dance: the level's bits set, and the user's mask again.
abbrev pub dance_of : SinkParams → EmitSpec → List ModifierSnapshot
dance_of p spec =
    record (p.raw_mods) { depressed = bit_or p.raw_mods.depressed spec.mods } ∷ p.raw_mods ∷ []

found-waiting :
    {K : Type 0} (found : Emit) (spec : EmitSpec) (p : EmitCharParams) (now : ℕ)
    (s : AdapterState K)
    → found ≡ emit spec
    → (spec.mods == 0) ≡ false
    → (emit_found vk_emitter found p now (s, no_echoes)).0.1
      ≡ waiting now (
          record (p.raw_mods) { depressed = bit_or p.raw_mods.depressed spec.mods }
          ∷ p.raw_mods
          ∷ [])
unfolding emit_found emit_danced dance_step pulse expect plan_mod_dance
found-waiting found spec p now s e danced = rw e (rw danced refl)

commit-waiting :
    {K : Type 0} (p : SinkParams) (spec : EmitSpec) (time c now : ℕ) (s : AdapterState K)
    → char_to_emit c ≡ emit spec
    → (spec.mods == 0) ≡ false
    → s.synthetic_mods ≡ no_echoes
    → (commit_char p im_v2 time c now s).0.synthetic_mods ≡ waiting now (dance_of p spec)
unfolding commit_char emit_on_vk emit_char
commit-waiting p spec time c now s found danced idle =
    let params : EmitCharParams = record {
      raw_mods = p.raw_mods;
      held_user_kc = p.held_user_kc;
      time = time;
      c = c;
    } in
    ap (λ q. (emit_found vk_emitter (char_to_emit c) params now (s, q)).0.1) idle
    ∙ found-waiting (char_to_emit c) spec params now s found danced

module _ {H K : Type 0} (lib : Xkbcommon K) (h : AdapterHandler H K) where
  -- A character is typed that takes a dance of the modifiers, while no echo is expected and the handler's
  -- `on_modifiers` neither reads nor changes the expected echoes. However the two echoes and the user's
  -- updates then come in, within 50 ms and the echoes in order, each of the user's being unlike the next
  -- echo, the adapter ends as if it had had the user's updates alone and expected none: the echoes reach
  -- neither the state of the modifiers nor the handler nor the client.
  pub commit_char-Weave :
      (ok : IgnoresEchoes h) (p : SinkParams) (spec : EmitSpec) (time c now : ℕ) (x : H)
      (s : AdapterState K) {ms rs : List (ℕ × ModifierSnapshot)}
      → char_to_emit c ≡ emit spec
      → (spec.mods == 0) ≡ false
      → s.synthetic_mods ≡ no_echoes
      → Weave (dance_of p spec) ms rs
      → InTime now ms
      → let s' = (commit_char p im_v2 time c now s).0 in
        run lib h ms (adapter (x, s')) ≡ run lib h rs (adapter (x, with_echoes no_echoes s'))
  commit_char-Weave ok p spec time c now x s {ms} {rs} found danced idle woven young =
      let s' = (commit_char p im_v2 time c now s).0 in
      ap (λ q. run lib h ms (adapter (x, with_echoes q s')))
        (commit-waiting p spec time c now s found danced idle)
      ∙ run-Weave lib h ok now (x, s') woven young (omega arith)
