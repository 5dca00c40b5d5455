-- ===== src/Wayland/Typed.antt =====
-- What a client makes of a commit that `AdapterSink` of crates/wayland-adapter sends over the virtual
-- keyboard.
pub mod Channel
pub mod Split
use daklak_rs.Prelude.{
  ℕ, ◌≡◌, refl, sym, ap, ◌∙◌, subst, Bool, true, false, not, ◌&&◌, List, [], ◌∷◌, ◌++◌,
  append_assoc, append-nil, Option, none, some, arith, ◌==◌, if◌then◌else◌, Bool-cases, inl, inr,
  all,
}
use daklak_rs.Text.{Text}
use daklak_rs.Keymap.{EmitSpec, Emit, panic, absent, emit, char_to_emit, plan_mod_dance}
use daklak_rs.Keymap.Xkb.{Xkbcommon}
use daklak_rs.Emitter.{
  ModifierSnapshot, KeyEmitter, SyntheticMods, EmitCharParams, is_held, emit_char, emit_found,
  emit_danced, dance_step, pulse, prelude_release,
}
use daklak_rs.Emitter.Client.{
  Client, Holds, client_emitter, on_key, emit_char-typed, emit_char-Holds,
}
use daklak_rs.Wayland.Frame.{im_v2}
use daklak_rs.Wayland.State.{AdapterState, Request, vk_key, vk_modifiers}
use daklak_rs.Wayland.Sink.{
  SinkParams, vk_emitter, emit_on_vk, commit_char, channel_loop, keys_loop, commit_rest, has_key,
  commit_via_keysym, commit_key_channel_text,
}

-- The client after the requests, the latest first.
abbrev pub replay : List Request → Client → Client
replay [] c = c
replay (vk_key time key value ∷ rs) c = on_key (replay rs c) time key value
replay (vk_modifiers m ∷ rs) c = record (replay rs c) { mods = m }
replay (_ ∷ rs) c = replay rs c

module _ {K : Type 0} (c0 : Client) where
  -- The client beside the adapter.
  abbrev seen : AdapterState K × SyntheticMods → Client × SyntheticMods
  seen (s, q) = (replay s.sent c0, q)

  emit_danced-seen :
      (dance : Option (ℕ × ℕ)) (spec : EmitSpec) (p : EmitCharParams) (now : ℕ)
      (sq : AdapterState K × SyntheticMods)
      → seen (emit_danced vk_emitter dance spec p now sq)
        ≡ emit_danced (client_emitter true) dance spec p now (seen sq)
  unfolding emit_danced dance_step pulse
  emit_danced-seen none spec p now (s, q) = refl
  emit_danced-seen (some (a, b)) spec p now (s, q) = refl

  prelude-seen :
      (spec : EmitSpec) (p : EmitCharParams) (s : AdapterState K)
      → replay (prelude_release vk_emitter spec p s).sent c0
        ≡ prelude_release (client_emitter true) spec p (replay s.sent c0)
  unfolding prelude_release
  prelude-seen spec p s = elim (Bool-cases (is_held p.held_user_kc spec.keycode)) [
    | inl e ↦ rw e refl
    | inr e ↦ rw e refl
  ]

  emit_found-seen :
      (found : Emit) (p : EmitCharParams) (now : ℕ) (s : AdapterState K) (q : SyntheticMods)
      → seen (emit_found vk_emitter found p now (s, q)).0
        ≡ (emit_found (client_emitter true) found p now (replay s.sent c0, q)).0
  unfolding emit_found
  emit_found-seen panic p now s q = refl
  emit_found-seen absent p now s q = refl
  emit_found-seen (emit spec) p now s q =
      emit_danced-seen (plan_mod_dance p.raw_mods.depressed spec.mods) spec p now
        (prelude_release vk_emitter spec p s, q)
      ∙ ap
          (λ c.
            emit_danced (client_emitter true) (plan_mod_dance p.raw_mods.depressed spec.mods) spec p
              now (c, q))
          (prelude-seen spec p s)

  emit_char-seen :
      (p : EmitCharParams) (now : ℕ) (s : AdapterState K) (q : SyntheticMods)
      → seen (emit_char vk_emitter p now (s, q)).0
        ≡ (emit_char (client_emitter true) p now (replay s.sent c0, q)).0
  unfolding emit_char
  emit_char-seen p now s q = emit_found-seen (char_to_emit p.c) p now s q

emit_char_found :
    {S : Type 0} (e : KeyEmitter S) (p : EmitCharParams) (now : ℕ) (sq : S × SyntheticMods)
    (spec : EmitSpec)
    → char_to_emit p.c ≡ emit spec
    → (emit_char e p now sq).1 ≡ true
unfolding emit_char emit_found
emit_char_found e p now (s, q) spec found = rw found refl

has_key_emit : (e : Emit) → has_key e ≡ true → (spec : EmitSpec) × (e ≡ emit spec)
has_key_emit panic h = cc
has_key_emit absent h = cc
has_key_emit (emit spec) h = (spec, refl)

module _ {K : Type 0} (c0 : Client) (p : SinkParams) where
  -- The client has no key down but the user's, no modifier down, and the modifiers that the sink took.
  pub record IsReady (s : AdapterState K) : Type 0 where
    pub holds : Holds p.held_user_kc (replay s.sent c0)
    pub mods : (replay s.sent c0).mods ≡ p.raw_mods
    pub bare : p.raw_mods.depressed ≡ 0

  abbrev pub text_of : AdapterState K → Text
  text_of s = (replay s.sent c0).text

  -- What one character comes to.
  abbrev pub IsTyped : ℕ → AdapterState K → AdapterState K × Bool → Type 0
  IsTyped c s (s', done) = (done ≡ true) × IsReady s' × (text_of s' ≡ text_of s ++ c ∷ [])

  emit_on_vk-IsTyped :
      (time c now : ℕ) (s : AdapterState K) (spec : EmitSpec)
      → char_to_emit c ≡ emit spec
      → IsReady s
      → IsTyped c s (emit_on_vk p time c now s)
  unfolding emit_on_vk
  emit_on_vk-IsTyped time c now s spec found ready =
      let params : EmitCharParams = record {
        raw_mods = p.raw_mods;
        held_user_kc = p.held_user_kc;
        time = time;
        c = c;
      } in
      let same =
        ap (λ (t : Client × SyntheticMods). t.0)
          (emit_char-seen c0 params now s s.synthetic_mods) in
      let (holds, mods) =
        emit_char-Holds true params now spec (replay s.sent c0) s.synthetic_mods found ready.holds
          ready.mods in
      (
        (emit_char_found vk_emitter params now (s, s.synthetic_mods) spec found),
        record {
          holds = subst (Holds p.held_user_kc) (sym same) holds;
          mods = ap (λ (t : Client). t.mods) same ∙ mods;
          bare = ready.bare;
        },
        ap (λ (t : Client). t.text) same
            ∙ emit_char-typed true params now spec (replay s.sent c0) s.synthetic_mods found
                ready.holds ready.mods ready.bare,
      )

  pub commit_char-IsTyped :
      (time c now : ℕ) (s : AdapterState K)
      → has_key (char_to_emit c) ≡ true
      → IsReady s
      → IsTyped c s (commit_char p im_v2 time c now s)
  unfolding commit_char
  commit_char-IsTyped time c now s key ready =
      let (spec, found) = has_key_emit (char_to_emit c) key in
      emit_on_vk-IsTyped time c now s spec found ready
