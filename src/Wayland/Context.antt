-- ===== src/Wayland/Context.antt =====
-- crates/wayland-adapter/src/lib.rs: the trait `AdapterHandler` with its `AdapterCtx`, and the steps that
-- `WaylandAdapter` takes on the state alone. A focus source whose lock fails is none. Log lines are left
-- out. Each operation takes the time at which it runs, in milliseconds.
use Prim.Native.Nat.{bit_and, bit_or}
use mathlib.Core.Option
use daklak_rs.Prelude.{
  ℕ, ◌-◌, Bool, true, false, not, ◌&&◌, List, [], ◌∷◌, Option, none, some, ltb, ◌==◌, if◌then◌else◌,
  u32, length,
}
use daklak_rs.Text.{Text}
use daklak_rs.Strategy.Types.{KeyDecision, OutputSink}
use daklak_rs.Keymap.Xkb
use daklak_rs.Keymap.Xkb.{Xkbcommon, CanonicalModifierMasks, default_masks}
use daklak_rs.Emitter.{ModifierSnapshot, SyntheticMods, same_snapshot}
use daklak_rs.Wayland.Frame
use daklak_rs.Wayland.Frame.{FrameSnapshot, FocusEvent, SurroundingText, ImProtocol, im_v2, im_v1}
use daklak_rs.Wayland.State
use daklak_rs.Wayland.State.{
  AdapterState, Request, send, im_commit, vk_modifiers, ctx_modifiers, held_user_kc, press_value,
  emit_forward_key,
}
use daklak_rs.Wayland.Sink.{SinkParams, adapter_sink}

-- The daemon's trait, over its own state `H`. A callback takes the time, its arguments, the handler and
-- the adapter's state, which it reaches through the context.
pub record AdapterHandler (H K : Type 0) : Type 0 where
  pub on_done_frame : ℕ → FrameSnapshot → H → AdapterState K → H × AdapterState K
  pub on_key_pressed :
      ℕ → ℕ → ℕ → Option ℕ → H → AdapterState K → (H × AdapterState K) × KeyDecision
  pub apply_pending :
      ℕ → ℕ → ℕ → Text → ModifierSnapshot → Option ℕ → H → AdapterState K → H × AdapterState K
  pub on_key_released : ℕ → ℕ → ℕ → H → AdapterState K → H × AdapterState K
  pub on_modifiers : ℕ → H → AdapterState K → H × AdapterState K
  pub on_focus_changed : ℕ → Option Text → Bool → H → AdapterState K → H × AdapterState K

pub record WaylandAdapter (H K : Type 0) : Type 0 where
  pub handler : H
  pub state : AdapterState K

abbrev pub adapter : {H K : Type 0} → H × AdapterState K → WaylandAdapter H K
adapter (h, s) = record { handler = h; state = s }

-- A bit of `ModifierState` for each mask that is met.
unfoldable pub modifier_state : CanonicalModifierMasks → ℕ → ℕ
modifier_state masks depressed =
    let bit = λ (mask m : ℕ). if ltb 0 (bit_and depressed mask) then m else 0 in
    bit_or (bit_or (bit_or (bit masks.shift 0x01) (bit masks.control 0x04)) (bit masks.alt 0x08))
      (bit masks.logo 0x40)

-- The echo is past its time to live, 50 ms.
abbrev pub is_expired : SyntheticMods → ℕ → Bool
is_expired q now = elim (q.emitted_at) [
  | none ↦ false
  | some t ↦ ltb 0 q.pending && ltb 50 (now - t)
]

unfoldable pub expire_echoes : ℕ → SyntheticMods → SyntheticMods
expire_echoes now q = if is_expired q now then State.no_echoes else q

-- The front of the queue is popped.
abbrev pub pop_echo : List ModifierSnapshot → SyntheticMods → SyntheticMods
pop_echo rest q = record {
  pending = u32 (length rest);
  expected = rest;
  emitted_at = if u32 (length rest) == 0 then none else q.emitted_at;
}

-- The queue past an echo; none for an update of the user's.
abbrev pub take_echo : ModifierSnapshot → List ModifierSnapshot → Option (List ModifierSnapshot)
take_echo m [] = none
take_echo m (front ∷ rest) = if same_snapshot front m then some rest else none

abbrev pub repeat_forward_values : Bool → List ℕ
repeat_forward_values true = 1 ∷ 0 ∷ []
repeat_forward_values false = 2 ∷ []

abbrev pub focused_app : Option FocusEvent → Option Text × Bool
focused_app none = (none, false)
focused_app (some ev) = (ev.app_id, ev.is_xwayland)

module _ {K : Type 0} where
  -- The stamp of a raw press.
  abbrev pub stamp_press : ℕ → ℕ → AdapterState K → AdapterState K
  stamp_press now key s = record s { last_forwarded_key = some (key, now) }

  unfoldable pub forward_press : ℕ → ℕ → ℕ → AdapterState K → AdapterState K
  unfolding emit_forward_key press_value
  forward_press now time key s =
      let s' = emit_forward_key time key (press_value s) s in
      if s'.forwarding_repeat then s' else stamp_press now key s'

  unfoldable pub vk_key_press_unstamped : ℕ → ℕ → AdapterState K → AdapterState K
  unfolding emit_forward_key press_value
  vk_key_press_unstamped time key s = emit_forward_key time key (press_value s) s

  -- The snapshot of the frame that is pending.
  unfoldable pub snapshot : AdapterState K → FrameSnapshot
  snapshot s =
      let f = s.pending_frame in
      let (app_id, is_xwayland) =
        if f.pending_activate then focused_app s.focus_current else (none, false) in
      record {
        activate = f.pending_activate;
        deactivate = f.pending_deactivate;
        surrounding_text =
            Option.map (λ (st : SurroundingText). (st.text, st.cursor, st.anchor))
              f.surrounding_text;
        purpose = f.purpose;
        app_id = app_id;
        is_xwayland = is_xwayland;
      }

  -- The bare commit of version 2, where nothing was committed in the frame.
  abbrev pub acknowledge : ImProtocol → AdapterState K → AdapterState K
  acknowledge im_v2 s =
      if not s.pending_im_commit_ack && s.im then send (im_commit s.serial) s else s
  acknowledge im_v1 s = s

  unfoldable pub end_frame : Bool → AdapterState K → AdapterState K
  unfolding Frame.end_session Frame.reset
  end_frame deactivate s =
      let f = if deactivate then Frame.end_session s.pending_frame else s.pending_frame in
      record s { pending_frame = Frame.reset f }

  -- The masks of the user, to the client.
  abbrev pub mirror : ImProtocol → ModifierSnapshot → AdapterState K → AdapterState K
  mirror im_v2 m s = if s.vk then send (vk_modifiers m) s else s
  mirror im_v1 m s = if s.im_ctx_v1 then send (ctx_modifiers s.serial m) s else s

  -- What `with_sink` needs of the proxies.
  abbrev pub has_proxies : ImProtocol → AdapterState K → Bool
  has_proxies im_v2 s = s.im && s.vk
  has_proxies im_v1 s = s.im_ctx_v1

  abbrev pub emit_all : ℕ → ℕ → List ℕ → AdapterState K → AdapterState K
  emit_all time key [] s = s
  emit_all time key (v ∷ vs) s = emit_all time key vs (emit_forward_key time key v s)

module _ {K A : Type 0} (lib : Xkbcommon K) (flush : List Request → Bool) where
  -- The closure, over what it captures, is run if the proxies are there.
  unfoldable pub with_sink :
      ModifierSnapshot
      → Option ℕ
      → Bool
      → ℕ
      → (OutputSink (AdapterState K) → A → AdapterState K → A × AdapterState K)
      → A
      → AdapterState K
      → A × AdapterState K
  with_sink raw_mods held commit_string_functional now f a s =
      let p : SinkParams = record {
        protocol = s.profile.protocol;
        serial = s.serial;
        raw_mods = raw_mods;
        held_user_kc = held;
        commit_string_functional = commit_string_functional;
      } in
      if has_proxies s.profile.protocol s then f (adapter_sink lib flush p now) a s else (a, s)

module _ {K : Type 0} (lib : Xkbcommon K) where
  abbrev pub char_of : Option K → ℕ → Option ℕ
  unfolding Xkb.key_to_char
  char_of none key = none
  char_of (some k) key = Xkb.key_to_char lib k key

  abbrev pub repeats : Option K → ℕ → Bool
  unfolding Xkb.key_repeats
  repeats none key = true
  repeats (some k) key = Xkb.key_repeats lib k key

  abbrev pub shifted : Option K → ℕ → ℕ → Bool
  unfolding Xkb.base_char
  shifted none key ch = false
  shifted (some k) key ch = not (elim (Xkb.base_char lib k key) [ none ↦ false | some b ↦ b == ch ])

  unfoldable pub is_level_shifted : ℕ → ℕ → AdapterState K → Bool
  is_level_shifted key ch s = shifted s.xkb key ch

  -- The keymap's state and its masks.
  abbrev pub update_xkb : Option K → ModifierSnapshot → Option K × CanonicalModifierMasks
  unfolding Xkb.update_modifiers Xkb.canonical_modifier_masks
  update_xkb none m = (none, default_masks)
  update_xkb (some k) m =
      let k' = Xkb.update_modifiers lib k m.depressed m.latched m.locked m.group in
      (some k', Xkb.canonical_modifier_masks lib k')

  -- An update of the user's: the state and the client's copy, before the handler hears of it.
  unfoldable pub take_modifiers : ModifierSnapshot → AdapterState K → AdapterState K
  unfolding modifier_state
  take_modifiers m s =
      let (xkb, masks) = update_xkb s.xkb m in
      mirror s.profile.protocol m
        (record s { xkb = xkb; modifiers = modifier_state masks m.depressed; raw_mods = m })
