-- ===== src/Wayland/Adapter.antt =====
-- crates/wayland-adapter/src/lib.rs: what `WaylandAdapter` does with a key, a frame and the modifiers,
-- over any handler. Log lines are left out.
use daklak_rs.Prelude.{ℕ, ◌+◌, Bool, true, false, List, Option, none, some, if◌then◌else◌, u32}
use daklak_rs.Text.{Text}
use daklak_rs.Strategy.Types.{KeyDecision, consumed, forward_raw}
use daklak_rs.Keymap.Xkb
use daklak_rs.Keymap.Xkb.{Xkbcommon, CanonicalModifierMasks, default_masks}
use daklak_rs.Emitter.{ModifierSnapshot}
use daklak_rs.Wayland.Repeat
use daklak_rs.Wayland.State.{AdapterState, held_user_kc, emit_forward_key}
use daklak_rs.Wayland.Context.{
  AdapterHandler, WaylandAdapter, adapter, expire_echoes, pop_echo, take_echo,
  repeat_forward_values, stamp_press, snapshot, acknowledge, end_frame, emit_all, char_of, repeats,
  take_modifiers,
}

module _ {H K : Type 0} where
  abbrev pub end_repeat : WaylandAdapter H K → WaylandAdapter H K
  end_repeat a = record a { state = record (a.state) { forwarding_repeat = false } }

  unfoldable pub finish_frame : Bool → H × AdapterState K → WaylandAdapter H K
  unfolding end_frame
  finish_frame deactivate (handler, s) =
      adapter (handler, end_frame deactivate (acknowledge s.profile.protocol s))

module _ {H K : Type 0} (h : AdapterHandler H K) where
  unfoldable pub dispatch_key_release : ℕ → ℕ → ℕ → WaylandAdapter H K → WaylandAdapter H K
  unfolding Repeat.release emit_forward_key
  dispatch_key_release now time key a =
      let s = record (a.state) { client_repeat = Repeat.release key a.state.client_repeat } in
      let s' = record (emit_forward_key time key 0 s) {
        last_forwarded_release = some (key, now);
      } in
      adapter (h.on_key_released now time key a.handler s')

  -- The edit that the handler asked for.
  abbrev apply_edit : ℕ → ℕ → ℕ → Text → H → AdapterState K → WaylandAdapter H K
  unfolding held_user_kc
  apply_edit now time backspaces commit handler s =
      adapter (h.apply_pending now time backspaces commit s.raw_mods (held_user_kc s) handler s)

  unfoldable pub apply_done_frame : ℕ → WaylandAdapter H K → WaylandAdapter H K
  unfolding finish_frame snapshot
  apply_done_frame now a =
      let s = record (a.state) {
        serial = u32 (a.state.serial + 1);
        pending_im_commit_ack = false;
      } in
      finish_frame s.pending_frame.pending_deactivate (h.on_done_frame now (snapshot s) a.handler s)

module _ {H K : Type 0} (lib : Xkbcommon K) (h : AdapterHandler H K) where
  unfoldable pub finish_press : ℕ → ℕ → ℕ → (H × AdapterState K) × KeyDecision → WaylandAdapter H K
  unfolding emit_forward_key Repeat.arm held_user_kc Xkb.key_repeats
  finish_press now time key (hs, consumed) = adapter hs
  finish_press now time key ((handler, s), forward_raw) =
      adapter (handler, stamp_press now key (emit_forward_key time key 1 s))
  finish_press now time key ((handler, s), KeyDecision.apply method backspaces commit) =
      let armed = record s {
        client_repeat =
            if repeats lib s.xkb key
            then Repeat.arm key time now s.client_repeat
            else s.client_repeat;
      } in
      apply_edit h now time backspaces commit handler armed

  unfoldable pub dispatch_key_press : ℕ → ℕ → ℕ → WaylandAdapter H K → WaylandAdapter H K
  unfolding finish_press Repeat.cancel Xkb.key_to_char
  dispatch_key_press now time key a =
      let s = record (a.state) { client_repeat = Repeat.cancel a.state.client_repeat } in
      finish_press now time key (h.on_key_pressed now time key (char_of lib s.xkb key) a.handler s)

  unfoldable pub finish_repeat :
      ℕ → ℕ → ℕ → Bool → (H × AdapterState K) × KeyDecision → WaylandAdapter H K
  unfolding emit_forward_key held_user_kc
  finish_repeat now time key client_timer (hs, consumed) = end_repeat (adapter hs)
  finish_repeat now time key client_timer ((handler, s), forward_raw) =
      end_repeat (adapter (handler, emit_all time key (repeat_forward_values client_timer) s))
  finish_repeat now time key client_timer
        ((handler, s), KeyDecision.apply method backspaces commit) =
      end_repeat
        (apply_edit h now time backspaces commit handler (record s { forwarding_repeat = false }))

  -- A repeat of the compositor's, or of the adapter's own timer.
  unfoldable pub dispatch_key_repeat_inner :
      ℕ → ℕ → ℕ → Bool → WaylandAdapter H K → WaylandAdapter H K
  unfolding finish_repeat Xkb.key_to_char
  dispatch_key_repeat_inner now time key client_timer a =
      let s = record (a.state) { forwarding_repeat = true } in
      finish_repeat now time key client_timer
        (h.on_key_pressed now time key (char_of lib s.xkb key) a.handler s)

  -- Past the expired echoes: one to skip, or an update of the user's.
  unfoldable pub settle_modifiers :
      ModifierSnapshot → Option (List ModifierSnapshot) → H → AdapterState K → WaylandAdapter H K
  unfolding take_modifiers
  settle_modifiers m (some rest) handler s =
      adapter (handler, record s { synthetic_mods = pop_echo rest s.synthetic_mods })
  settle_modifiers m none handler s =
      let s' = take_modifiers lib m s in adapter (h.on_modifiers s'.modifiers handler s')

  unfoldable pub handle_modifiers : ℕ → ModifierSnapshot → WaylandAdapter H K → WaylandAdapter H K
  unfolding expire_echoes settle_modifiers
  handle_modifiers now m a =
      let q = expire_echoes now a.state.synthetic_mods in
      settle_modifiers m (take_echo m q.expected) a.handler
        (record (a.state) { synthetic_mods = q })
