-- ===== src/Daemon/Wayland/Handler.antt =====
-- The callbacks of `impl AdapterHandler for Daemon` in crates/daemon/src/transport/wayland.rs that reach
-- the composer. What the control channel holds unseen at a time is a parameter. Log lines are left out.
use daklak_rs.Prelude.{
  ℕ, Bool, true, false, not, ◌&&◌, ◌||◌, List, [], ◌∷◌, Option, none, some, ◌==◌, if◌then◌else◌,
}
use daklak_rs.Text.{Text}
use daklak_rs.Strategy.Types.{BackspaceMethod, forward_key, KeyDecision, consumed, forward_raw}
use daklak_rs.Engine.State.{VnkeyEngine}
use daklak_rs.Composer.State
use daklak_rs.Composer.State.{Composer, get_method}
use daklak_rs.Composer.Confirm.{RetroEdit}
use daklak_rs.Composer.Keys
use daklak_rs.Composer.Apply
use daklak_rs.Composer.Frames
use daklak_rs.Keymap.Xkb.{Xkbcommon}
use daklak_rs.Emitter.{ModifierSnapshot}
use daklak_rs.Wayland.Frame.{FrameSnapshot}
use daklak_rs.Wayland.State.{AdapterState, Request}
use daklak_rs.Wayland.Context.{AdapterHandler, with_sink, vk_key_press_unstamped, is_level_shifted}
use daklak_rs.Daemon.{
  Daemon, ConfigChange, key_backspace, is_nav_key, has_shortcut_mods, with_composer, on_composer,
  sync_config, sync_enabled_edge, handle_char, handle_backspace,
}
use daklak_rs.Daemon.Wayland.{
  is_control, drop_synthetic, late_upgrade, on_modifiers, switch_session, admit_frame,
  on_focus_changed,
}

abbrev is_raw : KeyDecision → Bool
is_raw forward_raw = true
is_raw _ = false

-- `map(|w| w.method()).unwrap_or(ForwardKey)`.
abbrev method_or_forward : {E : Type 0} → Option (Composer E) → BackspaceMethod
method_or_forward none = forward_key
method_or_forward (some w) = get_method w

module _ {E : Type 0} (vnkey : VnkeyEngine E) where
  -- The end of a composition whose text stays known, unless the key is a repeat.
  unfoldable pub leave_word : Bool → ℕ → Daemon E → Daemon E
  unfolding on_composer State.reset_composition_preserving_surrounding State.defer_action
  leave_word repeat now d =
      if repeat
      then d
      else on_composer
          (λ w. State.defer_action now (State.reset_composition_preserving_surrounding vnkey w)) d

module _ {E K : Type 0} (vnkey : VnkeyEngine E) (lib : Xkbcommon K) where
  -- A character that goes by the composer at another level is committed as text.
  unfoldable pub commit_shifted :
      ℕ → ℕ → AdapterState K → Daemon E × KeyDecision → Daemon E × KeyDecision
  unfolding on_composer Keys.unrecord_forwarded_char is_level_shifted is_control
  commit_shifted key ch s (d, decision) =
      let d' = on_composer (Keys.unrecord_forwarded_char vnkey) d in
      if is_raw decision
        && s.profile.has_keysym_commit
        && is_level_shifted lib key ch s
        && not (is_control ch)
      then (d', KeyDecision.apply (method_or_forward d'.router.composer) 0 (ch ∷ []))
      else (d, decision)

  unfoldable pub type_char : ℕ → Option ℕ → ℕ → AdapterState K → Daemon E → Daemon E × KeyDecision
  unfolding commit_shifted handle_char
  type_char key none now s d = (d, forward_raw)
  type_char key (some ch) now s d = commit_shifted key ch s (handle_char vnkey ch now d)

  unfoldable pub compose_key :
      Option (Composer E) → ℕ → Option ℕ → ℕ → AdapterState K → Daemon E → Daemon E × KeyDecision
  unfolding handle_backspace on_composer State.mark_action type_char
  compose_key none key ch now s d = (d, forward_raw)
  compose_key (some w) key ch now s d =
      if key == key_backspace
      then handle_backspace vnkey now d
      else type_char key ch now s (on_composer (State.mark_action now) d)

  -- Past the settings, the idle check and the edge of the switch.
  unfoldable pub guard_press :
      Bool
      → Bool
      → ℕ
      → ℕ
      → Option ℕ
      → ℕ
      → AdapterState K
      → Daemon E
      → (Daemon E × AdapterState K) × KeyDecision
  unfolding on_composer State.full_reset leave_word vk_key_press_unstamped has_shortcut_mods
      is_nav_key compose_key
  guard_press enabled repeat time key ch now s d =
      let (composed, decision) = compose_key d.router.composer key ch now s d in
      if not enabled
      then ((d, s), forward_raw)
      else if d.suspended
      then ((on_composer (State.full_reset vnkey) d, s), forward_raw)
      else if has_shortcut_mods d.router.modifiers || is_nav_key key
      then ((leave_word vnkey repeat now d, vk_key_press_unstamped time key s), consumed)
      else ((composed, s), decision)

  unfoldable pub on_key_pressed :
      Option ConfigChange
      → ℕ
      → ℕ
      → ℕ
      → Option ℕ
      → Daemon E
      → AdapterState K
      → (Daemon E × AdapterState K) × KeyDecision
  unfolding on_composer guard_press
  on_key_pressed change now time key ch d s =
      let repeat = s.forwarding_repeat in
      let synced = sync_config vnkey change d in
      let (edged, _) =
        sync_enabled_edge vnkey
          (on_composer (λ w. (State.check_idle_reset vnkey now w).0) synced) in
      guard_press synced.enabled repeat time key ch now s (if repeat then synced else edged)

module _ {E K : Type 0} (vnkey : VnkeyEngine E) (lib : Xkbcommon K)
    (flush : List Request → Bool) where
  -- The repair that a frame asked for, with no key held and no time.
  unfoldable pub send_repair :
      Option RetroEdit → ℕ → Composer E → AdapterState K → Composer E × AdapterState K
  unfolding with_sink
  send_repair none now w s = (w, s)
  send_repair (some r) now w s =
      with_sink lib flush s.raw_mods none w.commit_string_functional now
        (λ o w' s'.
          Apply.apply_confirmed_repair_to_sink vnkey o r.backspaces r.commit s.serial 0 s' w')
        w s

  unfoldable pub read_text :
      Text → ℕ → ℕ → Bool → Bool → ℕ → Composer E → AdapterState K → Composer E × AdapterState K
  unfolding admit_frame late_upgrade send_repair
  read_text t cursor anchor activate deactivate now w s =
      let (w', skip) = admit_frame vnkey t cursor anchor activate deactivate w in
      let (seen, repair) =
        Frames.observe_surrounding_bytes vnkey t cursor anchor activate now
          (late_upgrade activate w') in
      if skip then (w', s) else send_repair repair now seen s

  unfoldable pub read_frame :
      Option (Text × ℕ × ℕ)
      → Bool
      → Bool
      → ℕ
      → Composer E
      → AdapterState K
      → Composer E × AdapterState K
  unfolding read_text Frames.clear_prev_surrounding
  read_frame (some (t, cursor, anchor)) activate deactivate now w s =
      read_text t cursor anchor activate deactivate now w s
  read_frame none activate deactivate now w s =
      (if activate || deactivate then w else Frames.clear_prev_surrounding w, s)

  -- The frame, for the composer of the session if there is one.
  unfoldable pub follow_frame :
      Option (Composer E)
      → FrameSnapshot
      → Bool
      → Bool
      → ℕ
      → Daemon E
      → AdapterState K
      → Daemon E × AdapterState K
  unfolding read_frame
  follow_frame none frame activate deactivate now d s = (d, s)
  follow_frame (some w) frame activate deactivate now d s =
      let (w', s') = read_frame frame.surrounding_text activate deactivate now w s in
      (with_composer (some w') d, s')

  unfoldable pub on_done_frame :
      Option ConfigChange
      → ℕ
      → FrameSnapshot
      → Daemon E
      → AdapterState K
      → Daemon E × AdapterState K
  unfolding drop_synthetic switch_session follow_frame
  on_done_frame change now frame d s =
      let real = drop_synthetic frame.activate (sync_config vnkey change d) in
      let activate = frame.activate && not real.router.current_active in
      let deactivate = frame.deactivate && real.router.current_active in
      let switched = switch_session vnkey activate deactivate frame now real in
      follow_frame switched.router.composer frame activate deactivate now switched s

  unfoldable pub send_pending :
      Option (Composer E)
      → ℕ
      → ℕ
      → ℕ
      → Text
      → ModifierSnapshot
      → Option ℕ
      → Daemon E
      → AdapterState K
      → Daemon E × AdapterState K
  unfolding with_sink
  send_pending none now time backspaces commit raw_mods held d s = (d, s)
  send_pending (some w) now time backspaces commit raw_mods held d s =
      let (w', s') =
        with_sink lib flush raw_mods held w.commit_string_functional now
          (λ o w' s'. Apply.apply_to_sink vnkey o backspaces commit s.serial time s' w') w s in
      (with_composer (some w') d, s')

  unfoldable pub apply_pending :
      ℕ
      → ℕ
      → ℕ
      → Text
      → ModifierSnapshot
      → Option ℕ
      → Daemon E
      → AdapterState K
      → Daemon E × AdapterState K
  unfolding send_pending
  apply_pending now time backspaces commit raw_mods held d s =
      send_pending d.router.composer now time backspaces commit raw_mods held d s

  -- The implementation of `AdapterHandler`; `unseen` is what the control channel holds at a time.
  unfoldable pub daemon_handler : (ℕ → Option ConfigChange) → AdapterHandler (Daemon E) K
  unfolding on_done_frame on_key_pressed apply_pending on_modifiers on_focus_changed
  daemon_handler unseen = record {
    on_done_frame = λ now frame d s. on_done_frame (unseen now) now frame d s;
    on_key_pressed =
        λ now time key ch d s. on_key_pressed vnkey lib (unseen now) now time key ch d s;
    apply_pending = λ now time n t m held d s. apply_pending now time n t m held d s;
    on_key_released = λ now time key d s. (d, s);
    on_modifiers = λ m d s. on_modifiers m d s;
    on_focus_changed = λ now app x d s. on_focus_changed vnkey now app x d s;
  }
