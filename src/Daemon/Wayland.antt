-- ===== src/Daemon/Wayland.antt =====
-- `impl AdapterHandler for Daemon` in crates/daemon/src/transport/wayland.rs. Log lines are left out.
pub mod Handler
pub mod Sessions
pub mod Lifecycle
pub mod Activation
pub mod Echoes
mod Examples
use daklak_rs.Prelude.{
  ℕ, Bool, true, false, not, ◌&&◌, ◌||◌, List, [], ◌∷◌, Option, none, some, ltb, leb, ◌==◌,
  if◌then◌else◌, is_some,
}
use daklak_rs.Text.{Text, text_eq}
use daklak_rs.Strategy.Types.{
  BackspaceMethod, surrounding_text, forward_key, KeyDecision, consumed, forward_raw, OutputSink,
  CapabilityProbe, detect_method, is_surrounding,
}
use daklak_rs.Engine.State.{VnkeyEngine}
use daklak_rs.Composer.State
use daklak_rs.Composer.State.{Composer, get_method}
use daklak_rs.Composer.Confirm.{RetroEdit}
use daklak_rs.Composer.Keys
use daklak_rs.Composer.Apply
use daklak_rs.Composer.Frames
use daklak_rs.Keymap.Xkb.{Xkbcommon}
use daklak_rs.Emitter.{ModifierSnapshot}
use daklak_rs.Wayland.Frame.{FrameSnapshot}
use daklak_rs.Wayland.State.{AdapterState, Request}
use daklak_rs.Wayland.Context.{AdapterHandler, with_sink, vk_key_press_unstamped, is_level_shifted}
use daklak_rs.Daemon.{
  Daemon, ConfigChange, Router, key_backspace, is_nav_key, has_shortcut_mods, with_composer,
  on_composer, sync_config, handle_char, handle_backspace,
}
use daklak_rs.Daemon.Ibus.{new_session, check_liveness}

unfoldable pub detect_capability : FrameSnapshot → BackspaceMethod
unfolding detect_method
detect_capability frame =
    detect_method (record { surrounding_text_seen = is_some frame.surrounding_text })

-- `char::is_control`.
unfoldable pub is_control : ℕ → Bool
is_control c = ltb c 0x20 || (leb 0x7f c && ltb c 0xa0)

abbrev pub same_app : Option Text → Option Text → Bool
same_app none none = true
same_app (some a) (some b) = text_eq a b
same_app _ _ = false

module _ {E : Type 0} where
  -- The session is over.
  unfoldable pub end_session : Daemon E → Daemon E
  end_session d = record d {
    router = record (d.router) { current_active = false; composer = none; focused_app_id = none };
  }

  -- A real `Activate` takes the place of a synthetic session.
  unfoldable pub drop_synthetic : Bool → Daemon E → Daemon E
  unfolding end_session
  drop_synthetic activate d =
      let ended = end_session d in
      if activate && d.router.synthetic_active
      then record ended { router = record (ended.router) { synthetic_active = false } }
      else d

  -- The first frame with text takes the tier up.
  unfoldable pub late_upgrade : Bool → Composer E → Composer E
  unfolding State.set_method detect_method
  late_upgrade activate w =
      let upgraded = detect_method (record { surrounding_text_seen = true }) in
      if not activate && not (is_surrounding (get_method w)) && is_surrounding upgraded
      then State.set_method upgraded w
      else w

  unfoldable pub on_modifiers :
      {K : Type 0} → ℕ → Daemon E → AdapterState K → Daemon E × AdapterState K
  unfolding on_composer State.set_modifiers
  on_modifiers m d s = (
    on_composer (State.set_modifiers m) (record d { router = record (d.router) { modifiers = m } }),
    s,
  )

module _ {E : Type 0} (vnkey : VnkeyEngine E) where
  -- The session that a real `Activate` starts.
  unfoldable pub start_session : FrameSnapshot → ℕ → Daemon E → Daemon E
  unfolding new_session detect_capability State.set_surrounding_confirmation
  start_session frame now d = record d {
    router = record (d.router) {
      current_active = true;
      focused_app_id = frame.app_id;
      composer = some (
          State.set_surrounding_confirmation true
            (new_session vnkey (detect_capability frame) now d));
    };
  }

  -- The lifecycle part of a frame; both tests read the flag as it was before.
  unfoldable pub switch_session : Bool → Bool → FrameSnapshot → ℕ → Daemon E → Daemon E
  unfolding start_session end_session
  switch_session activate deactivate frame now d =
      if activate then start_session frame now d else if deactivate then end_session d else d

  -- A frame's text, before the reseed gate: the composer, and whether the frame is skipped.
  unfoldable pub admit_frame : Text → ℕ → ℕ → Bool → Bool → Composer E → Composer E × Bool
  unfolding check_liveness Frames.should_skip_surrounding_frame
  admit_frame t cursor anchor activate deactivate w =
      let alive = if activate then w else check_liveness t cursor w in
      Frames.should_skip_surrounding_frame t cursor anchor activate deactivate alive

  -- A synthetic session for a client without a text input.
  unfoldable pub start_synthetic : Option Text → ℕ → Daemon E → Daemon E
  unfolding new_session
  start_synthetic app_id now d = record d {
    router = record (d.router) {
      current_active = true;
      synthetic_active = true;
      focused_app_id = app_id;
      composer =
          some (record (new_session vnkey forward_key now d) { commit_string_functional = false });
    };
  }

  unfoldable pub on_focus_changed :
      {K : Type 0} → ℕ → Option Text → Bool → Daemon E → AdapterState K → Daemon E × AdapterState K
  unfolding start_synthetic end_session
  on_focus_changed now app_id is_xwayland d s =
      let r = d.router in
      let matched = is_some app_id && s.profile.has_vk_keyboard in
      let retargeted = r.synthetic_active && matched && not (same_app r.focused_app_id app_id) in
      let ended = end_session d in
      if matched && (not r.current_active || retargeted)
      then (start_synthetic app_id now d, s)
      else if r.synthetic_active && not matched
      then (record ended { router = record (ended.router) { synthetic_active = false } }, s)
      else (d, s)
