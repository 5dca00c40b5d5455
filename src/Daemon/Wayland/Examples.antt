-- ===== src/Daemon/Wayland/Examples.antt =====
-- The theorems on the sessions of the Wayland transport at concrete inputs, over a small engine.
use daklak_rs.Prelude.{ℕ, ◌≡◌, refl, Bool, true, false, some, none, is_some, List, [], ◌∷◌, arith}
use daklak_rs.Text.{Text}
use daklak_rs.Strategy.Types.{forward_key}
use daklak_rs.Engine.Toy.{toy_engine}
use daklak_rs.Engine.Context.{InputMethod}
use daklak_rs.Composer.State
use daklak_rs.Keymap.Toy.{toy_xkb}
use daklak_rs.Wayland.Frame.{FrameSnapshot}
use daklak_rs.Wayland.State as Adapter
use daklak_rs.Wayland.State.{AdapterState, Request}
use daklak_rs.Daemon.{Daemon, telex}
use daklak_rs.Daemon.Ibus.{deactivate_ibus}
use daklak_rs.Keymap.{EmitSpec, char_to_emit}
use daklak_rs.Keymap.Inventory.{safe_keycodes, vn_lower, vn_upper}
use daklak_rs.Emitter.{ModifierSnapshot}
use daklak_rs.Wayland.Frame.{im_v2}
use daklak_rs.Wayland.State.{no_echoes}
use daklak_rs.Wayland.Sink.{SinkParams, commit_char}
use daklak_rs.Wayland.Context.{adapter}
use daklak_rs.Wayland.Echo.{Weave, run, with_echoes}
use daklak_rs.Wayland.Echo.Commit.{commit_char-Weave}
use daklak_rs.Daemon.Wayland.Echoes.{daemon_handler-IgnoresEchoes}
use daklak_rs.Daemon.Wayland.Handler.{on_done_frame, daemon_handler}
use daklak_rs.Daemon.Wayland.Sessions.{IsRouted}
use daklak_rs.Daemon.Wayland.Lifecycle.{Step, Reach, Reach-IsRouted}
use daklak_rs.Daemon.Wayland.Activation.{session_after, on_done_frame-session_after}

-- A synthetic session.
abbrev synthetic : Daemon Text
synthetic = record {
  config = record { method = telex; modern_style = true; bracket_shortcuts = false };
  router = record {
    modifiers = 0;
    current_active = true;
    synthetic_active = true;
    composer = some (State.new toy_engine InputMethod.telex forward_key false 100000);
    focused_app_id = none;
    last_enabled = true;
  };
  enabled = true;
  suspended = false;
  last_config = record { method = telex; modern_style = true; enable_evdev_grab = false };
}

-- A frame that activates.
abbrev activating : FrameSnapshot
activating = record {
  activate = true;
  deactivate = false;
  surrounding_text = none;
  purpose = 0;
  app_id = none;
  is_xwayland = false;
}

abbrev keyboard : AdapterState Bool
keyboard = Adapter.new

abbrev flushes : List Request → Bool
flushes rs = true

on_done_frame-session_after_example :
    let d' =
      (on_done_frame toy_engine toy_xkb flushes none 100100 activating synthetic keyboard).0 in
    let active = session_after true false true true in
    (d'.router.current_active ≡ active) × (is_some d'.router.composer ≡ active)
on_done_frame-session_after_example =
    on_done_frame-session_after toy_engine toy_xkb flushes none 100100 activating synthetic keyboard
      refl

-- The frame, and the end of a session of IBus.
Reach-IsRouted_example :
    let framed =
      (on_done_frame toy_engine toy_xkb flushes none 100100 activating synthetic keyboard).0 in
    IsRouted (deactivate_ibus toy_engine framed)
Reach-IsRouted_example =
    let framed =
      (on_done_frame toy_engine toy_xkb flushes none 100100 activating synthetic keyboard).0 in
    Reach-IsRouted toy_engine toy_xkb flushes refl (
      Reach.next (Reach.next Reach.here (Step.frame synthetic none 100100 activating keyboard))
        (Step.end_ibus framed))

abbrev mods_of : ℕ → ModifierSnapshot
mods_of depressed = record { depressed = depressed; latched = 0; locked = 0; group = 0 }

abbrev params : SinkParams
params = record {
  protocol = im_v2;
  serial = 3;
  raw_mods = mods_of 0;
  held_user_kc = none;
  commit_string_functional = false;
}

-- The capital letter A.
abbrev shifted_key : EmitSpec
shifted_key = record { keycode = 30; mods = 1 }

-- The two echoes, and the user's Control between them.
commit_char-Weave_example :
    let h = daemon_handler toy_engine toy_xkb flushes (λ now. none) in
    let s' = (commit_char params im_v2 40 b'A' 100 keyboard).0 in
    run toy_xkb h
      ((110, mods_of 1) ∷ (115, mods_of 4) ∷ (120, mods_of 0) ∷ [])
      (adapter (synthetic, s'))
    ≡ run toy_xkb h ((115, mods_of 4) ∷ []) (adapter (synthetic, with_echoes no_echoes s'))
unfolding Adapter.new char_to_emit safe_keycodes vn_lower vn_upper
commit_char-Weave_example =
    commit_char-Weave toy_xkb (daemon_handler toy_engine toy_xkb flushes (λ now. none))
      (daemon_handler-IgnoresEchoes toy_engine toy_xkb flushes (λ now. none)) params shifted_key 40
      b'A' 100 synthetic keyboard refl refl refl
      (Weave.echo 110 (mods_of 1)
        (Weave.user 115 (mods_of 0) (mods_of 4) refl (Weave.echo 120 (mods_of 0) (Weave.rest []))))
      (omega arith, (omega arith, (omega arith, tt)))
