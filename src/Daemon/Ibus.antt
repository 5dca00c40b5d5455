-- ===== src/Daemon/Ibus.antt =====
-- The sessions of `Daemon` in crates/daemon/src/handler.rs, and what the IBus transport has it do with a
-- frame and with an edit. Log lines are left out.
use daklak_rs.Prelude.{ℕ, Bool, true, false, ◌&&◌, Option, none, some, ltb, if◌then◌else◌}
use daklak_rs.Text.{Text}
use daklak_rs.Strategy.Types.{
  BackspaceMethod, surrounding_text, forward_key, OutputSink, is_surrounding,
}
use daklak_rs.Engine.State.{VnkeyEngine}
use daklak_rs.Composer.State
use daklak_rs.Composer.State.{Composer, get_method}
use daklak_rs.Composer.Apply
use daklak_rs.Composer.Frames
use daklak_rs.Daemon.{Daemon, to_engine, with_composer, on_composer}

abbrev pub same_tier : BackspaceMethod → BackspaceMethod → Bool
same_tier surrounding_text surrounding_text = true
same_tier forward_key forward_key = true
same_tier _ _ = false

module _ {E : Type 0} where
  -- Two empty frames in a row, after a commit, take the SurroundingText tier away.
  unfoldable pub check_liveness : Text → ℕ → Composer E → Composer E
  unfolding State.note_surrounding_liveness State.set_method
  check_liveness t cursor w =
      let (w', dead) = State.note_surrounding_liveness t cursor w in
      if is_surrounding (get_method w)
      then if dead
        then record (State.set_method forward_key w') { commit_string_functional = false }
        else w'
      else w

  -- The second correction with no echo takes the SurroundingText tier away before it is sent.
  unfoldable pub check_correction : ℕ → Composer E → Composer E
  unfolding State.note_surrounding_correction State.set_method
  check_correction backspaces w =
      let (w', downgrade) = State.note_surrounding_correction w in
      if ltb 0 backspaces && is_surrounding (get_method w)
      then if downgrade then State.set_method forward_key w' else w'
      else w

module _ {E : Type 0} (vnkey : VnkeyEngine E) where
  -- `Composer::new`, with the style and the modifiers of the session.
  unfoldable pub new_session : BackspaceMethod → ℕ → Daemon E → Composer E
  unfolding State.new State.set_modern_style State.set_modifiers to_engine
  new_session method now d = State.set_modifiers d.router.modifiers (
      State.set_modern_style vnkey d.config.modern_style
        (State.new vnkey (to_engine d.config.method) method d.config.bracket_shortcuts now))

  unfoldable pub activate_evdev : ℕ → Daemon E → Daemon E
  unfolding new_session
  activate_evdev now d = record d {
    router = record (d.router) {
      current_active = true;
      synthetic_active = true;
      composer = some (new_session forward_key now d);
    };
  }

  unfoldable pub activate_ibus : BackspaceMethod → ℕ → Daemon E → Daemon E
  unfolding new_session
  activate_ibus method now d = if d.router.current_active then d else record d {
    router = record (d.router) {
      current_active = true;
      composer = some (new_session method now d);
    };
  }

  -- The composer is reset and then dropped.
  unfoldable pub deactivate_ibus : Daemon E → Daemon E
  deactivate_ibus d = record d {
    router = record (d.router) { current_active = false; composer = none };
  }

  unfoldable pub update_ibus_method : BackspaceMethod → Daemon E → Daemon E
  unfolding on_composer State.set_method
  update_ibus_method want d =
      on_composer (λ w. if same_tier (get_method w) want then w else State.set_method want w) d

  -- The body of `observe_surrounding` for a composer.
  unfoldable pub read_frame : Text → ℕ → ℕ → ℕ → Composer E → Composer E
  unfolding check_liveness State.mark_surrounding_frame_seen Frames.should_skip_surrounding_frame
      Frames.observe_surrounding_chars
  read_frame t cursor anchor now w =
      let alive = check_liveness t cursor (State.mark_surrounding_frame_seen w) in
      let (checked, skip) =
        Frames.should_skip_surrounding_frame t cursor anchor false false alive in
      if skip then checked else Frames.observe_surrounding_chars vnkey t cursor anchor now checked

  unfoldable pub observe_surrounding : Text → ℕ → ℕ → ℕ → Daemon E → Daemon E
  unfolding read_frame on_composer
  observe_surrounding t cursor anchor now d = on_composer (read_frame t cursor anchor now) d

module _ {E S : Type 0} (vnkey : VnkeyEngine E) (o : OutputSink S) where
  unfoldable pub send_with : ℕ → Text → ℕ → S → Option (Composer E) → Daemon E → Daemon E × S
  unfolding check_correction Apply.apply
  send_with backspaces commit time sink none d = (d, sink)
  send_with backspaces commit time sink (some w) d =
      let (w', sink') =
        Apply.apply vnkey o backspaces commit time sink (check_correction backspaces w) in
      (with_composer (some w') d, sink')

  unfoldable pub apply_with_sink : ℕ → Text → ℕ → S → Daemon E → Daemon E × S
  unfolding send_with
  apply_with_sink backspaces commit time sink d =
      send_with backspaces commit time sink d.router.composer d
