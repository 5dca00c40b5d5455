-- ===== src/Composer/Ratchet/Steps.antt =====
-- `commit_string_functional` of crates/daemon/src/composer.rs over every sequence of operations.
use daklak_rs.Prelude.{
  ℕ, ◌≡◌, refl, Bool, true, false, ◌&&◌, Option, none, some, ltb, ◌-◌, ◌/◌, last?,
}
use daklak_rs.Text.{Text}
use daklak_rs.Strategy.Types.{BackspaceMethod, OutputSink, is_surrounding}
use daklak_rs.Engine
use daklak_rs.Engine.Context.{InputMethod}
use daklak_rs.Engine.State.{VnkeyEngine}
use daklak_rs.Composer.EditModel
use daklak_rs.Composer.Plan.{KeyFinishPlan, forward, KeyStartPlan, plan_key_start}
use daklak_rs.Composer.State
use daklak_rs.Composer.State.{Composer}
use daklak_rs.Composer.Keys
use daklak_rs.Composer.Apply
use daklak_rs.Composer.Frames
use daklak_rs.Composer.Ratchet.{
  Latch, IsLatched, either-IsLatched, either-IsLatched_pair, revalidate-IsLatched,
  refresh-IsLatched, inner-IsLatched, apply_surrounding-IsLatched,
}

-- One operation of a live composer, over any sink, but for the resets. `apply_to_sink` is a sending that
-- does not preserve the engine, and both kinds of surrounding text are read by `apply_surrounding`.
pub data Step {E S : Type 0} (vnkey : VnkeyEngine E) (o : OutputSink S)
    : Composer E → Composer E → Type 0 where
  acting : (now : ℕ) (c : Composer E) → Step vnkey o c (State.mark_action now c)
  deferring : (now : ℕ) (c : Composer E) → Step vnkey o c (State.defer_action now c)
  choosing_tier : (m : BackspaceMethod) (c : Composer E) → Step vnkey o c (State.set_method m c)
  choosing_style : (on : Bool) (c : Composer E) → Step vnkey o c (State.set_modern_style vnkey on c)
  watching :
      (t : Text) (cursor : ℕ) (c : Composer E)
      → Step vnkey o c (State.note_surrounding_liveness t cursor c).0
  correcting : (c : Composer E) → Step vnkey o c (State.note_surrounding_correction c).0
  idling : (now : ℕ) (c : Composer E) → Step vnkey o c (State.check_idle_reset vnkey now c).0
  typing : (ch now : ℕ) (c : Composer E) → Step vnkey o c (Keys.feed_key vnkey ch now c).0
  erasing : (now : ℕ) (c : Composer E) → Step vnkey o c (Keys.feed_backspace vnkey now c).0
  unrecording : (c : Composer E) → Step vnkey o c (Keys.unrecord_forwarded_char vnkey c)
  sending :
      (n : ℕ) (t : Text) (serial time : ℕ) (sink : S) (preserve : Bool) (c : Composer E)
      → Step vnkey o c (Apply.apply_to_sink_inner vnkey o n t serial time sink preserve c).0
  repairing :
      (n : ℕ) (t : Text) (serial time : ℕ) (sink : S) (c : Composer E)
      → Step vnkey o c (Apply.apply_confirmed_repair_to_sink vnkey o n t serial time sink c).0
  sending_plain :
      (n : ℕ) (t : Text) (time : ℕ) (sink : S) (c : Composer E)
      → Step vnkey o c (Apply.apply vnkey o n t time sink c).0
  skipping :
      (t : Text) (cursor anchor : ℕ) (activate deactivate : Bool) (c : Composer E)
      → Step vnkey o c
          (Frames.should_skip_surrounding_frame t cursor anchor activate deactivate c).0
  reading :
      (t : Text) (cursor anchor : ℕ) (force : Bool) (now : ℕ) (c : Composer E)
      → Step vnkey o c (Frames.apply_surrounding vnkey t cursor anchor force now c).0
  forgetting : (c : Composer E) → Step vnkey o c (Frames.clear_prev_surrounding c)
  confirming :
      (on : Bool) (c : Composer E) → Step vnkey o c (State.set_surrounding_confirmation on c)
  seeing_frames : (c : Composer E) → Step vnkey o c (State.mark_surrounding_frame_seen c)
  modifying : (m : ℕ) (c : Composer E) → Step vnkey o c (State.set_modifiers m c)

-- The resets. A new input method is one.
pub data Reset {E : Type 0} (vnkey : VnkeyEngine E) : Composer E → Composer E → Type 0 where
  resetting : (c : Composer E) → Reset vnkey c (State.full_reset vnkey c)
  starting_over :
      (c : Composer E) → Reset vnkey c (State.reset_composition_preserving_surrounding vnkey c)
  choosing_method :
      (m : InputMethod) (c : Composer E) → Reset vnkey c (State.set_input_method vnkey m c)

pub data Steps {E S : Type 0} (vnkey : VnkeyEngine E) (o : OutputSink S)
    : Composer E → Composer E → Type 0 where
  done : (c : Composer E) → Steps vnkey o c c
  more : {c c' c'' : Composer E} → Step vnkey o c c' → Steps vnkey o c' c'' → Steps vnkey o c c''
  reset : {c c' c'' : Composer E} → Reset vnkey c c' → Steps vnkey o c' c'' → Steps vnkey o c c''

module _ (latch : Latch) where
  module _ {E : Type 0} where
    watching-IsLatched :
        (t : Text) (cursor : ℕ) (c : Composer E)
        → IsLatched latch c
        → IsLatched latch (State.note_surrounding_liveness t cursor c).0
    unfolding State.note_surrounding_liveness
    watching-IsLatched t cursor c h = either-IsLatched_pair latch _ _ _ h h

  module _ {E : Type 0} (vnkey : VnkeyEngine E) where
    idling-IsLatched :
        (now : ℕ) (c : Composer E)
        → IsLatched latch c
        → IsLatched latch (State.check_idle_reset vnkey now c).0
    unfolding State.check_idle_reset State.reset_engine
    idling-IsLatched now c h =
        either-IsLatched_pair latch (ltb ((now - c.last_keystroke_at) / 1000) 2) _ _ h
          (either-IsLatched latch (is_surrounding c.edit.strategy.method) _ _ h h)

    start_key-IsLatched :
        (plan : KeyStartPlan) (c : Composer E)
        → IsLatched latch c
        → IsLatched latch (Keys.start_key vnkey plan c)
    unfolding Keys.start_key
    start_key-IsLatched plan c h =
        seeded plan.seed_word _
          (cleared plan.clear_non_alpha_context _ (speculated plan.reset_speculation c h))
      where
        speculated :
            (b : Bool) (c : Composer E)
            → IsLatched latch c
            → IsLatched latch (Keys.start_speculation vnkey b c)
        speculated true c h = h
        speculated false c h = h

        cleared :
            (b : Bool) (c : Composer E)
            → IsLatched latch c
            → IsLatched latch (Keys.start_context vnkey b c)
        cleared true c h = h
        cleared false c h = h

        seeded :
            (w : Option Text) (c : Composer E)
            → IsLatched latch c
            → IsLatched latch (Keys.start_seed vnkey w c)
        seeded none c h = h
        seeded (some w) c h = h

    finish_key-IsLatched :
        (plan : KeyFinishPlan) (ch : ℕ) (c : Composer E)
        → IsLatched latch c
        → IsLatched latch (Keys.finish_key vnkey plan ch c).0
    unfolding Keys.finish_key
    finish_key-IsLatched (KeyFinishPlan.apply n t) ch c h = h
    finish_key-IsLatched (forward p) ch c h = h

    typing-IsLatched :
        (ch now : ℕ) (c : Composer E)
        → IsLatched latch c
        → IsLatched latch (Keys.feed_key vnkey ch now c).0
    unfolding Keys.feed_key Keys.engine_key
    typing-IsLatched ch now c h =
        let plan = plan_key_start (Keys.capture vnkey c ch) in
        finish_key-IsLatched _ ch (Keys.engine_key vnkey ch now (Keys.start_key vnkey plan c)).0
          (start_key-IsLatched plan c h)

    erasing-IsLatched :
        (now : ℕ) (c : Composer E)
        → IsLatched latch c
        → IsLatched latch (Keys.feed_backspace vnkey now c).0
    unfolding Keys.feed_backspace State.reset_engine
    erasing-IsLatched now c h =
        let r = (Engine.State.process_backspace vnkey c.engine).1 in
        either-IsLatched_pair latch r.consumed _ _ h (
          either-IsLatched latch
            (ltb 0 r.backspaces && Keys.is_composed (last? (EditModel.shadow_text c.edit))) _ _ h h)

    unrecording-IsLatched :
        (c : Composer E)
        → IsLatched latch c
        → IsLatched latch (Keys.unrecord_forwarded_char vnkey c)
    unfolding Keys.unrecord_forwarded_char State.reset_engine
    unrecording-IsLatched c h =
        either-IsLatched latch (Keys.has_pending_edit c.confirmation) _ _ h h

  module _ {E S : Type 0} (vnkey : VnkeyEngine E) (o : OutputSink S) where
    pub Step-IsLatched :
        {c c' : Composer E} → Step vnkey o c c' → IsLatched latch c → IsLatched latch c'
    unfolding State.mark_action State.defer_action State.set_method State.set_modern_style
        State.note_surrounding_correction Apply.apply_confirmed_repair_to_sink Apply.apply
        Frames.should_skip_surrounding_frame Frames.clear_prev_surrounding
        State.set_surrounding_confirmation State.mark_surrounding_frame_seen State.set_modifiers
    Step-IsLatched (acting now c) h = h
    Step-IsLatched (deferring now c) h = h
    Step-IsLatched (choosing_tier m c) h = h
    Step-IsLatched (choosing_style on c) h = h
    Step-IsLatched (watching t cursor c) h = watching-IsLatched t cursor c h
    Step-IsLatched (correcting c) h = h
    Step-IsLatched (idling now c) h = idling-IsLatched vnkey now c h
    Step-IsLatched (typing ch now c) h = typing-IsLatched vnkey ch now c h
    Step-IsLatched (erasing now c) h = erasing-IsLatched vnkey now c h
    Step-IsLatched (unrecording c) h = unrecording-IsLatched vnkey c h
    Step-IsLatched (sending n t serial time sink preserve c) h =
        inner-IsLatched latch vnkey o n t serial time sink preserve c h
    Step-IsLatched (repairing n t serial time sink c) h =
        inner-IsLatched latch vnkey o n t serial time sink true c h
    Step-IsLatched (sending_plain n t time sink c) h = refresh-IsLatched latch vnkey n _ h
    Step-IsLatched (skipping t cursor anchor activate deactivate c) h =
        revalidate-IsLatched latch _ c h
    Step-IsLatched (reading t cursor anchor force now c) h =
        apply_surrounding-IsLatched latch vnkey t cursor anchor force now c h
    Step-IsLatched (forgetting c) h = h
    Step-IsLatched (confirming on c) h = h
    Step-IsLatched (seeing_frames c) h = h
    Step-IsLatched (modifying m c) h = h

-- `commit_string` is held not to work.
abbrev pub IsOff : {E : Type 0} → Composer E → Type 0
IsOff c = c.commit_string_functional ≡ false

abbrev off_latch : Latch
off_latch = record { kept = λ off sticky. off ≡ false; goes_off = λ h. refl; comes_on = λ h. h }

module _ {E S : Type 0} (vnkey : VnkeyEngine E) (o : OutputSink S) where
  Reset-IsOff : {c c' : Composer E} → Reset vnkey c c' → IsOff c → IsOff c'
  unfolding State.full_reset State.reset_composition_preserving_surrounding State.set_input_method
  Reset-IsOff (resetting c) h = h
  Reset-IsOff (starting_over c) h = h
  Reset-IsOff (choosing_method m c) h = h

  -- Once a composer holds that the client's `commit_string` does not work, no sequence of its operations,
  -- resets included, makes it hold again that it does: that takes a new composer.
  pub Steps-IsOff : {c c' : Composer E} → Steps vnkey o c c' → IsOff c → IsOff c'
  Steps-IsOff (done c) h = h
  Steps-IsOff (more s r) h = Steps-IsOff r (Step-IsLatched off_latch vnkey o s h)
  Steps-IsOff (reset s r) h = Steps-IsOff r (Reset-IsOff s h)
