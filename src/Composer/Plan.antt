-- ===== src/Composer/Plan.antt =====
-- The pure decisions of crates/daemon/src/composer.rs: the confirmation state, what a key starts and
-- finishes with, and which surrounding frames are trusted.
use daklak_rs.Prelude.{
  ℕ, Bool, true, false, not, ◌&&◌, ◌||◌, Option, none, some, if◌then◌else◌, is_empty,
}
use daklak_rs.Text.{Text, is_ascii_alphabetic}
use daklak_rs.Strategy.Types.{BackspaceMethod, is_surrounding}
use daklak_rs.Engine.State.{ProcessResult}

-- A live engine edit kept while its key awaits a frame.
pub record PendingEngineEdit : Type 0 where
  pub backspaces : ℕ
  pub commit : Text
  pub base_word : Text

pub record PendingRaw : Type 0 where
  pub ch : ℕ
  pub repairable : Bool
  pub edit : Option PendingEngineEdit
  pub from_frame : Bool

pub data ConfirmationState : Type 0 where
  live live_confirmed frame_derived awaiting_frame : ConfirmationState
  pending_raw : PendingRaw → ConfirmationState

unfoldable pub get_pending_raw : ConfirmationState → Option PendingRaw
get_pending_raw (pending_raw p) = some p
get_pending_raw _ = none

abbrev pub is_pending_raw : ConfirmationState → Bool
is_pending_raw (pending_raw p) = true
is_pending_raw _ = false

unfoldable pub is_uncertain : ConfirmationState → Bool
is_uncertain live = false
is_uncertain live_confirmed = false
is_uncertain _ = true

abbrev pub is_live_confirmed : ConfirmationState → Bool
is_live_confirmed live_confirmed = true
is_live_confirmed _ = false

unfoldable pub is_frame_derived : ConfirmationState → Bool
is_frame_derived frame_derived = true
is_frame_derived (pending_raw p) = p.from_frame
is_frame_derived _ = false

pub record FeedKeyFacts : Type 0 where
  pub ch : ℕ
  pub method : BackspaceMethod
  pub confirmation_enabled : Bool
  pub confirmation : ConfirmationState
  pub previous_was_separator : Bool
  pub engine_at_word_beginning : Bool
  pub shadow_word : Text

pub record KeyStartPlan : Type 0 where
  pub context_uncertain : Bool
  pub reset_speculation : Bool
  pub clear_non_alpha_context : Bool
  pub seed_word : Option Text

pub data KeyFinishPlan : Type 0 where
  apply : ℕ → Text → KeyFinishPlan
  forward : Option PendingRaw → KeyFinishPlan

unfoldable pub plan_key_start : FeedKeyFacts → KeyStartPlan
unfolding is_uncertain is_ascii_alphabetic
plan_key_start facts =
    let prior_pending = is_pending_raw facts.confirmation in
    record {
      context_uncertain =
          facts.confirmation_enabled
          && is_surrounding facts.method
          && is_uncertain facts.confirmation;
      reset_speculation = prior_pending;
      clear_non_alpha_context = not (is_ascii_alphabetic facts.ch);
      seed_word =
          if not prior_pending
            && facts.engine_at_word_beginning
            && not facts.previous_was_separator
            && not (is_empty facts.shadow_word)
          then some facts.shadow_word
          else none;
    }

unfoldable pub plan_key_finish : ℕ → Bool → Bool → Bool → ProcessResult → Text → KeyFinishPlan
plan_key_finish ch context_uncertain prior_pending from_frame result base_word =
    let edit : PendingEngineEdit = record {
      backspaces = result.backspaces;
      commit = result.commit;
      base_word = base_word;
    } in
    let pending : PendingRaw = record {
      ch = ch;
      repairable = not prior_pending;
      edit = if result.consumed then some edit else none;
      from_frame = from_frame;
    } in
    if result.consumed && not context_uncertain
    then apply result.backspaces result.commit
    else forward (if context_uncertain then some pending else none)

pub record SurroundingDecision : Type 0 where
  pub trust : Bool
  pub reseed : Bool

-- `SurroundingObserver::observe`.
unfoldable pub observe : Bool → Bool → Bool → Bool → Bool → SurroundingDecision
observe recent_action one_char_typed deletion force_reseed shadow_confirmed = record {
  trust = not (recent_action && not one_char_typed && not shadow_confirmed && not force_reseed);
  reseed = force_reseed || (not one_char_typed && not recent_action && not deletion);
}
