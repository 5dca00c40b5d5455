-- ===== src/Composer/Keys.antt =====
-- `feed_key`, `feed_backspace` and `unrecord_forwarded_char` of crates/daemon/src/composer.rs.
pub mod Press
pub mod Erase
use daklak_rs.Prelude.{
  ℕ, Bool, true, false, not, ◌&&◌, Option, none, some, ltb, if◌then◌else◌, last?, is_some,
}
use daklak_rs.Text.{Text, is_ascii, is_ascii_alphabetic}
use daklak_rs.Strategy.Types.{KeyDecision, forward_raw}
use daklak_rs.Engine
use daklak_rs.Engine.State.{VnkeyEngine, ProcessResult}
use daklak_rs.Composer.Quirks.Firefox
use daklak_rs.Composer.Plan.{
  ConfirmationState, live, pending_raw, PendingRaw, is_pending_raw, is_frame_derived, FeedKeyFacts,
  KeyStartPlan, KeyFinishPlan, forward, plan_key_start, plan_key_finish,
}
use daklak_rs.Composer.EditModel
use daklak_rs.Composer.EditModel.{shadow_text}
use daklak_rs.Composer.State.{Composer, get_method, current_shadow_word, reset_engine}

-- `matches!(last_input_char, Some(previous) if !previous.is_ascii_alphabetic())`.
unfoldable pub was_separator : Option ℕ → Bool
unfolding is_ascii_alphabetic
was_separator none = false
was_separator (some previous) = not (is_ascii_alphabetic previous)

-- `matches!(deleted_visible, Some(ch) if !ch.is_ascii())`.
abbrev pub is_composed : Option ℕ → Bool
is_composed none = false
is_composed (some ch) = not (is_ascii ch)

-- `matches!(pending, PendingRaw(PendingRaw { edit: Some(_), .. }))`.
unfoldable pub has_pending_edit : ConfirmationState → Bool
has_pending_edit (pending_raw p) = is_some p.edit
has_pending_edit _ = false

-- `pending.map(ConfirmationState::PendingRaw).unwrap_or(ConfirmationState::Live)`.
abbrev pub pending_or_live : Option PendingRaw → ConfirmationState
pending_or_live none = live
pending_or_live (some p) = pending_raw p

module _ {E : Type 0} (vnkey : VnkeyEngine E) where
  -- `FeedKeyFacts::capture`.
  unfoldable pub capture : Composer E → ℕ → FeedKeyFacts
  unfolding current_shadow_word was_separator Engine.State.at_word_beginning
  capture c ch = record {
    ch = ch;
    method = get_method c;
    confirmation_enabled = c.confirm_retroactive_edits;
    confirmation = c.confirmation;
    previous_was_separator = was_separator c.last_input_char;
    engine_at_word_beginning = Engine.State.at_word_beginning vnkey c.engine;
    shadow_word = current_shadow_word c;
  }

  unfoldable pub start_speculation : Bool → Composer E → Composer E
  unfolding reset_engine
  start_speculation true c = record (reset_engine vnkey c) { retroactive_context = false }
  start_speculation false c = c

  unfoldable pub start_context : Bool → Composer E → Composer E
  unfolding Firefox.clear
  start_context true c = record c { retroactive_context = false; firefox = Firefox.clear c.firefox }
  start_context false c = c

  unfoldable pub start_seed : Option Text → Composer E → Composer E
  start_seed none c = c
  start_seed (some word) c =
      let (engine, fed) = Engine.State.feed_context_gated vnkey c.engine word in
      record c { engine = engine; retroactive_context = fed }

  -- What a key does before the engine sees it.
  unfoldable pub start_key : KeyStartPlan → Composer E → Composer E
  unfolding start_speculation start_context start_seed
  start_key plan c =
      start_seed plan.seed_word
        (start_context plan.clear_non_alpha_context (start_speculation plan.reset_speculation c))

  -- The engine's turn: the composer that has seen the key, and the engine's answer.
  unfoldable pub engine_key : ℕ → ℕ → Composer E → Composer E × ProcessResult
  unfolding Engine.State.process_key
  engine_key ch now c =
      let (engine, result) = Engine.State.process_key vnkey c.engine ch in
      (record c { last_input_char = some ch; engine = engine; last_keystroke_at = now }, result)

  unfoldable pub finish_key : KeyFinishPlan → ℕ → Composer E → Composer E × KeyDecision
  unfolding EditModel.push_forwarded_char Firefox.clear
  finish_key (KeyFinishPlan.apply backspaces commit) ch c =
      (record c { confirmation = live }, KeyDecision.apply (get_method c) backspaces commit)
  finish_key (forward pending) ch c = (
    record c {
      edit = EditModel.push_forwarded_char c.edit ch;
      firefox = Firefox.clear c.firefox;
      confirmation = pending_or_live pending;
    },
    forward_raw,
  )

  unfoldable pub feed_key : ℕ → ℕ → Composer E → Composer E × KeyDecision
  unfolding start_key engine_key finish_key current_shadow_word
  feed_key ch now c =
      let facts = capture c ch in
      let start = plan_key_start facts in
      let (c', result) = engine_key ch now (start_key start c) in
      finish_key
        (plan_key_finish ch start.context_uncertain (is_pending_raw c.confirmation)
          (is_frame_derived c.confirmation) result (current_shadow_word c'))
        ch c'

  unfoldable pub unrecord_forwarded_char : Composer E → Composer E
  unfolding EditModel.pop_forwarded_char has_pending_edit reset_engine
  unrecord_forwarded_char c =
      let popped = record c { edit = EditModel.pop_forwarded_char c.edit; confirmation = live } in
      if has_pending_edit c.confirmation
      then record (reset_engine vnkey popped) { retroactive_context = false }
      else popped

  unfoldable pub feed_backspace : ℕ → Composer E → Composer E × KeyDecision
  unfolding Engine.State.process_backspace EditModel.pop_forwarded_char Firefox.clear reset_engine
  feed_backspace now c =
      let (engine, r) = Engine.State.process_backspace vnkey c.engine in
      let erased = record c { engine = engine; last_keystroke_at = now } in
      let popped = record erased {
        edit = EditModel.pop_forwarded_char c.edit;
        firefox = Firefox.clear c.firefox;
      } in
      if r.consumed then (erased, KeyDecision.apply (get_method c) r.backspaces r.commit) else (
        if ltb 0 r.backspaces && is_composed (last? (shadow_text c.edit))
            then record (reset_engine vnkey popped) { retroactive_context = false }
            else popped,
        forward_raw,
      )
