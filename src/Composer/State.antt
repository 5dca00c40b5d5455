-- ===== src/Composer/State.antt =====
-- The state of `Composer` in crates/daemon/src/composer.rs, and its configuration and lifecycle
-- operations. A time is a number of milliseconds, and the clock is an argument. The feature `ibus` is on.
use daklak_rs.Prelude.{
  ℕ, ◌+◌, ◌-◌, ◌/◌, Bool, true, false, not, ◌&&◌, ◌||◌, Option, none, ltb, leb, ◌==◌, if◌then◌else◌,
  u32, is_empty,
}
use daklak_rs.Text.{Text, byte_len}
use daklak_rs.Strategy.Types.{BackspaceMethod, is_surrounding}
use daklak_rs.Engine
use daklak_rs.Engine.Context.{InputMethod}
use daklak_rs.Engine.State.{VnkeyEngine, EngineState}
use daklak_rs.Composer.Words.{current_word_before_cursor}
use daklak_rs.Composer.Quirks.Firefox
use daklak_rs.Composer.Quirks.Firefox.{FirefoxContenteditableQuirk}
use daklak_rs.Composer.Quirks.Ibus
use daklak_rs.Composer.Quirks.Ibus.{IbusSurroundingQuirk}
use daklak_rs.Composer.Plan.{ConfirmationState, live, awaiting_frame, is_live_confirmed}
use daklak_rs.Composer.EditModel
use daklak_rs.Composer.EditModel.{EditModel, shadow_text}

-- `SURROUNDING_DEAD_STRIKE_LIMIT`.
abbrev pub surrounding_dead_strike_limit : ℕ
surrounding_dead_strike_limit = 2

pub record Composer (E : Type 0) : Type 0 where
  pub engine : EngineState E
  pub last_keystroke_at : ℕ
  pub last_input_char : Option ℕ
  pub commit_string_functional : Bool
  pub last_action_at : ℕ
  pub surrounding_dead_strikes : ℕ
  pub ibus : IbusSurroundingQuirk
  pub retroactive_context : Bool
  pub firefox : FirefoxContenteditableQuirk
  pub bracket_shortcuts : Bool
  pub confirm_retroactive_edits : Bool
  pub confirmation : ConfirmationState
  pub edit : EditModel

abbrev pub get_method : {E : Type 0} → Composer E → BackspaceMethod
get_method c = c.edit.strategy.method

module _ {E : Type 0} where
  unfoldable pub mark_action : ℕ → Composer E → Composer E
  mark_action now c = record c { last_action_at = now }

  unfoldable pub set_surrounding_confirmation : Bool → Composer E → Composer E
  set_surrounding_confirmation on c = record c { confirm_retroactive_edits = on }

  unfoldable pub defer_action : ℕ → Composer E → Composer E
  defer_action now c = record c { last_action_at = now - 60000 }

  unfoldable pub set_method : BackspaceMethod → Composer E → Composer E
  unfolding EditModel.set_method
  set_method m c = record c {
    edit = EditModel.set_method c.edit m;
    confirmation = if is_surrounding m then c.confirmation else live;
  }

  -- The composer, and whether the tier is to be downgraded.
  unfoldable pub note_surrounding_liveness : Text → ℕ → Composer E → Composer E × Bool
  note_surrounding_liveness t cursor c =
      let strikes = u32 (c.surrounding_dead_strikes + 1) in
      if is_empty t && cursor == 0 && not (is_empty (shadow_text c.edit))
      then (
        record c { surrounding_dead_strikes = strikes },
        leb surrounding_dead_strike_limit strikes,
      )
      else (
        record c {
          surrounding_dead_strikes = if is_empty t then c.surrounding_dead_strikes else 0;
        },
        false,
      )

  unfoldable pub mark_surrounding_frame_seen : Composer E → Composer E
  unfolding Ibus.mark_surrounding_frame_seen
  mark_surrounding_frame_seen c = record c { ibus = Ibus.mark_surrounding_frame_seen c.ibus }

  unfoldable pub note_surrounding_correction : Composer E → Composer E × Bool
  unfolding Ibus.note_correction_and_should_downgrade
  note_surrounding_correction c =
      let (q, downgrade) = Ibus.note_correction_and_should_downgrade c.ibus in
      (record c { ibus = q }, downgrade)

  unfoldable pub set_modifiers : ℕ → Composer E → Composer E
  unfolding EditModel.set_modifiers
  set_modifiers m c = record c { edit = EditModel.set_modifiers c.edit m }

  -- `current_word_before_cursor(shadow, shadow.len() as u32)`.
  unfoldable pub current_shadow_word : Composer E → Text
  unfolding current_word_before_cursor
  current_shadow_word c =
      let shadow = shadow_text c.edit in current_word_before_cursor shadow (u32 (byte_len shadow))

module _ {E : Type 0} (vnkey : VnkeyEngine E) where
  unfoldable pub new : InputMethod → BackspaceMethod → Bool → ℕ → Composer E
  unfolding Engine.State.new_with_options EditModel.new Ibus.new Firefox.new
  new input_method backspace_method bracket_shortcuts now = record {
    engine = Engine.State.new_with_options vnkey input_method bracket_shortcuts;
    last_keystroke_at = now;
    last_input_char = none;
    commit_string_functional = true;
    last_action_at = now - 60000;
    surrounding_dead_strikes = 0;
    ibus = Ibus.new;
    retroactive_context = false;
    firefox = Firefox.new;
    bracket_shortcuts = bracket_shortcuts;
    confirm_retroactive_edits = false;
    confirmation = live;
    edit = EditModel.new backspace_method;
  }

  unfoldable pub reset_engine : Composer E → Composer E
  unfolding Engine.State.reset
  reset_engine c = record c { engine = Engine.State.reset vnkey c.engine }

  unfoldable pub reset_composition_preserving_surrounding : Composer E → Composer E
  unfolding reset_engine EditModel.reset_composition Firefox.clear Firefox.reset_forward_sticky
  reset_composition_preserving_surrounding c = record (reset_engine c) {
    edit = EditModel.reset_composition c.edit;
    last_input_char = none;
    retroactive_context = false;
    confirmation = awaiting_frame;
    firefox = Firefox.reset_forward_sticky (Firefox.clear c.firefox);
  }

  unfoldable pub full_reset : Composer E → Composer E
  unfolding reset_composition_preserving_surrounding EditModel.clear_prev_surrounding Ibus.new
  full_reset c =
      let c' = reset_composition_preserving_surrounding c in
      record c' { edit = EditModel.clear_prev_surrounding c'.edit; ibus = Ibus.new }

  unfoldable pub set_modern_style : Bool → Composer E → Composer E
  unfolding Engine.State.set_modern_style
  set_modern_style enabled c = record c {
    engine = Engine.State.set_modern_style vnkey c.engine enabled;
  }

  unfoldable pub set_input_method : InputMethod → Composer E → Composer E
  unfolding full_reset Engine.State.set_modern_style Engine.State.new_with_options
  set_input_method method c =
      let modern_style = c.engine.modern_style in
      let engine = Engine.State.new_with_options vnkey method c.bracket_shortcuts in
      record (full_reset c) { engine = Engine.State.set_modern_style vnkey engine modern_style }

  -- `!word.is_empty() && self.engine.feed_context_gated(word)`, into `retroactive_context`.
  unfoldable pub seed : Text → Composer E → Composer E
  seed word c =
      let (engine, fed) = Engine.State.feed_context_gated vnkey c.engine word in
      if is_empty word
      then record c { retroactive_context = false }
      else record c { engine = engine; retroactive_context = fed }

  -- `self.engine.reset()`, then the seed.
  unfoldable pub reseed : Text → Composer E → Composer E
  unfolding reset_engine seed
  reseed word c = seed word (reset_engine c)

  unfoldable pub refresh_retroactive_context_after_apply : ℕ → Composer E → Composer E
  unfolding reseed current_shadow_word
  refresh_retroactive_context_after_apply backspaces c =
      if backspaces == 0 || not c.retroactive_context then c else reseed (current_shadow_word c) c

  -- The composer, and whether the pause reached two seconds.
  unfoldable pub check_idle_reset : ℕ → Composer E → Composer E × Bool
  unfolding reset_engine EditModel.reset_composition
  check_idle_reset now c = if ltb ((now - c.last_keystroke_at) / 1000) 2 then (c, false) else (
    if is_surrounding (get_method c)
        then record c {
          confirmation =
              if is_live_confirmed c.confirmation then c.confirmation else awaiting_frame;
        }
        else record (reset_engine c) {
          edit = EditModel.reset_composition c.edit;
          last_input_char = none;
          retroactive_context = false;
        },
    true,
  )
