-- ===== src/Composer/Frames.antt =====
-- How `Composer` of crates/daemon/src/composer.rs reads a surrounding-text frame: `apply_surrounding`,
-- and the test for a duplicate frame. Log lines are left out.
pub mod Repair
pub mod Trust
pub mod CharCursors
use daklak_rs.Prelude.{
  ℕ, ◌-◌, Bool, false, not, ◌&&◌, ◌||◌, Option, none, some, ltb, ◌==◌, if◌then◌else◌,
}
use daklak_rs.Text.{Text, text_eq}
use daklak_rs.Engine.State.{VnkeyEngine}
use daklak_rs.Composer.Words.{
  text_before_cursor, current_word_before_insertion_point, char_to_byte_offset,
}
use daklak_rs.Composer.Quirks.Firefox
use daklak_rs.Composer.Plan.{
  ConfirmationState, live, live_confirmed, frame_derived, awaiting_frame, is_live_confirmed,
  is_pending_raw, is_frame_derived, observe,
}
use daklak_rs.Composer.EditModel
use daklak_rs.Composer.EditModel.{shadow_text}
use daklak_rs.Composer.State.{Composer, reset_engine}
use daklak_rs.Composer.Keys.{has_pending_edit}
use daklak_rs.Composer.Confirm.{RetroEdit, settle, confirm_pending_raw_key}

-- The confirmation after a trusted frame, before a deletion or a seed.
unfoldable pub trusted_confirmation : Bool → ConfirmationState → ConfirmationState
unfolding is_frame_derived
trusted_confirmation shadow_confirmed confirmation =
    if is_frame_derived confirmation
    then frame_derived
    else if shadow_confirmed && not (is_pending_raw confirmation)
    then live_confirmed
    else live

module _ {E : Type 0} where
  unfoldable pub revalidate_live_confirmation : Text → Composer E → Composer E
  unfolding text_eq
  revalidate_live_confirmation before_cursor c =
      if is_live_confirmed c.confirmation && not (text_eq before_cursor (shadow_text c.edit))
      then record c { confirmation = awaiting_frame }
      else c

  unfoldable pub is_duplicate_frame : Text → ℕ → ℕ → Composer E → Bool
  unfolding EditModel.is_duplicate_frame
  is_duplicate_frame t cursor anchor c = EditModel.is_duplicate_frame c.edit t cursor anchor

  -- The composer, and whether to skip.
  unfoldable pub should_skip_surrounding_frame :
      Text → ℕ → ℕ → Bool → Bool → Composer E → Composer E × Bool
  unfolding revalidate_live_confirmation text_before_cursor is_duplicate_frame
      Firefox.has_pending_echo
  should_skip_surrounding_frame t cursor anchor activate deactivate c =
      let c' = revalidate_live_confirmation (text_before_cursor t cursor) c in
      (
        c',
        not activate
            && not deactivate
            && not (Firefox.has_pending_echo c'.firefox)
            && is_duplicate_frame t cursor anchor c',
      )

  unfoldable pub clear_prev_surrounding : Composer E → Composer E
  unfolding EditModel.clear_prev_surrounding
  clear_prev_surrounding c = record c { edit = EditModel.clear_prev_surrounding c.edit }

  -- What the Firefox quirk makes of a frame.
  unfoldable pub observe_firefox : Text → Bool → Composer E → Composer E
  unfolding Firefox.observe_surrounding
  observe_firefox before_cursor recent_action c =
      let firefox =
        Firefox.observe_surrounding c.firefox before_cursor recent_action c.retroactive_context in
      record c {
        firefox = firefox;
        commit_string_functional =
            if firefox.use_forward_delete || firefox.forward_sticky
            then false
            else c.commit_string_functional;
      }

module _ {E : Type 0} (vnkey : VnkeyEngine E) where
  -- The deletion and reseed arms of a trusted frame.
  unfoldable pub follow_frame : Text → ℕ → ℕ → Bool → Bool → Bool → Composer E → Composer E
  unfolding reset_engine settle current_word_before_insertion_point
  follow_frame t cursor anchor shadow_confirmed deletion reseeds c =
      if deletion
      then if shadow_confirmed then c else record (reset_engine vnkey c) {
        retroactive_context = false;
        confirmation = live;
        last_input_char = none;
      }
      else if reseeds
      then record (settle vnkey (current_word_before_insertion_point t cursor anchor) c) {
        last_input_char = none;
      }
      else c

  unfoldable pub trust_frame : Text → ℕ → ℕ → Bool → Bool → Bool → Composer E → Composer E
  unfolding EditModel.on_surrounding_text EditModel.record_surrounding reset_engine follow_frame
      trusted_confirmation has_pending_edit
  trust_frame t cursor anchor shadow_confirmed deletion reseeds c =
      let synced = record c {
        edit = EditModel.on_surrounding_text c.edit t cursor anchor;
        confirmation = trusted_confirmation shadow_confirmed c.confirmation;
      } in
      let superseded =
        if has_pending_edit c.confirmation
        then record (reset_engine vnkey synced) { retroactive_context = false }
        else synced in
      let followed = follow_frame t cursor anchor shadow_confirmed deletion reseeds superseded in
      record followed { edit = EditModel.record_surrounding followed.edit t cursor anchor }

  -- The frame gate, past the pending key.
  unfoldable pub gate_frame : Text → ℕ → ℕ → Bool → Bool → Text → Composer E → Composer E
  unfolding EditModel.one_char_insertion_since_prev EditModel.deletion_since_prev text_eq observe
      observe_firefox trust_frame
  gate_frame t cursor anchor force_reseed recent_action before_cursor c =
      let one_char_typed = EditModel.one_char_insertion_since_prev c.edit t cursor in
      let shadow_confirmed = text_eq before_cursor (shadow_text c.edit) in
      let deletion = EditModel.deletion_since_prev c.edit t cursor || shadow_confirmed in
      let decision = observe recent_action one_char_typed deletion force_reseed shadow_confirmed in
      let observed = observe_firefox before_cursor recent_action c in
      if decision.trust
      then trust_frame t cursor anchor shadow_confirmed deletion decision.reseed observed
      else observed

  -- After `confirm_pending_raw_key`: a repair, a key that is settled, or the gate.
  unfoldable pub after_confirmation :
      Text
      → ℕ
      → ℕ
      → Bool
      → Bool
      → Text
      → Composer E × Option RetroEdit
      → Composer E × Option RetroEdit
  unfolding gate_frame
  after_confirmation t cursor anchor force_reseed recent_action before_cursor (c, some repair) =
      (c, some repair)
  after_confirmation t cursor anchor force_reseed recent_action before_cursor (c, none) =
      if is_pending_raw c.confirmation
      then (gate_frame t cursor anchor force_reseed recent_action before_cursor c, none)
      else (c, none)

  unfoldable pub apply_surrounding :
      Text → ℕ → ℕ → Bool → ℕ → Composer E → Composer E × Option RetroEdit
  apply_surrounding t cursor anchor force_reseed now c =
      let recent_action = ltb (now - c.last_action_at) 150 in
      let before_cursor = text_before_cursor t cursor in
      let c' = revalidate_live_confirmation before_cursor c in
      if is_pending_raw c'.confirmation && cursor == anchor
      then after_confirmation t cursor anchor force_reseed recent_action before_cursor
          (confirm_pending_raw_key vnkey t cursor anchor before_cursor c')
      else (gate_frame t cursor anchor force_reseed recent_action before_cursor c', none)

  unfoldable pub observe_surrounding_bytes :
      Text → ℕ → ℕ → Bool → ℕ → Composer E → Composer E × Option RetroEdit
  unfolding apply_surrounding
  observe_surrounding_bytes t cursor anchor force_reseed now c =
      apply_surrounding t cursor anchor force_reseed now c

  unfoldable pub observe_surrounding_chars : Text → ℕ → ℕ → ℕ → Composer E → Composer E
  unfolding apply_surrounding char_to_byte_offset
  observe_surrounding_chars t cursor anchor now c =
      (apply_surrounding t (char_to_byte_offset t cursor) (char_to_byte_offset t anchor) false now
        c).0
