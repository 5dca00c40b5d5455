-- ===== src/Composer/Confirm.antt =====
-- How a frame finishes a raw key's transaction: `confirm_pending_raw_key` of
-- crates/daemon/src/composer.rs, and the edit that it returns. Log lines are left out.
pub mod Repairs
pub mod Deferred
use daklak_rs.Prelude.{
  suc, ℕ, ◌+◌, ◌-◌, Bool, true, false, not, ◌&&◌, ◌||◌, [], ◌∷◌, ◌++◌, Option, none, some, ◌==◌,
  if◌then◌else◌, u32, length, drop, last?, is_empty, pop_times,
}
use daklak_rs.Text.{Text, byte_len, slice_to, char_indices, text_eq}
use daklak_rs.Engine
use daklak_rs.Engine.State.{VnkeyEngine}
use daklak_rs.Composer.Words.{current_word_before_cursor}
use daklak_rs.Composer.Plan.{
  ConfirmationState, live, frame_derived, get_pending_raw, PendingRaw, PendingEngineEdit,
}
use daklak_rs.Composer.EditModel
use daklak_rs.Composer.EditModel.{shadow_text}
use daklak_rs.Composer.State.{Composer, reseed}

pub record RetroEdit : Type 0 where
  pub backspaces : ℕ
  pub commit : Text

-- `screen.chars().zip(desired.chars()).take_while(|(a, b)| a == b).count()`.
unfoldable pub common_prefix : Text → Text → ℕ
common_prefix (a ∷ screen) (b ∷ desired) =
    let rest = common_prefix screen desired in if a == b then suc rest else 0
common_prefix _ _ = 0

-- The edit that turns the word on the screen into the word desired.
unfoldable pub retro_edit : Text → Text → Option RetroEdit
unfolding common_prefix
retro_edit screen_word desired =
    let prefix_chars = common_prefix screen_word desired in
    let backspaces = length screen_word - prefix_chars in
    let commit = drop prefix_chars desired in
    if backspaces == 0 && is_empty commit
    then none
    else some (record { backspaces = backspaces; commit = commit })

-- The confirmation after a seed.
abbrev pub seeded_confirmation : Bool → ConfirmationState
seeded_confirmation true = frame_derived
seeded_confirmation false = live

module _ {E : Type 0} where
  -- The frame becomes the shadow and the last frame, and the key the last one.
  unfoldable pub sync_frame : Text → ℕ → ℕ → ℕ → Composer E → Composer E
  unfolding EditModel.on_surrounding_text EditModel.record_surrounding
  sync_frame t cursor anchor ch c = record c {
    edit =
        EditModel.record_surrounding (EditModel.on_surrounding_text c.edit t cursor anchor) t cursor
          anchor;
    last_input_char = some ch;
  }

  -- Whether a frame proves that the pending key went in before its cursor.
  unfoldable pub insertion_proven : Text → ℕ → Text → ℕ → Composer E → Bool
  unfolding EditModel.confirms_inserted_char text_eq
  insertion_proven t cursor before_cursor ch c =
      EditModel.confirms_inserted_char c.edit t cursor ch
      || (text_eq before_cursor (shadow_text c.edit) && not (text_eq t c.edit.prev_text))

module _ {E : Type 0} (vnkey : VnkeyEngine E) where
  -- The engine starts again from a word of the frame.
  unfoldable pub settle : Text → Composer E → Composer E
  unfolding reseed
  settle word c =
      let c' = reseed vnkey word c in
      record c' { confirmation = seeded_confirmation c'.retroactive_context }

  -- No stash: the engine replays the key after the word that the frame proves.
  unfoldable pub replay_raw_key :
      ℕ → Text → Text → ℕ → ℕ → Composer E → Composer E × Option RetroEdit
  unfolding reseed settle sync_frame retro_edit Engine.State.process_key
  replay_raw_key ch base_word t cursor anchor c =
      let seeded = reseed vnkey base_word c in
      let (engine, replay) = Engine.State.process_key vnkey seeded.engine ch in
      let screen_word = base_word ++ ch ∷ [] in
      if seeded.retroactive_context
      then (
        record (sync_frame t cursor anchor ch (record seeded { engine = engine })) {
          retroactive_context = true;
          confirmation = frame_derived;
        },
        if replay.consumed
            then retro_edit screen_word (pop_times replay.backspaces base_word ++ replay.commit)
            else none,
      )
      else (settle screen_word (sync_frame t cursor anchor ch seeded), none)

  -- A stashed edit over the same word is sent with one backspace more, for the raw key.
  unfoldable pub confirm_stash :
      Option PendingEngineEdit
      → ℕ
      → Text
      → Text
      → ℕ
      → ℕ
      → Composer E
      → Composer E × Option RetroEdit
  unfolding replay_raw_key sync_frame text_eq
  confirm_stash none ch base_word t cursor anchor c = replay_raw_key ch base_word t cursor anchor c
  confirm_stash (some stash) ch base_word t cursor anchor c =
      if text_eq stash.base_word base_word
      then (
        record (sync_frame t cursor anchor ch c) {
          retroactive_context = true;
          confirmation = frame_derived;
        },
        some (record { backspaces = stash.backspaces + 1; commit = stash.commit }),
      )
      else replay_raw_key ch base_word t cursor anchor c

  -- The pending key stands before the cursor, at `raw_index`.
  unfoldable pub confirm_at :
      PendingRaw → ℕ → Text → ℕ → ℕ → Text → Composer E → Composer E × Option RetroEdit
  unfolding insertion_proven settle sync_frame confirm_stash current_word_before_cursor
  confirm_at pending raw_index t cursor anchor before_cursor c =
      let stripped = slice_to before_cursor raw_index in
      let base_word = current_word_before_cursor stripped (u32 (byte_len stripped)) in
      let actual_word = current_word_before_cursor before_cursor (u32 (byte_len before_cursor)) in
      if not (insertion_proven t cursor before_cursor pending.ch c) || not pending.repairable
      then (settle actual_word (sync_frame t cursor anchor pending.ch c), none)
      else confirm_stash pending.edit pending.ch base_word t cursor anchor c

  unfoldable pub confirm_last :
      Option PendingRaw
      → Option (ℕ × ℕ)
      → Text
      → ℕ
      → ℕ
      → Text
      → Composer E
      → Composer E × Option RetroEdit
  unfolding confirm_at
  confirm_last none _ t cursor anchor before_cursor c = (c, none)
  confirm_last (some pending) none t cursor anchor before_cursor c = (c, none)
  confirm_last (some pending) (some (raw_index, actual_ch)) t cursor anchor before_cursor c =
      if actual_ch == pending.ch
      then confirm_at pending raw_index t cursor anchor before_cursor c
      else (c, none)

  unfoldable pub confirm_pending_raw_key :
      Text → ℕ → ℕ → Text → Composer E → Composer E × Option RetroEdit
  unfolding confirm_last
  confirm_pending_raw_key t cursor anchor before_cursor c =
      confirm_last (get_pending_raw c.confirmation) (last? (char_indices 0 before_cursor)) t cursor
        anchor before_cursor c
