-- ===== src/Strategy/Shadow.antt =====
-- crates/edit-strategy/src/shadow.rs: the daemon's copy of the text before the cursor.
pub mod Pop
pub mod Observe
use daklak_rs.Prelude.{
  ℕ, zero, suc, ◌+◌, Bool, true, false, not, ◌&&◌, [], ◌++◌, Option, none, some, ltb, ◌==◌,
  if◌then◌else◌, min, u32, saturating_add, length, last?, init,
}
use daklak_rs.Text.{Text, len_utf8, byte_len, slice_to, slice, floor_boundary}

pub record ShadowBuffer : Type 0 where
  pub text : Text
  pub last_cursor : Option ℕ
  pub selected_before_chars : ℕ
  pub selected_after_bytes : ℕ
  pub selected_after_chars : ℕ
  pub pending_commit : Bool

unfoldable pub new : ShadowBuffer
new = record {
  text = [];
  last_cursor = none;
  selected_before_chars = 0;
  selected_after_bytes = 0;
  selected_after_chars = 0;
  pending_commit = false;
}

unfoldable pub append : ShadowBuffer → Text → ShadowBuffer
append s t = record s { text = s.text ++ t }

-- The loop of `pop_chars`: the text that is left, and the bytes and characters popped.
unfoldable pub pop_loop : ℕ → Text → ℕ → ℕ → Text × ℕ × ℕ
pop_loop zero t byte_count char_count = (t, byte_count, char_count)
pop_loop (suc n) t byte_count char_count = elim (last? t) [
  | none ↦ (t, byte_count, char_count)
  | some ch ↦ pop_loop n (init t) (u32 (byte_count + len_utf8 ch)) (u32 (char_count + 1))
]

unfoldable pub pop_chars : ShadowBuffer → ℕ → ShadowBuffer × ℕ × ℕ
unfolding pop_loop
pop_chars s n =
    let (rest, byte_count, char_count) = pop_loop n s.text 0 0 in
    (record s { text = rest }, byte_count, char_count)

unfoldable pub clear : ShadowBuffer → ShadowBuffer
clear s = record {
  text = [];
  last_cursor = none;
  selected_before_chars = 0;
  selected_after_bytes = 0;
  selected_after_chars = 0;
  pending_commit = false;
}

-- The buffer, then `(before_bytes, before_chars, after_bytes, after_chars)`.
unfoldable pub pop_delete_span : ShadowBuffer → ℕ → ShadowBuffer × ℕ × ℕ × ℕ × ℕ
unfolding pop_chars
pop_delete_span s backspaces =
    let before_target = saturating_add backspaces s.selected_before_chars in
    let (popped, before_bytes, before_chars) = pop_chars s before_target in
    (
      record popped {
        selected_before_chars = 0;
        selected_after_bytes = 0;
        selected_after_chars = 0;
      },
      before_bytes,
      before_chars,
      s.selected_after_bytes,
      s.selected_after_chars,
    )

-- `last_cursor.map(|last| last != cursor).unwrap_or(false)`.
abbrev pub moved_from : Option ℕ → ℕ → Bool
moved_from none cursor = false
moved_from (some last) cursor = not (last == cursor)

-- The buffer after a surrounding-text frame, and whether the cursor moved unexpectedly.
unfoldable pub observe_surrounding : ShadowBuffer → Text → ℕ → ℕ → ShadowBuffer × Bool
observe_surrounding s t cursor anchor =
    let cursor_boundary = floor_boundary t (min cursor (byte_len t)) in
    let anchor_boundary = floor_boundary t (min anchor (byte_len t)) in
    let unexpected_move = not s.pending_commit && moved_from s.last_cursor cursor in
    let selected_before = slice t anchor_boundary cursor_boundary in
    let selected_after = slice t cursor_boundary anchor_boundary in
    (
      record {
        text = slice_to t (min cursor_boundary anchor_boundary);
        last_cursor = some cursor;
        selected_before_chars =
            if ltb anchor_boundary cursor_boundary then length selected_before else 0;
        selected_after_bytes =
            if ltb cursor_boundary anchor_boundary then u32 (byte_len selected_after) else 0;
        selected_after_chars =
            if ltb cursor_boundary anchor_boundary then u32 (length selected_after) else 0;
        pending_commit = false;
      },
      unexpected_move,
    )
