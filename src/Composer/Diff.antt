-- ===== src/Composer/Diff.antt =====
-- `detect_one_char_insertion` and `detect_deletion` of crates/daemon/src/composer.rs: what changed
-- between two surrounding-text frames. Cursors are byte positions.
pub mod Laws
use daklak_rs.Prelude.{
  ℕ, Bool, true, false, not, ◌&&◌, ◌||◌, ltb, leb, ◌==◌, if◌then◌else◌, length, is_empty,
}
use daklak_rs.Text.{Text, byte_len, is_char_boundary, slice, get_to, get_from, option_text_eq}

unfoldable pub detect_one_char_insertion : Text → ℕ → Text → ℕ → Bool
unfolding get_to get_from option_text_eq slice
detect_one_char_insertion prev_text prev_cur text cur =
    if ltb (byte_len prev_text) prev_cur
      || ltb (byte_len text) cur
      || leb cur prev_cur
      || not (is_char_boundary prev_text prev_cur)
      || not (is_char_boundary text cur)
      || not (is_char_boundary text prev_cur)
    then false
    else option_text_eq (get_to text prev_cur) (get_to prev_text prev_cur)
      && option_text_eq (get_from text cur) (get_from prev_text prev_cur)
      && (length (slice text prev_cur cur) == 1)

unfoldable pub detect_deletion : Text → ℕ → Text → ℕ → Bool
unfolding get_to get_from option_text_eq slice
detect_deletion prev_text prev_cur text cur =
    if ltb prev_cur cur
      || ltb (byte_len text) cur
      || ltb (byte_len prev_text) prev_cur
      || not (is_char_boundary text cur)
      || not (is_char_boundary prev_text cur)
      || not (is_char_boundary prev_text prev_cur)
    then false
    else ltb (byte_len text) (byte_len prev_text)
      && option_text_eq (get_to text cur) (get_to prev_text cur)
      && option_text_eq (get_from text cur) (get_from prev_text prev_cur)
      && not (is_empty (slice prev_text cur prev_cur))
