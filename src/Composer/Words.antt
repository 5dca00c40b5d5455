-- ===== src/Composer/Words.antt =====
-- The pure text helpers at the end of crates/daemon/src/composer.rs: the text before the cursor and
-- the word that ends there.
pub mod Laws
use mathlib.Core.List.{reverse}
use daklak_rs.Prelude.{
  ℕ, ◌+◌, ◌-◌, Bool, ◌||◌, Option, none, some, ◌==◌, if◌then◌else◌, min, u32, length, take,
  get_elem?,
}
use daklak_rs.Text.{
  Text, len_utf8, byte_len, floor_boundary, slice_to, slice_from, char_indices, find, is_whitespace,
}

unfoldable pub text_before_cursor : Text → ℕ → Text
unfolding floor_boundary
text_before_cursor t cursor = slice_to t (floor_boundary t (min cursor (byte_len t)))

unfoldable pub is_word_boundary : ℕ → Bool
unfolding is_whitespace
is_word_boundary c =
    is_whitespace c
    || c == 0
    || c == b'.'
    || c == b','
    || c == b';'
    || c == b':'
    || c == b'!'
    || c == b'?'
    || c == b'"'
    || c == 0x27
    || c == 0x201c
    || c == 0x201d
    || c == 0x2018
    || c == 0x2019
    || c == b'('
    || c == b')'
    || c == b'['
    || c == b']'
    || c == b'{'
    || c == b'}'
    || c == b'/'
    || c == 0x5c
    || c == b'|'
    || c == 0x2026

-- Where the word starts: past the last boundary, or at the start of the text.
abbrev pub after_boundary : Option (ℕ × ℕ) → ℕ
after_boundary none = 0
after_boundary (some (i, c)) = i + len_utf8 c

unfoldable pub word_start : Text → ℕ
word_start before =
    after_boundary (find (λ p. is_word_boundary p.1) (reverse (char_indices 0 before)))

unfoldable pub current_word_before_cursor : Text → ℕ → Text
unfolding text_before_cursor word_start
current_word_before_cursor t cursor =
    let before = text_before_cursor t cursor in slice_from before (word_start before)

unfoldable pub current_word_before_insertion_point : Text → ℕ → ℕ → Text
unfolding current_word_before_cursor
current_word_before_insertion_point t cursor anchor =
    current_word_before_cursor t (min cursor anchor)

-- The byte offset of an entry of `char_indices`, or the end of the text.
abbrev pub offset_or : Option (ℕ × ℕ) → ℕ → ℕ
offset_or none end_offset = end_offset
offset_or (some (b, c)) end_offset = b

unfoldable pub char_to_byte_offset : Text → ℕ → ℕ
char_to_byte_offset t char_idx =
    u32 (offset_or (get_elem? (char_indices 0 t) char_idx) (byte_len t))

unfoldable pub prefix_after_char_delete : Text → ℕ → Text
prefix_after_char_delete t backspaces = take (length t - backspaces) t
