-- ===== src/Composer/Examples.antt =====
-- The theorems on the text helpers and the quirks of crates/daemon at concrete inputs.
pub mod Sessions
mod Gates
use native.Mathlib.Omega.{arith}
use daklak_rs.Prelude.{ℕ, ◌≡◌, ◌++◌, ◌↔◌, refl, [], ◌∷◌, true, take}
use daklak_rs.Text.{Text, byte_len, len_utf8}
use daklak_rs.Text.Boundaries.{IsLongestFit}
use daklak_rs.Composer.Words.{text_before_cursor, current_word_before_cursor, char_to_byte_offset}
use daklak_rs.Composer.Words.Laws.{
  IsLastWord, text_before_cursor-IsLongestFit, current_word_before_cursor-IsLastWord,
  text_before_cursor-char_to_byte_offset,
}
use daklak_rs.Composer.Diff.{detect_one_char_insertion, detect_deletion}
use daklak_rs.Composer.Diff.Laws.{
  Inserted, Deleted, detect_one_char_insertion_iff, detect_deletion_iff,
}
use daklak_rs.Composer.Confirm.{retro_edit}
use daklak_rs.Composer.Confirm.Repairs.{Repairs, retro_edit-Repairs}
use daklak_rs.Composer.Quirks.Firefox.{new, record_expected_echo, observe_surrounding}
use daklak_rs.Composer.Quirks.Firefox.Unit.{
  Reachable, start, next, expecting, observing, IsConsistent, Reachable-IsConsistent,
}

-- "à đi", and "à đ".
abbrev a_di : Text
a_di = 0xe0 ∷ b' ' ∷ 0x111 ∷ b'i' ∷ []

abbrev a_d : Text
a_d = 0xe0 ∷ b' ' ∷ 0x111 ∷ []

current_word_before_cursor-IsLastWord_example :
    IsLastWord (text_before_cursor a_di 6) (current_word_before_cursor a_di 6)
current_word_before_cursor-IsLastWord_example = current_word_before_cursor-IsLastWord a_di 6

detect_one_char_insertion_iff_example :
    (detect_one_char_insertion a_d 5 a_di 6 ≡ true) ↔ Inserted a_d 5 a_di 6
detect_one_char_insertion_iff_example = detect_one_char_insertion_iff a_d 5 a_di 6

detect_deletion_iff_example : (detect_deletion a_di 6 a_d 5 ≡ true) ↔ Deleted a_di 6 a_d 5
detect_deletion_iff_example = detect_deletion_iff a_di 6 a_d 5

retro_edit-Repairs_example : Repairs a_di a_d (retro_edit a_di a_d)
retro_edit-Repairs_example = retro_edit-Repairs a_di a_d

-- A stale echo right after an edit.
Reachable-IsConsistent_example :
    IsConsistent (observe_surrounding (record_expected_echo new a_d a_di) (b'x' ∷ []) true true)
Reachable-IsConsistent_example = Reachable-IsConsistent (
    next (next start (expecting new a_d a_di))
      (observing (record_expected_echo new a_d a_di) (b'x' ∷ []) true true))
