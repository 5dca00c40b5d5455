-- ===== src/Composer/Examples/Gates.antt =====
-- The theorems on the frame gate, the channel and the flag of the composer of crates/daemon at concrete
-- inputs.
use native.Mathlib.Omega.{arith}
use daklak_rs.Prelude.{◌≡◌, refl, [], ◌∷◌, true, false, none, min}
use daklak_rs.Text.{
  Text, byte_len, len_utf8, text_eq, is_char_boundary, slice_to, slice_from, char_indices,
}
use daklak_rs.Text.Boundaries.{IsLongestFit}
use daklak_rs.Strategy.Client.{client_sink}
use daklak_rs.Engine.Toy.{toy_engine}
use daklak_rs.Composer.EditModel
use daklak_rs.Composer.EditModel.{shadow_text}
use daklak_rs.Composer.Words.{char_to_byte_offset, text_before_cursor}
use daklak_rs.Composer.Diff.{detect_one_char_insertion}
use daklak_rs.Composer.State.{Composer}
use daklak_rs.Composer.Keys.{feed_key}
use daklak_rs.Composer.Frames.{apply_surrounding, is_duplicate_frame, observe_surrounding_chars}
use daklak_rs.Composer.Apply.{apply_to_sink_inner}
use daklak_rs.Composer.Ratchet.Steps.{IsOff, Steps-IsOff, more, done, typing}
use daklak_rs.Composer.Ratchet.Sticky.{here, next, Run-apply_forward_key}
use daklak_rs.Composer.Frames.Trust.{
  Unmoved, IsDropped, apply_surrounding-IsDropped, apply_surrounding-is_trusted,
}
use daklak_rs.Composer.Frames.CharCursors.{observe_surrounding_chars-not_duplicate}
use daklak_rs.Composer.Examples.Sessions.{typed, client}

-- Firefox has shown a stale echo.
abbrev stale : Composer Text
stale = record typed { firefox = record (typed.firefox) { use_forward_delete = true } }

-- A frame within 50 ms of an action that shows other text.
abbrev acted : Composer Text
acted = record typed { last_action_at = 100000 }

dropped : IsDropped (b'x' ∷ b'y' ∷ []) 2 false 100050 acted
unfolding EditModel.one_char_insertion_since_prev text_before_cursor text_eq
    detect_one_char_insertion byte_len len_utf8 is_char_boundary slice_to slice_from
dropped = (refl, refl, refl, refl)

apply_surrounding-IsDropped_example :
    let (c', r) = apply_surrounding toy_engine (b'x' ∷ b'y' ∷ []) 2 2 false 100050 acted in
    Unmoved acted c' × (r ≡ none)
apply_surrounding-IsDropped_example =
    apply_surrounding-IsDropped toy_engine (b'x' ∷ b'y' ∷ []) 2 2 false 100050 acted refl dropped

-- A frame long after the last action, with a character of two bytes.
abbrev frame : Text
frame = 0xe2 ∷ []

apply_surrounding-is_trusted_example :
    let c' = (apply_surrounding toy_engine frame 2 2 false 100050 typed).0 in
    IsLongestFit frame (min 2 2) (shadow_text c'.edit)
    × (EditModel.is_duplicate_frame c'.edit frame 2 2 ≡ true)
apply_surrounding-is_trusted_example =
    apply_surrounding-is_trusted toy_engine frame 2 2 false 100050 typed refl refl

observe_surrounding_chars-not_duplicate_example :
    is_duplicate_frame frame 1 1 (observe_surrounding_chars toy_engine frame 1 1 100050 typed)
    ≡ false
unfolding char_to_byte_offset char_indices byte_len len_utf8
observe_surrounding_chars-not_duplicate_example =
    observe_surrounding_chars-not_duplicate toy_engine frame 1 100050 typed refl refl
      (λ e. absurd (omega arith))

-- The client's `commit_string` is held not to work.
abbrev off : Composer Text
off = record typed { commit_string_functional = false }

Steps-IsOff_example : IsOff (feed_key toy_engine b'a' 100050 off).0
Steps-IsOff_example =
    Steps-IsOff toy_engine client_sink
      (more (typing b'a' 100050 off) (done (feed_key toy_engine b'a' 100050 off).0)) refl

-- One edit of the stale composer has gone out, and then an `a` is typed.
abbrev sent : Composer Text
sent = (apply_to_sink_inner toy_engine client_sink 1 (0xe2 ∷ []) 3 40 client true stale).0

Run-apply_forward_key_example :
    let c' = (feed_key toy_engine b'a' 100050 sent).0 in
    (apply_to_sink_inner toy_engine client_sink 1 (0xea ∷ []) 4 50 client false c').1
    ≡ (EditModel.apply_forward_key client_sink c'.edit 1 (0xea ∷ []) 4 50 client).1
Run-apply_forward_key_example =
    Run-apply_forward_key toy_engine client_sink 1 (0xe2 ∷ []) 3 40 client true stale 1 (0xea ∷ [])
      4 50 client false (feed_key toy_engine b'a' 100050 sent).0 refl
      (next (typing b'a' 100050 sent) (here (feed_key toy_engine b'a' 100050 sent).0))
