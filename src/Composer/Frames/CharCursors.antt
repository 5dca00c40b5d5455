-- ===== src/Composer/Frames/CharCursors.antt =====
-- `observe_surrounding_chars` of crates/daemon/src/composer.rs: a transport that reports cursors in
-- characters, and the test for a duplicate frame.
use daklak_rs.Prelude.{
  ℕ, ◌≡◌, ◌≢◌, refl, sym, subst, Bool, true, false, ◌&&◌, ◌==◌, ==_iff, Bool-cases, inl, inr,
}
use daklak_rs.Text.{Text, text_eq}
use daklak_rs.Engine.State.{VnkeyEngine}
use daklak_rs.Composer.EditModel
use daklak_rs.Composer.EditModel.{EditModel}
use daklak_rs.Composer.Plan.{is_pending_raw}
use daklak_rs.Composer.Words.{char_to_byte_offset}
use daklak_rs.Composer.State.{Composer}
use daklak_rs.Composer.Frames.{observe_surrounding_chars, is_duplicate_frame}
use daklak_rs.Composer.Frames.Trust.{is_trusted, recorded, apply_surrounding-edit}

unequal : (a b : ℕ) → a ≢ b → (a == b) ≡ false
unequal a b h = elim (Bool-cases (a == b)) [ inl e ↦ absurd (h ((==_iff a b).0 e)) | inr e ↦ e ]

false_right : (b : Bool) → (b && false) ≡ false
false_right true = refl
false_right false = refl

recorded-char_cursor :
    (t : Text) (k cursor anchor : ℕ) (e : EditModel)
    → k ≢ cursor
    → EditModel.is_duplicate_frame (recorded t cursor anchor e) t k k ≡ false
unfolding EditModel.is_duplicate_frame EditModel.record_surrounding
recorded-char_cursor t k cursor anchor e h =
    let other = unequal k cursor h in rw (other, false_right (text_eq t t)) refl

-- A frame that is reported in characters is recorded in bytes: where the character position is no byte
-- offset of the same place, which is so after every character of several bytes, a frame that the
-- composer has just taken is not a duplicate of itself by the position that it was reported with.
pub observe_surrounding_chars-not_duplicate :
    {E : Type 0} (vnkey : VnkeyEngine E) (t : Text) (k now : ℕ) (c : Composer E)
    → is_pending_raw c.confirmation ≡ false
    → is_trusted t (char_to_byte_offset t k) false now c ≡ true
    → k ≢ char_to_byte_offset t k
    → is_duplicate_frame t k k (observe_surrounding_chars vnkey t k k now c) ≡ false
unfolding observe_surrounding_chars is_duplicate_frame
observe_surrounding_chars-not_duplicate vnkey t k now c free trusted h =
    let at = char_to_byte_offset t k in
    subst (λ e. EditModel.is_duplicate_frame e t k k ≡ false)
      (sym (apply_surrounding-edit vnkey t at at false now c free trusted))
      (recorded-char_cursor t k at at c.edit h)
