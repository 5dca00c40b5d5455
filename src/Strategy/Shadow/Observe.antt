-- ===== src/Strategy/Shadow/Observe.antt =====
-- What a frame leaves in the shadow.
use native.Mathlib.Decide.{dec_le}
use daklak_rs.Prelude.{ℕ, ◌≡◌, refl, ap, sym, ◌∙◌, arith, min, false, some, subst, ltb}
use daklak_rs.Text.{Text, byte_len, slice_to, floor_boundary}
use daklak_rs.Text.Boundaries.{
  floor_boundary_mono, slice_to-floor_boundary, slice_to-min, IsLongestFit, slice_to-IsLongestFit,
}
use daklak_rs.Strategy.Shadow.{ShadowBuffer, observe_surrounding}

min_floor :
    (t : Text) (i j : ℕ)
    → min (floor_boundary t i) (floor_boundary t j) ≡ floor_boundary t (min i j)
min_floor t i j = elim (dec_le i j) [
  | yes le ↦
      let left : min i j ≡ i = omega arith in rw left (omega (arith, floor_boundary_mono t i j le))
  | no gt ↦
      let right : min i j ≡ j = omega arith in
      rw right (omega (arith, floor_boundary_mono t j i (omega arith)))
]

pub observed_text :
    (s : ShadowBuffer) (t : Text) (cursor anchor : ℕ)
    → (observe_surrounding s t cursor anchor).0.text ≡ slice_to t (min cursor anchor)
unfolding observe_surrounding
observed_text s t cursor anchor =
    let both : min (min cursor (byte_len t)) (min anchor (byte_len t))
        ≡ min (min cursor anchor) (byte_len t) =
      omega arith in
    ap (slice_to t) (min_floor t (min cursor (byte_len t)) (min anchor (byte_len t)))
    ∙ slice_to-floor_boundary t _
    ∙ ap (slice_to t) both
    ∙ slice_to-min t (min cursor anchor)

-- After a frame the shadow holds the longest run of whole characters of the reported text that ends at
-- or before both the cursor and the anchor: a selection on either side is no part of it. The frame
-- ends the wait for an echo and records the cursor.
pub observe_surrounding-text :
    (s : ShadowBuffer) (t : Text) (cursor anchor : ℕ)
    → let s' = (observe_surrounding s t cursor anchor).0 in
      IsLongestFit t (min cursor anchor) s'.text
      × (s'.last_cursor ≡ some cursor)
      × (s'.pending_commit ≡ false)
unfolding observe_surrounding
observe_surrounding-text s t cursor anchor = (
  subst (IsLongestFit t (min cursor anchor)) (sym (observed_text s t cursor anchor))
      (slice_to-IsLongestFit t (min cursor anchor)),
  refl,
  refl,
)

not_below : (n : ℕ) → ltb n n ≡ false
not_below n = ground arith

-- A frame with no selection leaves none.
pub observe-no_selection :
    (s : ShadowBuffer) (t : Text) (cursor : ℕ)
    → let s' = (observe_surrounding s t cursor cursor).0 in
      (s'.selected_before_chars ≡ 0) × (s'.selected_after_bytes ≡ 0) × (s'.selected_after_chars ≡ 0)
unfolding observe_surrounding
observe-no_selection s t cursor =
    rw (not_below (floor_boundary t (min cursor (byte_len t)))) (refl, refl, refl)
