-- ===== src/Text/Boundaries.antt =====
-- The search for the largest boundary at or before a position.
use daklak_rs.Prelude.{
  leb→le, ℕ, zero, suc, ◌+◌, ◌-◌, ◌≤◌, ◌<◌, ◌≡◌, refl, ap, sym, ◌∙◌, inl, inr, true, false, [], ◌∷◌,
  ◌++◌, arith, leb, min, Bool-cases,
}
use native.Mathlib.Decide.{dec_le}
use native.Mathlib.Nat.{le_refl}
use daklak_rs.Text.{Text, len_utf8, byte_len, is_char_boundary, slice_to, floor_boundary}

-- A position that is no boundary cuts where the one before it does.
slice_to_inside :
    (t : Text) (i n : ℕ) → n ≡ suc i → is_char_boundary t n ≡ false → slice_to t n ≡ slice_to t i
unfolding slice_to is_char_boundary
slice_to_inside t i zero h e = absurd (omega arith)
slice_to_inside [] i (suc n) h e = refl
slice_to_inside (c ∷ cs) i (suc n) h e = ground (
  arith,
  slice_to_inside cs (i - len_utf8 c) (suc n - len_utf8 c),
  boundary_zero cs (suc n - len_utf8 c),
)
  where
    boundary_zero : (t : Text) (n : ℕ) → n ≡ 0 → is_char_boundary t n ≡ true
    boundary_zero t zero h = refl
    boundary_zero t (suc n) h = absurd (omega arith)

-- The search for a boundary finds the place where the slice ends anyway.
pub slice_to-floor_boundary : (t : Text) (i : ℕ) → slice_to t (floor_boundary t i) ≡ slice_to t i
unfolding floor_boundary
slice_to-floor_boundary t zero = refl
slice_to-floor_boundary t (suc i) = elim (Bool-cases (is_char_boundary t (suc i))) [
  | inl e ↦ rw e
  | inr e ↦ rw e (slice_to-floor_boundary t i ∙ sym (slice_to_inside t i (suc i) refl e))
]

pub slice_to-min : (t : Text) (i : ℕ) → slice_to t (min i (byte_len t)) ≡ slice_to t i
unfolding slice_to byte_len
slice_to-min [] i = refl
slice_to-min (c ∷ cs) i = elim (Bool-cases (leb (len_utf8 c) i)) [
  | inl e ↦
      let fits : len_utf8 c ≤ i = leb→le _ _ e in
      let shift : min i (len_utf8 c + byte_len cs) - len_utf8 c
          ≡ min (i - len_utf8 c) (byte_len cs) =
        omega arith in
      ground (arith, slice_to-min cs (i - len_utf8 c), shift)
  | inr e ↦ ground arith
]

-- `p` is the longest run of whole scalars at the start of `t` that fits in `i` bytes.
pub record IsLongestFit (t : Text) (i : ℕ) (p : Text) : Type 0 where
  pub rest : Text
  pub splits : t ≡ p ++ rest
  pub fits : byte_len p ≤ i
  pub maximal : (c : ℕ) (r : Text) → rest ≡ c ∷ r → i < byte_len p + len_utf8 c

pub slice_to-IsLongestFit : (t : Text) (i : ℕ) → IsLongestFit t i (slice_to t i)
unfolding slice_to byte_len
slice_to-IsLongestFit [] i = record {
  rest = [];
  splits = refl;
  fits = omega arith;
  maximal = λ c r e. cc;
}
slice_to-IsLongestFit (c ∷ cs) i = elim (Bool-cases (leb (len_utf8 c) i)) [
  | inl e ↦
      let ih = slice_to-IsLongestFit cs (i - len_utf8 c) in
      let le = leb→le _ _ e in
      rw e (record {
        rest = ih.rest;
        splits = ap (λ t. c ∷ t) ih.splits;
        fits = omega (arith, ih.fits, le);
        maximal = λ d r eq. omega (arith, ih.maximal d r eq, le);
      })
  | inr e ↦ rw e (record {
    rest = c ∷ cs;
    splits = refl;
    fits = omega arith;
    maximal = λ d r eq. ground (arith, ap (get_or_head 0) eq);
  })
]
  where
    get_or_head : ℕ → Text → ℕ
    get_or_head d [] = d
    get_or_head d (c ∷ cs) = c

pub floor_boundary-le : (t : Text) (i : ℕ) → floor_boundary t i ≤ i
unfolding floor_boundary
floor_boundary-le t zero = omega arith
floor_boundary-le t (suc i) = ground (arith, floor_boundary-le t i)

pub floor_boundary_mono : (t : Text) (i j : ℕ) → i ≤ j → floor_boundary t i ≤ floor_boundary t j
unfolding floor_boundary
floor_boundary_mono t zero zero h = omega arith
floor_boundary_mono t (suc i) zero h = absurd (omega arith)
floor_boundary_mono t i (suc j) h = elim (dec_le i j) [
  | yes le ↦ ground (arith, floor_boundary_mono t i j le, floor_boundary-le t j)
  | no gt ↦ let same : i ≡ suc j = omega arith in rw same (le_refl _)
]
