-- ===== src/Text/Slices.antt =====
-- Laws of byte positions in a text: lengths, boundaries and slices.
use daklak_rs.Prelude.{
  ℕ, zero, suc, ◌+◌, ◌-◌, ◌≤◌, ◌<◌, ◌≡◌, refl, ap, sym, ◌∙◌, ◌↔◌, true, [], ◌∷◌, ◌++◌, arith,
  length, length-append, append_assoc, leb, le→leb, leb→le, Bool-cases, inl, inr,
}
use daklak_rs.Text.{
  Text, len_utf8, encode, byte_len, as_bytes, is_char_boundary, slice_to, slice_from, text_eq,
}

pub len_utf8_pos : (c : ℕ) → 0 < len_utf8 c
unfolding len_utf8
len_utf8_pos c = ground arith

pub len_utf8_le : (c : ℕ) → len_utf8 c ≤ 4
unfolding len_utf8
len_utf8_le c = ground arith

add-sub-cancel : (a b : ℕ) → a + b - a ≡ b
add-sub-cancel a b = omega arith

pub length-encode : (c : ℕ) → length (encode c) ≡ len_utf8 c
unfolding encode len_utf8
length-encode c = ground arith

pub byte_len-append : (s t : Text) → byte_len (s ++ t) ≡ byte_len s + byte_len t
unfolding byte_len
byte_len-append [] t = omega arith
byte_len-append (c ∷ cs) t = omega (arith, byte_len-append cs t)

pub length-as_bytes : (t : Text) → length (as_bytes t) ≡ byte_len t
unfolding as_bytes byte_len
length-as_bytes [] = refl
length-as_bytes (c ∷ cs) =
    omega (arith, length-append (encode c) (as_bytes cs), length-encode c, length-as_bytes cs)

pub as_bytes-append : (s t : Text) → as_bytes (s ++ t) ≡ as_bytes s ++ as_bytes t
unfolding as_bytes
as_bytes-append [] t = refl
as_bytes-append (c ∷ cs) t =
    rw (as_bytes-append cs t) (sym (append_assoc (encode c) (as_bytes cs) (as_bytes t)))

pub length-le-byte_len : (t : Text) → length t ≤ byte_len t
unfolding byte_len
length-le-byte_len [] = omega arith
length-le-byte_len (c ∷ cs) = omega (arith, len_utf8_pos c, length-le-byte_len cs)

-- The two slices at a position make up the text.
pub slice_to-append-slice_from : (t : Text) (i : ℕ) → slice_to t i ++ slice_from t i ≡ t
unfolding slice_to slice_from
slice_to-append-slice_from [] i = refl
slice_to-append-slice_from (c ∷ cs) i =
    ground (arith, slice_to-append-slice_from cs (i - len_utf8 c))

-- A slice up to a boundary has just that many bytes.
pub byte_len-slice_to :
    (t : Text) (i : ℕ) → is_char_boundary t i ≡ true → byte_len (slice_to t i) ≡ i
unfolding slice_to byte_len is_char_boundary
byte_len-slice_to [] zero h = refl
byte_len-slice_to [] (suc i) h = cc
byte_len-slice_to (c ∷ cs) zero h = ground (arith, len_utf8_pos c)
byte_len-slice_to (c ∷ cs) (suc i) h = ground (arith, byte_len-slice_to cs (suc i - len_utf8 c))

-- A position past the first scalar is one past it in the rest.
pub slice_to-cons :
    (c : ℕ) (t : Text) (i : ℕ) → slice_to (c ∷ t) (len_utf8 c + i) ≡ c ∷ slice_to t i
unfolding slice_to
slice_to-cons c t i = ground (arith, add-sub-cancel (len_utf8 c) i)

pub slice_from-cons :
    (c : ℕ) (t : Text) (i : ℕ) → slice_from (c ∷ t) (len_utf8 c + i) ≡ slice_from t i
unfolding slice_from
slice_from-cons c t i = ground (arith, add-sub-cancel (len_utf8 c) i)

boundary_pos :
    (c : ℕ) (t : Text) (i n : ℕ)
    → 0 < n
    → n ≡ len_utf8 c + i
    → is_char_boundary (c ∷ t) n ≡ is_char_boundary t i
unfolding is_char_boundary
boundary_pos c t i zero h e = absurd (omega arith)
boundary_pos c t i (suc n) h e = ground (arith, add-sub-cancel (len_utf8 c) i)

pub is_char_boundary-cons :
    (c : ℕ) (t : Text) (i : ℕ) → is_char_boundary (c ∷ t) (len_utf8 c + i) ≡ is_char_boundary t i
is_char_boundary-cons c t i =
    boundary_pos c t i (len_utf8 c + i) (omega (arith, len_utf8_pos c)) refl

pub slice_to-append : (s t : Text) → slice_to (s ++ t) (byte_len s) ≡ s
unfolding slice_to byte_len
slice_to-append [] [] = refl
slice_to-append [] (c ∷ cs) = ground (arith, len_utf8_pos c)
slice_to-append (c ∷ cs) t =
    slice_to-cons c (cs ++ t) (byte_len cs) ∙ ap (λ r. c ∷ r) (slice_to-append cs t)

pub slice_from-append : (s t : Text) → slice_from (s ++ t) (byte_len s) ≡ t
unfolding slice_from byte_len
slice_from-append [] [] = refl
slice_from-append [] (c ∷ cs) = ground (arith, len_utf8_pos c)
slice_from-append (c ∷ cs) t = slice_from-cons c (cs ++ t) (byte_len cs) ∙ slice_from-append cs t

pub is_char_boundary-append : (s t : Text) → is_char_boundary (s ++ t) (byte_len s) ≡ true
unfolding is_char_boundary byte_len
is_char_boundary-append [] [] = refl
is_char_boundary-append [] (c ∷ cs) = refl
is_char_boundary-append (c ∷ cs) t =
    is_char_boundary-cons c (cs ++ t) (byte_len cs) ∙ is_char_boundary-append cs t

pub text_eq_iff : (s t : Text) → (text_eq s t ≡ true) ↔ (s ≡ t)
unfolding text_eq
text_eq_iff [] [] = (λ e. refl, λ e. refl)
text_eq_iff [] (d ∷ ds) = (λ e. cc, λ e. cc)
text_eq_iff (c ∷ cs) [] = (λ e. cc, λ e. cc)
text_eq_iff (c ∷ cs) (d ∷ ds) =
    let ih = text_eq_iff cs ds in (λ e. ground (arith, ih), λ e. ground (arith, ih))

-- A slice of a longer slice is the slice.
pub slice_to-slice_to : (t : Text) (i j : ℕ) → i ≤ j → slice_to (slice_to t j) i ≡ slice_to t i
unfolding slice_to
slice_to-slice_to [] i j h = refl
slice_to-slice_to (c ∷ cs) i j h = elim (Bool-cases (leb (len_utf8 c) i)) [
  | inl e ↦
      let fits : len_utf8 c ≤ i = leb→le _ _ e in
      let wide : leb (len_utf8 c) j ≡ true = le→leb _ _ (omega arith) in
      rw wide (
        rw e
          (ap (λ r. c ∷ r) (slice_to-slice_to cs (i - len_utf8 c) (j - len_utf8 c) (omega arith))))
  | inr e ↦ elim (Bool-cases (leb (len_utf8 c) j)) [
    | inl w ↦ rw w (rw e refl)
    | inr n ↦ rw n (rw e refl)
  ]
]

pub byte_len-singleton : (c : ℕ) → byte_len (c ∷ []) ≡ len_utf8 c
unfolding byte_len
byte_len-singleton c = omega arith

-- A text that is given in two parts, cut where the first one ends.
pub slices_of_append :
    (t : Text) (i : ℕ) (p a : Text)
    → t ≡ p ++ a
    → i ≡ byte_len p
    → (is_char_boundary t i ≡ true) × (slice_to t i ≡ p) × (slice_from t i ≡ a) × (i ≤ byte_len t)
slices_of_append t i p a e f =
    rw (e, f)
      (
        is_char_boundary-append p a,
        slice_to-append p a,
        slice_from-append p a,
        omega (arith, byte_len-append p a),
      )

pub slice_from_zero : (t : Text) → slice_from t 0 ≡ t
unfolding slice_from
slice_from_zero [] = refl
slice_from_zero (c ∷ cs) = ground (arith, len_utf8_pos c)
