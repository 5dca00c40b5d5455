-- ===== src/Composer/Words/Laws.antt =====
-- What the text helpers compute: the longest prefix that fits before the cursor, and the last word of
-- it.
use mathlib.Core.List.{reverse, reverse-cons}
use daklak_rs.Prelude.{
  or_else, append_assoc, last?-append, drop, take-append-drop, ℕ, zero, suc, ◌+◌, ◌<◌, ◌≡◌, refl,
  ap, sym, ◌∙◌, ◌⊎◌, inl, inr, Bool, true, not, List, [], ◌∷◌, ◌++◌, Option, none, some, arith, min,
  u32, u32_mod, take, get_elem?, last?, all, Bool-cases,
}
use daklak_rs.Text.{Text, len_utf8, byte_len, slice_to, slice_from, char_indices, find}
use daklak_rs.Text.Slices.{byte_len-append, slice_from_zero, slice_to-append, slice_from-append}
use daklak_rs.Text.Boundaries.{
  slice_to-floor_boundary, slice_to-min, IsLongestFit, slice_to-IsLongestFit,
}
use daklak_rs.Composer.Words.{
  text_before_cursor, is_word_boundary, word_start, current_word_before_cursor, offset_or,
  char_to_byte_offset,
}

pub text_before_cursor-slice_to : (t : Text) (i : ℕ) → text_before_cursor t i ≡ slice_to t i
unfolding text_before_cursor
text_before_cursor-slice_to t i = slice_to-floor_boundary t (min i (byte_len t)) ∙ slice_to-min t i

-- The text before the cursor is the longest run of whole scalars that ends at or before the reported
-- byte position, wherever that position lies.
pub text_before_cursor-IsLongestFit :
    (t : Text) (cursor : ℕ) → IsLongestFit t cursor (text_before_cursor t cursor)
text_before_cursor-IsLongestFit t cursor =
    rw (text_before_cursor-slice_to t cursor) (slice_to-IsLongestFit t cursor)

-- `w` is what follows the last boundary scalar of `t`.
pub record IsLastWord (t w : Text) : Type 0 where
  pub before : Text
  pub splits : t ≡ before ++ w
  pub inside : all (λ c. not (is_word_boundary c)) w ≡ true
  pub edge : (before ≡ []) ⊎ ((c : ℕ) × (last? before ≡ some c) × (is_word_boundary c ≡ true))

find-append :
    {A : Type 0} (p : A → Bool) (xs ys : List A)
    → find p (xs ++ ys) ≡ or_else (find p xs) (find p ys)
unfolding find
find-append p [] ys = refl
find-append p (x ∷ xs) ys = ground (arith, find-append p xs ys)

abbrev at_boundary : ℕ × ℕ → Bool
at_boundary p = is_word_boundary p.1

-- Where the backwards search for a boundary stops.
abbrev Stops : ℕ → Text → Option (ℕ × ℕ) → Type 0
Stops n t r =
    ((r ≡ none) × (all (λ c. not (is_word_boundary c)) t ≡ true))
    ⊎ ((b : Text) × (c : ℕ) × (w : Text) × (t ≡ b ++ c ∷ w)
        × (r ≡ some (n + byte_len b, c))
        × (is_word_boundary c ≡ true)
        × (all (λ c. not (is_word_boundary c)) w ≡ true))

Stops-here :
    (n c : ℕ) (cs : Text)
    → all (λ c. not (is_word_boundary c)) cs ≡ true
    → Stops n (c ∷ cs) (find at_boundary ((n, c) ∷ []))
unfolding find byte_len
Stops-here n c cs h = elim (Bool-cases (is_word_boundary c)) [
  | inl e ↦ inr ([], c, cs, refl, ground arith, e, h)
  | inr e ↦ inl (ground arith, ground arith)
]

search-Stops : (n : ℕ) (t : Text) → Stops n t (find at_boundary (reverse (char_indices n t)))
unfolding char_indices
search-Stops n [] = unfold find in inl (refl, refl)
search-Stops n (c ∷ cs) = rw (reverse-cons (n, c) (char_indices (n + len_utf8 c) cs)) (
    rw (find-append at_boundary (reverse (char_indices (n + len_utf8 c) cs)) ((n, c) ∷ []))
      (elim (search-Stops (n + len_utf8 c) cs) [
        | inl (e, h) ↦ rw e (Stops-here n c cs h)
        | inr (b, d, w, split, e, hd, hw) ↦
            rw e (inr (c ∷ b, d, w, ap (λ r. c ∷ r) split, unfold byte_len in ground arith, hd, hw))
      ]))

word_start-IsLastWord : (t : Text) → IsLastWord t (slice_from t (word_start t))
unfolding word_start
word_start-IsLastWord t = elim (search-Stops 0 t) [
  | inl (e, h) ↦
      rw (e, slice_from_zero t) (record { before = []; splits = refl; inside = h; edge = inl refl })
  | inr (b, c, w, split, e, hc, hw) ↦
      let whole : t ≡ (b ++ c ∷ []) ++ w = split ∙ sym (append_assoc b (c ∷ []) w) in
      let len : 0 + byte_len b + len_utf8 c ≡ byte_len (b ++ c ∷ []) =
        rw (byte_len-append b (c ∷ [])) (unfold byte_len in omega arith) in
      rw (e, len, whole, slice_from-append (b ++ c ∷ []) w)
        (record {
          before = b ++ c ∷ [];
          splits = refl;
          inside = hw;
          edge = inr (c, last?-append b c, hc);
        })
]

-- The word before the cursor is what follows the last boundary scalar of the text before the cursor:
-- no boundary is in it, and it begins at the start of the text or just past a boundary.
pub current_word_before_cursor-IsLastWord :
    (t : Text) (cursor : ℕ)
    → IsLastWord (text_before_cursor t cursor) (current_word_before_cursor t cursor)
unfolding current_word_before_cursor
current_word_before_cursor-IsLastWord t cursor = word_start-IsLastWord (text_before_cursor t cursor)

offset_or-take :
    (n : ℕ) (t : Text) (k : ℕ)
    → offset_or (get_elem? (char_indices n t) k) (n + byte_len t) ≡ n + byte_len (take k t)
unfolding char_indices byte_len
offset_or-take n [] zero = refl
offset_or-take n [] (suc k) = refl
offset_or-take n (c ∷ cs) zero = omega arith
offset_or-take n (c ∷ cs) (suc k) =
    let regroup : n + (len_utf8 c + byte_len cs) ≡ n + len_utf8 c + byte_len cs = omega arith in
    rw regroup (offset_or-take (n + len_utf8 c) cs k ∙ omega arith)

-- An IBus position counts scalars: converted to bytes, it stands in front of just the text that those
-- scalars make up, also where it lies past the end, as long as the text has under 2 ^ 32 bytes.
pub text_before_cursor-char_to_byte_offset :
    (t : Text) (k : ℕ)
    → byte_len t < u32_mod
    → text_before_cursor t (char_to_byte_offset t k) ≡ take k t
unfolding char_to_byte_offset
text_before_cursor-char_to_byte_offset t k h =
    let zero_add : 0 + byte_len t ≡ byte_len t = omega arith in
    let parts = ap byte_len (take-append-drop k t) in
    let sum = byte_len-append (take k t) (drop k t) in
    let offset : u32 (offset_or (get_elem? (char_indices 0 t) k) (byte_len t))
        ≡ byte_len (take k t) =
      omega (arith, rw zero_add at (offset_or-take 0 t k), parts, sum) in
    rw offset (
      text_before_cursor-slice_to t (byte_len (take k t))
      ∙ ap (λ s. slice_to s (byte_len (take k t))) (sym (take-append-drop k t))
      ∙ slice_to-append (take k t) (drop k t))
