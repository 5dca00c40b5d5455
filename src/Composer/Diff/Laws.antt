-- ===== src/Composer/Diff/Laws.antt =====
-- The frame tests decide exactly the edits that they are named for.
use daklak_rs.Prelude.{
  ℕ, ◌+◌, ◌≤◌, ◌<◌, ◌≡◌, refl, ap, sym, ◌∙◌, ◌≢◌, ◌↔◌, true, false, [], ◌∷◌, ◌++◌, arith, length,
  append_assoc, is_empty,
}
use daklak_rs.Text.{Text, len_utf8, byte_len, is_char_boundary, slice_to, slice_from, text_eq}
use daklak_rs.Text.Slices.{
  len_utf8_pos, byte_len-append, byte_len-slice_to, slice_to-append-slice_from, text_eq_iff,
  slice_to-slice_to, byte_len-singleton, slices_of_append,
}
use daklak_rs.Composer.Diff.{detect_one_char_insertion, detect_deletion}

-- One scalar came in at the previous cursor, and the cursor went past it.
pub record Inserted (prev_text : Text) (prev_cur : ℕ) (text : Text) (cur : ℕ) : Type 0 where
  pub before : Text
  pub scalar : ℕ
  pub after : Text
  pub prev_is : prev_text ≡ before ++ after
  pub text_is : text ≡ before ++ scalar ∷ after
  pub prev_cur_is : prev_cur ≡ byte_len before
  pub cur_is : cur ≡ byte_len before + len_utf8 scalar

-- The text between the cursor and the previous one went out.
pub record Deleted (prev_text : Text) (prev_cur : ℕ) (text : Text) (cur : ℕ) : Type 0 where
  pub before : Text
  pub gone : Text
  pub after : Text
  pub prev_is : prev_text ≡ before ++ (gone ++ after)
  pub text_is : text ≡ before ++ after
  pub something : gone ≢ []
  pub prev_cur_is : prev_cur ≡ byte_len before + byte_len gone
  pub cur_is : cur ≡ byte_len before

insertion_facts :
    (pt : Text) (pc : ℕ) (t : Text) (c : ℕ)
    → detect_one_char_insertion pt pc t c ≡ true
    → (pc < c)
      × (is_char_boundary pt pc ≡ true)
      × (is_char_boundary t c ≡ true)
      × (is_char_boundary t pc ≡ true)
      × (text_eq (slice_to t pc) (slice_to pt pc) ≡ true)
      × (text_eq (slice_from t c) (slice_from pt pc) ≡ true)
      × (length (slice_from (slice_to t c) pc) ≡ 1)
unfolding detect_one_char_insertion
insertion_facts pt pc t c h = ground arith

singleton_of : (t : Text) → length t ≡ 1 → (c : ℕ) × (t ≡ c ∷ [])
singleton_of [] h = absurd (omega arith)
singleton_of (c ∷ []) h = (c, refl)
singleton_of (c ∷ d ∷ t) h = absurd (omega arith)

-- A text cut at two positions is its three slices.
three_slices :
    (t : Text) (i j : ℕ)
    → i ≤ j
    → t ≡ slice_to t i ++ (slice_from (slice_to t j) i ++ slice_from t j)
three_slices t i j h = sym (
    ap (λ s. s ++ (slice_from (slice_to t j) i ++ slice_from t j)) (sym (slice_to-slice_to t i j h))
    ∙ sym (append_assoc _ (slice_from (slice_to t j) i) (slice_from t j))
    ∙ ap (λ s. s ++ slice_from t j) (slice_to-append-slice_from (slice_to t j) i)
    ∙ slice_to-append-slice_from t j)

-- The width of the text between two boundaries.
between_len :
    (t : Text) (i j : ℕ)
    → i ≤ j
    → is_char_boundary t i ≡ true
    → is_char_boundary t j ≡ true
    → j ≡ i + byte_len (slice_from (slice_to t j) i)
between_len t i j h bi bj =
    let whole = ap byte_len (slice_to-append-slice_from (slice_to t j) i) in
    let inner = ap byte_len (slice_to-slice_to t i j h) in
    omega (
      arith,
      whole,
      inner,
      byte_len-append (slice_to (slice_to t j) i) (slice_from (slice_to t j) i),
      byte_len-slice_to t i bi,
      byte_len-slice_to t j bj,
    )

insertion_sound :
    (pt : Text) (pc : ℕ) (t : Text) (c : ℕ)
    → detect_one_char_insertion pt pc t c ≡ true
    → Inserted pt pc t c
insertion_sound pt pc t c h =
    let (lt, bp, bc, bt, same_to, same_from, one) = insertion_facts pt pc t c h in
    let (s, is_s) = singleton_of _ one in
    let to = (text_eq_iff _ _).0 same_to in
    let from = (text_eq_iff _ _).0 same_from in
    record {
      before = slice_to pt pc;
      scalar = s;
      after = slice_from pt pc;
      prev_is = sym (slice_to-append-slice_from pt pc);
      text_is = rw (to, is_s, from) at (three_slices t pc c (omega arith));
      prev_cur_is = sym (byte_len-slice_to pt pc bp);
      cur_is = omega (
        arith,
        between_len t pc c (omega arith) bt bc,
        ap byte_len is_s,
        byte_len-singleton s,
        byte_len-slice_to pt pc bp,
      );
    }

insertion_from_facts :
    (pt : Text) (pc : ℕ) (t : Text) (c : ℕ)
    → pc ≤ byte_len pt
    → c ≤ byte_len t
    → pc < c
    → is_char_boundary pt pc ≡ true
    → is_char_boundary t c ≡ true
    → is_char_boundary t pc ≡ true
    → text_eq (slice_to t pc) (slice_to pt pc) ≡ true
    → text_eq (slice_from t c) (slice_from pt pc) ≡ true
    → length (slice_from (slice_to t c) pc) ≡ 1
    → detect_one_char_insertion pt pc t c ≡ true
unfolding detect_one_char_insertion
insertion_from_facts pt pc t c l1 l2 lt bp bc bt to from one = ground arith

insertion_complete :
    (pt : Text) (pc : ℕ) (t : Text) (c : ℕ)
    → Inserted pt pc t c
    → detect_one_char_insertion pt pc t c ≡ true
insertion_complete pt pc t c h =
    let q = h.before ++ h.scalar ∷ [] in
    let split : t ≡ q ++ h.after =
      h.text_is ∙ sym (append_assoc h.before (h.scalar ∷ []) h.after) in
    let width : c ≡ byte_len q =
      omega
        (arith, h.cur_is, byte_len-append h.before (h.scalar ∷ []), byte_len-singleton h.scalar) in
    let prev = slices_of_append pt pc h.before h.after h.prev_is h.prev_cur_is in
    let here = slices_of_append t pc h.before (h.scalar ∷ h.after) h.text_is h.prev_cur_is in
    let there = slices_of_append t c q h.after split width in
    let inner = slices_of_append (slice_to t c) pc h.before (h.scalar ∷ []) there.1 h.prev_cur_is in
    insertion_from_facts pt pc t c prev.3 there.3
      (omega (arith, h.cur_is, h.prev_cur_is, len_utf8_pos h.scalar)) prev.0 there.0 here.0
      ((text_eq_iff _ _).1 (here.1 ∙ sym prev.1)) ((text_eq_iff _ _).1 (there.2 ∙ sym prev.2))
      (ap length inner.2)

-- The test for a typed key accepts exactly the frames that insert one scalar at the previous cursor
-- and move the cursor past it, at the end of the text or inside it.
pub detect_one_char_insertion_iff :
    (prev_text : Text) (prev_cur : ℕ) (text : Text) (cur : ℕ)
    → (detect_one_char_insertion prev_text prev_cur text cur ≡ true)
      ↔ Inserted prev_text prev_cur text cur
detect_one_char_insertion_iff pt pc t c = (insertion_sound pt pc t c, insertion_complete pt pc t c)

deletion_facts :
    (pt : Text) (pc : ℕ) (t : Text) (c : ℕ)
    → detect_deletion pt pc t c ≡ true
    → (c ≤ pc)
      × (is_char_boundary pt pc ≡ true)
      × (is_char_boundary t c ≡ true)
      × (is_char_boundary pt c ≡ true)
      × (text_eq (slice_to t c) (slice_to pt c) ≡ true)
      × (text_eq (slice_from t c) (slice_from pt pc) ≡ true)
      × (is_empty (slice_from (slice_to pt pc) c) ≡ false)
unfolding detect_deletion
deletion_facts pt pc t c h = ground arith

deletion_from_facts :
    (pt : Text) (pc : ℕ) (t : Text) (c : ℕ)
    → pc ≤ byte_len pt
    → c ≤ byte_len t
    → c ≤ pc
    → byte_len t < byte_len pt
    → is_char_boundary pt pc ≡ true
    → is_char_boundary t c ≡ true
    → is_char_boundary pt c ≡ true
    → text_eq (slice_to t c) (slice_to pt c) ≡ true
    → text_eq (slice_from t c) (slice_from pt pc) ≡ true
    → is_empty (slice_from (slice_to pt pc) c) ≡ false
    → detect_deletion pt pc t c ≡ true
unfolding detect_deletion
deletion_from_facts pt pc t c l1 l2 le lt bp bc bt to from gone = ground arith

nonempty_of : (t : Text) → is_empty t ≡ false → t ≢ []
nonempty_of [] h = cc
nonempty_of (c ∷ t) h = λ e. cc

is_empty_of : (t : Text) → t ≢ [] → (is_empty t ≡ false) × (0 < byte_len t)
unfolding byte_len
is_empty_of [] h = absurd (h refl)
is_empty_of (c ∷ t) h = (refl, omega (arith, len_utf8_pos c))

deletion_sound :
    (pt : Text) (pc : ℕ) (t : Text) (c : ℕ) → detect_deletion pt pc t c ≡ true → Deleted pt pc t c
deletion_sound pt pc t c h =
    let (le, bp, bc, bt, same_to, same_from, some_gone) = deletion_facts pt pc t c h in
    let to = (text_eq_iff _ _).0 same_to in
    let from = (text_eq_iff _ _).0 same_from in
    record {
      before = slice_to t c;
      gone = slice_from (slice_to pt pc) c;
      after = slice_from t c;
      prev_is = rw (← to, ← from) at (three_slices pt c pc le);
      text_is = sym (slice_to-append-slice_from t c);
      something = nonempty_of _ some_gone;
      prev_cur_is = omega (arith, between_len pt c pc le bt bp, byte_len-slice_to t c bc);
      cur_is = sym (byte_len-slice_to t c bc);
    }

deletion_complete :
    (pt : Text) (pc : ℕ) (t : Text) (c : ℕ) → Deleted pt pc t c → detect_deletion pt pc t c ≡ true
deletion_complete pt pc t c h =
    let q = h.before ++ h.gone in
    let split : pt ≡ q ++ h.after = h.prev_is ∙ sym (append_assoc h.before h.gone h.after) in
    let width : pc ≡ byte_len q = omega (arith, h.prev_cur_is, byte_len-append h.before h.gone) in
    let prev = slices_of_append pt pc q h.after split width in
    let here = slices_of_append t c h.before h.after h.text_is h.cur_is in
    let there = slices_of_append pt c h.before (h.gone ++ h.after) h.prev_is h.cur_is in
    let inner = slices_of_append (slice_to pt pc) c h.before h.gone prev.1 h.cur_is in
    let (empty, positive) = is_empty_of h.gone h.something in
    deletion_from_facts pt pc t c prev.3 here.3 (omega (arith, h.cur_is, h.prev_cur_is))
      (omega (
        arith,
        ap byte_len h.prev_is,
        ap byte_len h.text_is,
        byte_len-append h.before (h.gone ++ h.after),
        byte_len-append h.gone h.after,
        byte_len-append h.before h.after,
        positive,
      ))
      prev.0 here.0 there.0 ((text_eq_iff _ _).1 (here.1 ∙ sym there.1))
      ((text_eq_iff _ _).1 (here.2 ∙ sym prev.2)) (ap is_empty inner.2 ∙ empty)

-- The test for a deletion accepts exactly the frames that take out a nonempty run of text between the
-- new cursor and the previous one, and leave the text on both sides alone.
pub detect_deletion_iff :
    (prev_text : Text) (prev_cur : ℕ) (text : Text) (cur : ℕ)
    → (detect_deletion prev_text prev_cur text cur ≡ true) ↔ Deleted prev_text prev_cur text cur
detect_deletion_iff pt pc t c = (deletion_sound pt pc t c, deletion_complete pt pc t c)
