-- ===== src/Strategy/Shadow/Pop.antt =====
-- What popping takes off the shadow.
use daklak_rs.Prelude.{
  ℕ, zero, suc, ◌+◌, ◌-◌, ◌≤◌, ◌<◌, ◌≡◌, refl, ap, sym, ◌∙◌, inl, inr, [], ◌∷◌, ◌++◌, arith, u32,
  u32_mod, usize_max, saturating_add, none, some, length, take, drop, last?, init, length-init,
  take-init, drop-init_append, take_all, init-append-last, pop_times, last?-ne-none, drop_all,
  length-append, Option-cases, take-append-drop,
}
use daklak_rs.Text.{Text, len_utf8, byte_len}
use daklak_rs.Text.Slices.{byte_len-append, byte_len-singleton, length-le-byte_len}
use daklak_rs.Strategy.Shadow.{ShadowBuffer, pop_loop, pop_chars, pop_delete_span}

-- The text without its last `n` characters, and those characters.
abbrev pub kept : Text → ℕ → Text
kept t n = take (length t - n) t

abbrev pub cut : Text → ℕ → Text
cut t n = drop (length t - n) t

abbrev Popped : Text → ℕ → ℕ → ℕ → Text × ℕ × ℕ → Type 0
Popped t n b c r = (r.0 ≡ kept t n) × (r.1 ≡ b + byte_len (cut t n)) × (r.2 ≡ c + length (cut t n))

pop_none : (t : Text) (n b c : ℕ) → last? t ≡ none → Popped t n b c (t, b, c)
pop_none [] n b c e =
    let none_left : 0 - n ≡ 0 = omega arith in
    rw none_left (refl, unfold byte_len in omega arith, omega arith)
pop_none (x ∷ t) n b c e = absurd (last?-ne-none x t e)

last?-pos : (t : Text) (ch : ℕ) → last? t ≡ some ch → 0 < length t
last?-pos [] ch e = cc
last?-pos (x ∷ t) ch e = omega arith

-- One pop from the end leaves the rest to be popped from the front.
shift :
    (t : Text) (n ch : ℕ)
    → last? t ≡ some ch
    → (kept t (suc n) ≡ kept (init t) n) × (cut t (suc n) ≡ cut (init t) n ++ ch ∷ [])
shift t n ch e =
    let pos = last?-pos t ch e in
    let same : length (init t) - n ≡ length t - suc n = omega (arith, length-init t) in
    rw same (
      sym (take-init (length t - suc n) t (omega arith)),
      sym (drop-init_append (length t - suc n) t ch (omega arith) e),
    )

-- A pop of the empty text takes nothing.
pub kept-init : (t : Text) (n : ℕ) → kept (init t) n ≡ kept t (suc n)
kept-init [] n =
    let left : 0 - n ≡ 0 = omega arith in
    let right : 0 - suc n ≡ 0 = omega arith in rw (left, right)
kept-init (x ∷ t) n = elim (Option-cases (last? (x ∷ t))) [
  | inl e ↦ absurd (last?-ne-none x t e)
  | inr (ch, e) ↦ sym (shift (x ∷ t) n ch e).0
]

pub kept_zero : (t : Text) → kept t 0 ≡ t
kept_zero t = take_all (length t - 0) t (omega arith)

pub pop_times-kept : (n : ℕ) (t : Text) → pop_times n t ≡ kept t n
pop_times-kept zero t = sym (kept_zero t)
pop_times-kept (suc n) t = pop_times-kept n (init t) ∙ kept-init t n

pop_some :
    (t : Text) (n b c ch : ℕ) (r : Text × ℕ × ℕ)
    → last? t ≡ some ch
    → Popped (init t) n (b + len_utf8 ch) (c + 1) r
    → Popped t (suc n) b c r
pop_some t n b c ch r e (t', b', c') =
    let (front, tail) = shift t n ch e in
    (
      t' ∙ sym front,
      omega (
        arith,
        b',
        ap byte_len tail,
        byte_len-append (cut (init t) n) (ch ∷ []),
        byte_len-singleton ch,
      ),
      omega (arith, c', ap length tail, length-append (cut (init t) n) (ch ∷ [])),
    )

pop_loop-Popped :
    (n : ℕ) (t : Text) (b c : ℕ)
    → b + byte_len t < u32_mod
    → c + length t < u32_mod
    → Popped t n b c (pop_loop n t b c)
unfolding pop_loop
pop_loop-Popped zero t b c hb hc =
    let all_kept : length t - 0 ≡ length t = omega arith in
    let nothing : drop (length t) t ≡ [] = drop_all t in
    rw (all_kept, nothing)
      (sym (take_all (length t) t (omega arith)), unfold byte_len in omega arith, omega arith)
pop_loop-Popped (suc n) t b c hb hc = elim (Option-cases (last? t)) [
  | inl e ↦ rw (e, pop_loop) (pop_none t (suc n) b c e)
  | inr (ch, e) ↦
      let front = init-append-last t ch e in
      let width = ap byte_len front in
      let bytes : byte_len (init t) + len_utf8 ch ≡ byte_len t =
        omega (arith, width, byte_len-append (init t) (ch ∷ []), byte_len-singleton ch) in
      let count : length (init t) + 1 ≡ length t = omega (arith, length-init t, last?-pos t ch e) in
      let b' : u32 (b + len_utf8 ch) ≡ b + len_utf8 ch = omega arith in
      let c' : u32 (c + 1) ≡ c + 1 = omega arith in
      rw (e, pop_loop)
        (rw (b', c')
          (pop_some t n b c ch _ e
            (pop_loop-Popped n (init t) (b + len_utf8 ch) (c + 1) (omega arith) (omega arith))))
]

-- Popping `n` characters leaves the text without its last `n` characters, or nothing where there are
-- fewer, and reports the bytes and the number of what went, for a text under 2 ^ 32 bytes.
pub pop_chars_lem :
    (s : ShadowBuffer) (n : ℕ)
    → byte_len s.text < u32_mod
    → ((pop_chars s n).0.text ≡ kept s.text n)
      × ((pop_chars s n).1 ≡ byte_len (cut s.text n))
      × ((pop_chars s n).2 ≡ length (cut s.text n))
unfolding pop_chars
pop_chars_lem s n h =
    let (t', b', c') =
      pop_loop-Popped n s.text 0 0 (omega arith) (omega (arith, length-le-byte_len s.text)) in
    (t', omega (arith, b'), omega (arith, c'))

pub pop_delete_span-eq :
    (s : ShadowBuffer) (n : ℕ)
    → byte_len s.text < u32_mod
    → n + s.selected_before_chars ≤ usize_max
    → let total = n + s.selected_before_chars in
      pop_delete_span s n ≡ (
        record s {
          text = kept s.text total;
          selected_before_chars = 0;
          selected_after_bytes = 0;
          selected_after_chars = 0;
        },
        byte_len (cut s.text total),
        length (cut s.text total),
        s.selected_after_bytes,
        s.selected_after_chars,
      )
unfolding pop_delete_span
pop_delete_span-eq s n h small =
    let target : saturating_add n s.selected_before_chars ≡ n + s.selected_before_chars =
      omega arith in
    let (t', b', c') =
      pop_loop-Popped (n + s.selected_before_chars) s.text 0 0 (omega arith)
        (omega (arith, length-le-byte_len s.text)) in
    let bytes = b' ∙ zero_add _ in
    let count = c' ∙ zero_add _ in rw target (rw (t', bytes, count) refl)
  where
    zero_add : (m : ℕ) → 0 + m ≡ m
    zero_add m = omega arith

-- The span for a tier-1 delete takes in the characters that are selected before the cursor, hands the
-- selection after the cursor over as it is, and forgets the selection.
-- The text has under 2 ^ 32 bytes, and the characters to pop are at most `usize::MAX`.
pub pop_delete_span_lem :
    (s : ShadowBuffer) (n : ℕ)
    → byte_len s.text < u32_mod
    → n + s.selected_before_chars ≤ usize_max
    → let (s', before_bytes, before_chars, after_bytes, after_chars) = pop_delete_span s n in
      let gone = cut s.text (n + s.selected_before_chars) in
      (s'.text ++ gone ≡ s.text)
      × (before_bytes ≡ byte_len gone)
      × (before_chars ≡ length gone)
      × (after_bytes ≡ s.selected_after_bytes)
      × (after_chars ≡ s.selected_after_chars)
      × (s'.selected_before_chars ≡ 0)
      × (s'.selected_after_bytes ≡ 0)
      × (s'.selected_after_chars ≡ 0)
unfolding pop_delete_span
pop_delete_span_lem s n h small =
    let target : saturating_add n s.selected_before_chars ≡ n + s.selected_before_chars =
      omega arith in
    let (t', b', c') = pop_chars_lem s (n + s.selected_before_chars) h in
    rw (target, t', b', c') (take-append-drop _ s.text, refl, refl, refl, refl, refl, refl, refl)
