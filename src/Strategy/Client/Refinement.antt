-- ===== src/Strategy/Client/Refinement.antt =====
-- Both tiers do to an honest client's text what the engine asked for, and the shadow follows.
use native.Mathlib.Numerals.{add-one}
use daklak_rs.Prelude.{
  ℕ, zero, suc, ◌+◌, ◌-◌, ◌≤◌, ◌<◌, ◌≡◌, refl, ap, sym, ◌∙◌, Bool, true, false, [], ◌∷◌, ◌++◌,
  arith, u32_mod, usize_max, usize, min, length, is_empty, init, subst, ltb, ◌||◌, Bool-cases, inl,
  inr, length-drop, take-append-drop, if◌then◌else◌,
}
use daklak_rs.Text.{Text, byte_len}
use daklak_rs.Text.Slices.{slices_of_append, byte_len-append, slice_from_zero}
use daklak_rs.Strategy.Types.{
  BackspaceMethod, surrounding_text, forward_key, DeleteUnit, bytes, chars,
}
use daklak_rs.Strategy.Shadow.{ShadowBuffer}
use daklak_rs.Strategy.Shadow.Pop.{
  kept, cut, kept-init, kept_zero, pop_times-kept, pop_delete_span-eq,
}
use daklak_rs.Strategy.Tiers.{
  Strategy, or_commit, apply_method, press_backspaces, surrounding_apply, forward_key_apply, apply,
  apply_forward_key, unit_length,
}
use daklak_rs.Strategy.Client.{Client, without_last, without_first, insert, client_sink}

-- The shadow is the client's text before the cursor, and knows the selection after it.
pub record Mirrors (shadow : ShadowBuffer) (c : Client) : Type 0 where
  pub same_text : shadow.text ≡ c.before
  pub none_before : shadow.selected_before_chars ≡ 0
  pub after_bytes : shadow.selected_after_bytes ≡ byte_len c.selected
  pub after_chars : shadow.selected_after_chars ≡ length c.selected

-- What an edit of `n` backspaces and the text `t` must do to the client and the shadow.
abbrev pub Edits : Client → ℕ → Text → ShadowBuffer → Client → Type 0
Edits c n t shadow' c' =
    (c'.before ≡ kept c.before n ++ t)
    × (c'.after ≡ c.after)
    × (c'.selected ≡ [])
    × (shadow'.pending_commit ≡ true)
    × Mirrors shadow' c'

pressed_plain :
    (n time : ℕ) (c : Client)
    → press_backspaces client_sink n time (record c { selected = [] })
      ≡ record c { before = kept c.before n; selected = [] }
unfolding press_backspaces
pressed_plain zero time c = rw (kept_zero c.before)
pressed_plain (suc n) time c =
    pressed_plain n time (record c { before = init c.before })
    ∙ ap (λ t. record c { before = t; selected = [] }) (kept-init c.before n)

-- The first Backspace takes the selection, the others the characters before it.
pressed_selected :
    (n time : ℕ) (c : Client)
    → is_empty c.selected ≡ false
    → press_backspaces client_sink (suc n) time c
      ≡ record c { before = kept c.before n; selected = [] }
unfolding press_backspaces
pressed_selected n time c e = rw e (pressed_plain n time c)

-- The span that the shadow pops is the end of the client's text, in either unit.
without_last-cut :
    (u : DeleteUnit) (t : Text) (n : ℕ)
    → without_last u (unit_length u (byte_len (cut t n)) (length (cut t n))) t ≡ kept t n
without_last-cut bytes t n =
    let whole = take-append-drop (length t - n) t in
    (slices_of_append t (byte_len t - byte_len (cut t n)) (kept t n) (cut t n) (sym whole)
      (omega (arith, ap byte_len whole, byte_len-append (kept t n) (cut t n)))).1
without_last-cut chars t n =
    let same : length t - length (cut t n) ≡ length t - n =
      omega (arith, length-drop (length t - n) t) in
    rw same refl

without_first_zero : (u : DeleteUnit) (t : Text) → without_first u (unit_length u 0 0) t ≡ t
without_first_zero bytes t = slice_from_zero t
without_first_zero chars t = refl

byte_len_nil : byte_len [] ≡ 0
unfolding byte_len
byte_len_nil = refl

nonempty_length : (t : Text) → is_empty t ≡ false → ltb 0 (length t) ≡ true
nonempty_length [] e = cc
nonempty_length (x ∷ t) e = ground arith

usize_small : (n : ℕ) → n ≤ usize_max → usize n ≡ n
usize_small n h = omega arith

selection_one : (t : Text) → is_empty t ≡ false → min 1 (length t) ≡ 1
selection_one [] e = cc
selection_one (x ∷ t) e = omega arith

or_true : (b : Bool) → (b || true) ≡ true
or_true true = refl
or_true false = refl

pub fresh-Mirrors :
    (shadow : ShadowBuffer) (c : Client)
    → shadow.text ≡ c.before
    → shadow.selected_before_chars ≡ 0
    → shadow.selected_after_bytes ≡ 0
    → shadow.selected_after_chars ≡ 0
    → c.selected ≡ []
    → Mirrors shadow c
fresh-Mirrors shadow c e b ab ac sel = record {
  same_text = e;
  none_before = b;
  after_bytes = ab ∙ sym (ap byte_len sel ∙ byte_len_nil);
  after_chars = ac ∙ sym (ap length sel);
}

one_channel :
    (ok : Bool) (serial : ℕ) (c : Client) (t : Text)
    → or_commit client_sink (if ok then (insert c t, true) else (c, false)) t serial ≡ insert c t
unfolding or_commit
one_channel true serial c t = refl
one_channel false serial c t = refl

either : (b : Bool) (c : Client) → (if b then c else c) ≡ c
either true c = refl
either false c = refl

empty_of : (t : Text) → is_empty t ≡ true → t ≡ []
empty_of [] e = refl
empty_of (x ∷ t) e = cc

module _ (shadow : ShadowBuffer) (c : Client) (n serial time : ℕ) (t : Text) where
  surrounding_plain :
      Mirrors shadow (record c { selected = [] })
      → byte_len c.before < u32_mod
      → n ≤ usize_max
      → let (shadow', c') =
          surrounding_apply client_sink shadow n t serial time
            (record c { selected = [] })
            c.unit in
        Edits c n t shadow' c'
  unfolding surrounding_apply
  surrounding_plain m h small =
      let total : n + shadow.selected_before_chars ≡ n = omega arith in
      let span =
        pop_delete_span-eq shadow n (omega (arith, ap byte_len m.same_text)) (omega arith) in
      rw (span, surrounding_apply)
        (rw (m.after_bytes, m.after_chars, total, m.same_text)
          (rw byte_len_nil (
            rw (without_last-cut c.unit c.before n, without_first_zero c.unit c.after)
              (refl, refl, refl, refl, fresh-Mirrors _ _ refl refl refl refl refl))))

  -- With a selection after the cursor the span is not used: one more Backspace takes the selection.
  surrounding_selected :
      Mirrors shadow c
      → is_empty c.selected ≡ false
      → byte_len c.before < u32_mod
      → n + 1 ≤ usize_max
      → let (shadow', c') = surrounding_apply client_sink shadow n t serial time c c.unit in
        Edits c n t shadow' c'
  unfolding surrounding_apply
  surrounding_selected m e h small =
      let total : n + shadow.selected_before_chars ≡ n = omega arith in
      let span =
        pop_delete_span-eq shadow n (omega (arith, ap byte_len m.same_text)) (omega arith) in
      let some_chars : ltb 0 (length c.selected) ≡ true = nonempty_length c.selected e in
      rw (span, surrounding_apply)
        (rw (m.after_bytes, m.after_chars, total, m.same_text)
          (rw (some_chars, or_true (ltb 0 (byte_len c.selected)))
            (rw (usize_small (n + 1) small, add-one n, pressed_selected n time c e)
              (refl, refl, refl, refl, fresh-Mirrors _ _ refl refl refl refl refl))))

  forward_plain :
      (prefer : Bool)
      → Mirrors shadow (record c { selected = [] })
      → let (shadow', c') =
          forward_key_apply client_sink shadow n t serial time
            (record c { selected = [] })
            prefer in
        Edits c n t shadow' c'
  unfolding forward_key_apply
  forward_plain prefer m = rw (pressed_plain n time c) (
      rw (pop_times-kept n shadow.text, m.same_text)
        (rw
          (
            one_channel c.key_channel serial (record c { before = kept c.before n; selected = [] })
                t,
            one_channel c.keysyms serial (record c { before = kept c.before n; selected = [] }) t,
            either prefer (record c { before = kept c.before n ++ t; selected = [] }),
          )
          (
            refl,
            refl,
            refl,
            refl,
            fresh-Mirrors _ _ refl m.none_before (m.after_bytes ∙ byte_len_nil) m.after_chars refl,
          )))

abbrev pub HasNoSelection : BackspaceMethod → Client → Type 0
HasNoSelection surrounding_text c = Unit {0}
HasNoSelection forward_key c = c.selected ≡ []

cleared : (c : Client) → c.selected ≡ [] → record c { selected = [] } ≡ c
cleared c e = λ i. record c { selected = sym e i }

-- An edit by `Strategy::apply`, on an honest client whose text before the cursor and selection after it
-- the shadow knows, takes the last `backspaces` characters before the cursor (all, if there are fewer)
-- and the selection, puts the commit in their place, leaves the text after the cursor alone, and keeps
-- the shadow equal to the client's text. This holds in both tiers, in the unit that the client reads
-- lengths in, whether or not it takes keysyms; on the ForwardKey tier the client has no selection.
-- The text before the cursor has under 2 ^ 32 bytes, and the backspaces, with one more where there is a
-- selection, are at most `usize::MAX`.
pub apply-Edits :
    (s : Strategy) (c : Client) (backspaces serial time : ℕ) (text : Text)
    → Mirrors s.shadow c
    → HasNoSelection s.method c
    → byte_len c.before < u32_mod
    → backspaces + min 1 (length c.selected) ≤ usize_max
    → let (s', c') = apply client_sink s backspaces text serial time c c.unit in
      Edits c backspaces text s'.shadow c'
unfolding apply
apply-Edits s c n serial time t m none h small = by_method s.method none
  where
    plain : c.selected ≡ [] → Mirrors s.shadow (record c { selected = [] })
    plain e = subst (Mirrors s.shadow) (sym (cleared c e)) m

    by_method :
        (method : BackspaceMethod)
        → HasNoSelection method c
        → let (shadow', c') = apply_method client_sink method s.shadow n t serial time c c.unit in
          Edits c n t shadow' c'
    by_method surrounding_text none = elim (Bool-cases (is_empty c.selected)) [
      | inl e ↦
          let empty = empty_of c.selected e in
          subst
            (λ x.
              let (shadow', c') = surrounding_apply client_sink s.shadow n t serial time x c.unit in
              Edits c n t shadow' c')
            (cleared c empty)
            (surrounding_plain s.shadow c n serial time t (plain empty) h (omega (arith, small)))
      | inr e ↦
          surrounding_selected s.shadow c n serial time t m e h
            (omega (arith, selection_one c.selected e, small))
    ]
    by_method forward_key none =
        subst
          (λ x.
            let (shadow', c') = forward_key_apply client_sink s.shadow n t serial time x false in
            Edits c n t shadow' c')
          (cleared c none) (forward_plain s.shadow c n serial time t false (plain none))

-- So does the edit that goes by the ForwardKey channel whatever the tier, where there is no selection.
pub apply_forward_key-Edits :
    (s : Strategy) (c : Client) (backspaces serial time : ℕ) (text : Text)
    → Mirrors s.shadow c
    → c.selected ≡ []
    → let (s', c') = apply_forward_key client_sink s backspaces text serial time c in
      Edits c backspaces text s'.shadow c'
unfolding apply_forward_key
apply_forward_key-Edits s c n serial time t m none =
    subst
      (λ x.
        let (shadow', c') = forward_key_apply client_sink s.shadow n t serial time x true in
        Edits c n t shadow' c')
      (cleared c none)
      (forward_plain s.shadow c n serial time t true
        (subst (Mirrors s.shadow) (sym (cleared c none)) m))
