-- ===== src/Ibus/Drain/Applied.antt =====
-- Strategy::apply of crates/edit-strategy on the buffered sink of crates/ibus-adapter.
use daklak_rs.Prelude.{
  ℕ, ◌+◌, ◌-◌, ◌≤◌, ◌<◌, ◌≡◌, refl, sym, ap, ◌∙◌, subst, true, false, ◌||◌, [], arith, ltb,
  if◌then◌else◌, Bool-cases, inl, inr, usize_max, usize, length, length-drop,
}
use daklak_rs.Text.{Text, byte_len}
use daklak_rs.Text.Slices.{length-le-byte_len}
use daklak_rs.Strategy.Types.{BackspaceMethod, surrounding_text, forward_key, DeleteUnit, chars}
use daklak_rs.Strategy.Shadow.{ShadowBuffer, pop_delete_span}
use daklak_rs.Strategy.Shadow.Pop.{pop_delete_span_lem}
use daklak_rs.Strategy.Tiers.{
  Strategy, press_backspaces, surrounding_apply, forward_key_apply, or_commit, apply_method, apply,
}
use daklak_rs.Strategy.Client.{Client, client_sink, insert, without_last, without_first}
use daklak_rs.Strategy.Client.Refinement.{Mirrors, Edits, HasNoSelection, apply-Edits}
use daklak_rs.Ibus.Sink
use daklak_rs.Ibus.Sink.{ibus_sink}
use daklak_rs.Ibus.Engine.{drain}
use daklak_rs.Ibus.Drain.{deliver, delivered_erase, delivered_delete, press_plain}

module _ (shadow : ShadowBuffer) (n serial time : ℕ) (t : Text) (unit : DeleteUnit) (c : Client)
    (plain : c.selected ≡ []) (units : c.unit ≡ chars) where
  surrounding_delivered :
      let (popped, bb, bc, ab, ac) = pop_delete_span shadow n in
      bc < 2147483648
      → deliver (drain (surrounding_apply ibus_sink shadow n t serial time Sink.new unit).1) c
        ≡ (surrounding_apply client_sink shadow n t serial time c chars).1
  unfolding surrounding_apply
  surrounding_delivered small =
      let (popped, bb, bc, ab, ac) = pop_delete_span shadow n in
      elim (Bool-cases (ltb 0 ab || ltb 0 ac)) [
        | inl selected ↦ rw selected (delivered_erase (usize (n + 1)) time t c plain)
        | inr none ↦
            let zero_after : ac ≡ 0 = ground arith in
            rw none (
              rw zero_after (
                delivered_delete bc t c small plain
                ∙ ap
                    (λ u.
                      insert
                        (record c {
                          before = without_last u bc c.before;
                          after = without_first u 0 c.after;
                        })
                        t)
                    (sym units)))
      ]

  forward_delivered :
      c.keysyms ≡ false
      → deliver (drain (forward_key_apply ibus_sink shadow n t serial time Sink.new false).1) c
        ≡ (forward_key_apply client_sink shadow n t serial time c false).1
  unfolding forward_key_apply or_commit
  forward_delivered keysyms =
      let erased = press_backspaces client_sink n time c in
      delivered_erase n time t c plain
      ∙ sym (
          ap
            (λ on.
              or_commit client_sink (if on then (insert erased t, true) else (erased, false)) t
                serial)
            ((press_plain n time c plain).1 ∙ keysyms))

  forward_shadow :
      (forward_key_apply ibus_sink shadow n t serial time Sink.new false).0
      ≡ (forward_key_apply client_sink shadow n t serial time c false).0
  unfolding forward_key_apply
  forward_shadow = refl

  surrounding_shadow :
      (surrounding_apply ibus_sink shadow n t serial time Sink.new unit).0
      ≡ (surrounding_apply client_sink shadow n t serial time c chars).0
  unfolding surrounding_apply
  surrounding_shadow =
      let (popped, bb, bc, ab, ac) = pop_delete_span shadow n in
      elim (Bool-cases (ltb 0 ab || ltb 0 ac)) [ inl e ↦ rw e refl | inr e ↦ rw e refl ]

-- An edit by `Strategy::apply` that goes to an empty IBus sink, drained to the client: it takes the last
-- `backspaces` characters before the cursor (all, if there are fewer), puts the commit in their place,
-- leaves the text after the cursor alone, and keeps the shadow equal to the client's text.
-- The shadow is the client's text before, the client has no selection, reads lengths in characters and
-- takes no keysyms; the text before the cursor has under 2 ^ 31 bytes, and the backspaces are at most
-- `usize::MAX`.
pub drain-Edits :
    (s : Strategy) (c : Client) (backspaces serial time : ℕ) (text : Text) (unit : DeleteUnit)
    → Mirrors s.shadow c
    → c.selected ≡ []
    → c.unit ≡ chars
    → c.keysyms ≡ false
    → byte_len c.before < 2147483648
    → backspaces ≤ usize_max
    → let (s', sink) = apply ibus_sink s backspaces text serial time Sink.new unit in
      Edits c backspaces text s'.shadow (deliver (drain sink) c)
unfolding apply apply_method
drain-Edits s c n serial time t unit m plain units keysyms h small =
    subst (λ (r : ShadowBuffer × Client). Edits c n t r.0 r.1)
      (λ i. (delivered_shadow s.method i, delivered s.method i))
      (subst
        (λ u. let (s', c') = apply client_sink s n t serial time c u in Edits c n t s'.shadow c')
        units
        (apply-Edits s c n serial time t m (no_selection s.method) (omega arith)
          (omega (arith, ap length plain, small))))
  where
    no_selection : (method : BackspaceMethod) → HasNoSelection method c
    no_selection surrounding_text = tt
    no_selection forward_key = plain

    few : let (popped, bb, bc, ab, ac) = pop_delete_span s.shadow n in bc < 2147483648
    few =
        let whole : byte_len s.shadow.text ≡ byte_len c.before = ap byte_len m.same_text in
        let total : n + s.shadow.selected_before_chars ≡ n = omega (arith, m.none_before) in
        let (_, _, count, _, _, _, _, _) =
          pop_delete_span_lem s.shadow n (omega (arith, whole, h)) (omega (arith, total, small)) in
        omega (
          arith,
          count,
          length-drop (length s.shadow.text - (n + s.shadow.selected_before_chars)) s.shadow.text,
          length-le-byte_len s.shadow.text,
          whole,
          h,
        )

    delivered :
        (method : BackspaceMethod)
        → (apply_method client_sink method s.shadow n t serial time c chars).1
          ≡ deliver
              (drain (apply_method ibus_sink method s.shadow n t serial time Sink.new unit).1)
              c
    delivered surrounding_text =
        sym (surrounding_delivered s.shadow n serial time t unit c plain units few)
    delivered forward_key =
        sym (forward_delivered s.shadow n serial time t unit c plain units keysyms)

    delivered_shadow :
        (method : BackspaceMethod)
        → (apply_method client_sink method s.shadow n t serial time c chars).0
          ≡ (apply_method ibus_sink method s.shadow n t serial time Sink.new unit).0
    delivered_shadow surrounding_text =
        sym (surrounding_shadow s.shadow n serial time t unit c plain units)
    delivered_shadow forward_key = sym (forward_shadow s.shadow n serial time t unit c plain units)
