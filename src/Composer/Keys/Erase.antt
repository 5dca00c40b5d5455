-- ===== src/Composer/Keys/Erase.antt =====
-- A Backspace from end to end: `feed_backspace` of crates/daemon/src/composer.rs, then what its decision
-- has done to an honest client.
use daklak_rs.Prelude.{
  ℕ, ◌≤◌, ◌<◌, ◌≡◌, refl, sym, ap, ◌∙◌, subst, true, false, ◌&&◌, [], ◌++◌, init, is_empty, u32_mod,
  usize_max, if◌then◌else◌, Bool-cases, inl, inr, pop_times, ltb, last?,
}
use daklak_rs.Text.{Text, byte_len}
use daklak_rs.Strategy.Types.{bytes, KeyDecision, forward_raw, consumed}
use daklak_rs.Strategy.Shadow.Pop.{pop_times-kept}
use daklak_rs.Strategy.Client.{Client, client_sink, backspace}
use daklak_rs.Strategy.Client.Refinement.{Mirrors}
use daklak_rs.Engine
use daklak_rs.Engine.State.{VnkeyEngine, ProcessResult}
use daklak_rs.Composer.EditModel
use daklak_rs.Composer.EditModel.{shadow_text}
use daklak_rs.Composer.Quirks.Firefox.Unit.{IsConsistent}
use daklak_rs.Composer.State.{Composer, reset_engine}
use daklak_rs.Composer.Keys.{feed_backspace, is_composed}
use daklak_rs.Composer.Keys.Press.{Leaves}
use daklak_rs.Composer.Apply.{apply_to_sink}
use daklak_rs.Composer.Apply.Edits.{apply_to_sink_inner-Edits}

-- The text that the engine's answer asks for, or one character less.
abbrev pub show_backspace : ProcessResult → Text → Text
show_backspace r t = if r.consumed then pop_times r.backspaces t ++ r.commit else init t

-- The client's own Backspace, with nothing selected.
erased-bare : (k : Client) → k.selected ≡ [] → backspace k ≡ record k { before = init k.before }
erased-bare k bare = let empty : is_empty k.selected ≡ true = ap is_empty bare in rw empty refl

popped-Leaves :
    {E : Type 0} (k : Client) (c c' : Composer E)
    → c'.edit ≡ EditModel.pop_forwarded_char c.edit
    → Mirrors c.edit.strategy.shadow k
    → k.selected ≡ []
    → Leaves (init k.before) k (c', backspace k)
unfolding EditModel.pop_forwarded_char
popped-Leaves k c c' e m bare =
    subst
      (λ x.
        (x.before ≡ init k.before)
        × (x.after ≡ k.after)
        × (x.selected ≡ [])
        × Mirrors c'.edit.strategy.shadow x)
      (sym (erased-bare k bare))
      (
        refl,
        refl,
        bare,
        subst (λ x. Mirrors x.strategy.shadow (record k { before = init k.before })) (sym e)
            (record {
              same_text = ap init m.same_text;
              none_before = m.none_before;
              after_bytes = m.after_bytes;
              after_chars = m.after_chars;
            }),
      )

module _ {E : Type 0} (vnkey : VnkeyEngine E) where
  -- What a decision does: a Backspace that is forwarded is the client's own.
  abbrev pub perform_erase : KeyDecision → ℕ → ℕ → Client → Composer E → Composer E × Client
  perform_erase forward_raw serial time k c = (c, backspace k)
  perform_erase consumed serial time k c = (c, k)
  perform_erase (KeyDecision.apply method n t) serial time k c =
      apply_to_sink vnkey client_sink n t serial time k c

  abbrev pub erase : ℕ → ℕ → ℕ → Client → Composer E → Composer E × Client
  erase now serial time k c =
      let (c', decision) = feed_backspace vnkey now c in perform_erase decision serial time k c'

  abbrev erased : ℕ → Composer E → Composer E
  erased now c = record c {
    engine = (Engine.State.process_backspace vnkey c.engine).0;
    last_keystroke_at = now;
  }

  -- A Backspace on an honest client that counts bytes and has no selection, whose text before the cursor
  -- the shadow holds, leaves the text that the engine's answer asks for where it consumed the key, and
  -- else takes the last character; the text after the cursor stays, and the shadow is again the client's.
  -- The quirk is consistent, the text before the cursor has under 2 ^ 32 bytes, and the engine asks
  -- for at most `usize::MAX` backspaces.
  pub erase-Leaves :
      (now serial time : ℕ) (k : Client) (c : Composer E)
      → IsConsistent c.firefox
      → k.unit ≡ bytes
      → Mirrors c.edit.strategy.shadow k
      → k.selected ≡ []
      → byte_len k.before < u32_mod
      → (Engine.State.process_backspace vnkey c.engine).1.backspaces ≤ usize_max
      → Leaves
          (show_backspace (Engine.State.process_backspace vnkey c.engine).1 k.before)
          k
          (erase now serial time k c)
  unfolding feed_backspace apply_to_sink reset_engine EditModel.pop_forwarded_char
  erase-Leaves now serial time k c ok unit m bare h small =
      let r = (Engine.State.process_backspace vnkey c.engine).1 in
      elim (Bool-cases r.consumed) [
        | inl e ↦
            let (b, a, sel, pending, mirrors) =
              apply_to_sink_inner-Edits vnkey r.backspaces r.commit serial time k false
                (erased now c) ok unit m bare h small in
            rw e (
              b ∙ ap (λ x. x ++ r.commit) (sym (pop_times-kept r.backspaces k.before)),
              a,
              sel,
              mirrors,
            )
        | inr e ↦
            elim (Bool-cases (ltb 0 r.backspaces && is_composed (last? (shadow_text c.edit)))) [
              | inl f ↦
                  rw (e, f)
                    (popped-Leaves k c (record c { edit = EditModel.pop_forwarded_char c.edit })
                      refl m bare)
              | inr f ↦
                  rw (e, f)
                    (popped-Leaves k c (record c { edit = EditModel.pop_forwarded_char c.edit })
                      refl m bare)
            ]
      ]
