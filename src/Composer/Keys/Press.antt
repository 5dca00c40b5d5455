-- ===== src/Composer/Keys/Press.antt =====
-- A key press from end to end: `feed_key` of crates/daemon/src/composer.rs, then what its decision has
-- done to an honest client. `press` is the specification's, with the two outcomes that a transport has.
use daklak_rs.Prelude.{
  ℕ, ◌≤◌, ◌<◌, ◌≡◌, refl, sym, ap, ◌∙◌, subst, Bool, true, false, ◌&&◌, [], ◌∷◌, ◌++◌, length,
  u32_mod, usize_max, if◌then◌else◌, Bool-cases, inl, inr, Option, none, some, pop_times,
}
use daklak_rs.Text.{Text, byte_len}
use daklak_rs.Strategy.Types.{bytes, is_surrounding, KeyDecision, forward_raw, consumed}
use daklak_rs.Strategy.Shadow.Pop.{pop_times-kept}
use daklak_rs.Strategy.Client.{Client, client_sink, insert}
use daklak_rs.Strategy.Client.Refinement.{Mirrors}
use daklak_rs.Engine.State.{VnkeyEngine, ProcessResult, show_key}
use daklak_rs.Composer.Plan.{
  plan_key_start, plan_key_finish, is_uncertain, PendingRaw, live, KeyFinishPlan, forward,
}
use daklak_rs.Composer.Quirks.Firefox
use daklak_rs.Composer.EditModel
use daklak_rs.Composer.Quirks.Firefox.Unit.{IsConsistent}
use daklak_rs.Composer.State.{Composer, get_method, reset_engine}
use daklak_rs.Composer.Keys.{
  capture, start_key, start_speculation, start_context, start_seed, engine_key, finish_key,
  feed_key,
}
use daklak_rs.Composer.Apply.{apply_to_sink}
use daklak_rs.Composer.Apply.Edits.{apply_to_sink_inner-Edits}

-- The context is uncertain: an edit has to wait for a frame.
abbrev pub has_uncertain_context : {E : Type 0} → Composer E → Bool
has_uncertain_context c =
    c.confirm_retroactive_edits && is_surrounding (get_method c) && is_uncertain c.confirmation

module _ {E : Type 0} where
  -- What a stage of a key leaves alone: the edit model, and the consistency of the quirk.
  abbrev Keeps : Composer E → Composer E → Type 0
  Keeps c c' = (c'.edit ≡ c.edit) × (IsConsistent c.firefox → IsConsistent c'.firefox)

  -- The screen that a key leaves, and the shadow that knows it.
  abbrev pub Leaves : Text → Client → Composer E × Client → Type 0
  Leaves shown k r =
      (r.1.before ≡ shown)
      × (r.1.after ≡ k.after)
      × (r.1.selected ≡ [])
      × Mirrors r.0.edit.strategy.shadow r.1

module _ {E : Type 0} (vnkey : VnkeyEngine E) where
  -- What a decision does: a key forwarded is inserted by the client, an edit goes to the sink.
  abbrev pub perform : KeyDecision → ℕ → ℕ → ℕ → Client → Composer E → Composer E × Client
  perform forward_raw ch serial time k c = (c, insert k (ch ∷ []))
  perform consumed ch serial time k c = (c, k)
  perform (KeyDecision.apply method backspaces commit) ch serial time k c =
      apply_to_sink vnkey client_sink backspaces commit serial time k c

  abbrev pub press : ℕ → ℕ → ℕ → ℕ → Client → Composer E → Composer E × Client
  press ch now serial time k c =
      let (c', decision) = feed_key vnkey ch now c in perform decision ch serial time k c'

  -- The composer after the engine's turn, and the engine's answer.
  abbrev pub answer : ℕ → ℕ → Composer E → Composer E × ProcessResult
  answer ch now c =
      engine_key vnkey ch now (start_key vnkey (plan_key_start (capture vnkey c ch)) c)

  start_speculation-Keeps : (b : Bool) (c : Composer E) → Keeps c (start_speculation vnkey b c)
  unfolding start_speculation reset_engine
  start_speculation-Keeps true c = (refl, λ h. h)
  start_speculation-Keeps false c = (refl, λ h. h)

  start_context-Keeps : (b : Bool) (c : Composer E) → Keeps c (start_context vnkey b c)
  unfolding start_context Firefox.clear
  start_context-Keeps true c = (refl, λ h. refl)
  start_context-Keeps false c = (refl, λ h. h)

  start_seed-Keeps : (w : Option Text) (c : Composer E) → Keeps c (start_seed vnkey w c)
  unfolding start_seed
  start_seed-Keeps none c = (refl, λ h. h)
  start_seed-Keeps (some w) c = (refl, λ h. h)

  pub answer-Keeps : (ch now : ℕ) (c : Composer E) → Keeps c (answer ch now c).0
  unfolding start_key engine_key
  answer-Keeps ch now c =
      let plan = plan_key_start (capture vnkey c ch) in
      let c1 = start_speculation vnkey plan.reset_speculation c in
      let c2 = start_context vnkey plan.clear_non_alpha_context c1 in
      let (e1, f1) = start_speculation-Keeps plan.reset_speculation c in
      let (e2, f2) = start_context-Keeps plan.clear_non_alpha_context c1 in
      let (e3, f3) = start_seed-Keeps plan.seed_word c2 in (e3 ∙ e2 ∙ e1, λ h. f3 (f2 (f1 h)))

  finish-forward :
      (p : Option PendingRaw) (ch serial time : ℕ) (k : Client) (c : Composer E)
      → Mirrors c.edit.strategy.shadow k
      → k.selected ≡ []
      → let (c', d) = finish_key vnkey (forward p) ch c in
        Leaves (k.before ++ ch ∷ []) k (perform d ch serial time k c')
  unfolding finish_key EditModel.push_forwarded_char
  finish-forward p ch serial time k c m bare = (
    refl,
    refl,
    refl,
    record {
      same_text = ap (λ t. t ++ ch ∷ []) m.same_text;
      none_before = m.none_before;
      after_bytes = m.after_bytes ∙ ap byte_len bare;
      after_chars = m.after_chars ∙ ap length bare;
    },
  )

  finish-apply :
      (n : ℕ) (t : Text) (ch serial time : ℕ) (k : Client) (c : Composer E)
      → IsConsistent c.firefox
      → k.unit ≡ bytes
      → Mirrors c.edit.strategy.shadow k
      → k.selected ≡ []
      → byte_len k.before < u32_mod
      → n ≤ usize_max
      → let (c', d) = finish_key vnkey (KeyFinishPlan.apply n t) ch c in
        Leaves (pop_times n k.before ++ t) k (perform d ch serial time k c')
  unfolding finish_key apply_to_sink
  finish-apply n t ch serial time k c ok unit m bare h small =
      let (b, a, sel, pending, mirrors) =
        apply_to_sink_inner-Edits vnkey n t serial time k false (record c { confirmation = live })
          ok unit m bare h small in
      (b ∙ ap (λ x. x ++ t) (sym (pop_times-kept n k.before)), a, sel, mirrors)

  -- Both ends of a key, for any engine's answer.
  finish-Leaves :
      (u prior frame : Bool) (r : ProcessResult) (w : Text) (ch serial time : ℕ) (k : Client)
      (c : Composer E)
      → IsConsistent c.firefox
      → k.unit ≡ bytes
      → Mirrors c.edit.strategy.shadow k
      → k.selected ≡ []
      → byte_len k.before < u32_mod
      → r.backspaces ≤ usize_max
      → let (c', d) = finish_key vnkey (plan_key_finish ch u prior frame r w) ch c in
        Leaves
          (if u then k.before ++ ch ∷ [] else show_key r ch k.before)
          k
          (perform d ch serial time k c')
  unfolding plan_key_finish
  finish-Leaves true prior frame r w ch serial time k c ok unit m bare h small =
      elim (Bool-cases r.consumed) [
        | inl e ↦ rw e (finish-forward _ ch serial time k c m bare)
        | inr e ↦ rw e (finish-forward _ ch serial time k c m bare)
      ]
  finish-Leaves false prior frame r w ch serial time k c ok unit m bare h small =
      elim (Bool-cases r.consumed) [
        | inl e ↦
            rw e (finish-apply r.backspaces r.commit ch serial time k c ok unit m bare h small)
        | inr e ↦ rw e (finish-forward _ ch serial time k c m bare)
      ]

  -- A key press on an honest client that counts bytes and has no selection, whose text before the
  -- cursor the shadow holds. With an uncertain context the key itself appears, and no edit goes out;
  -- else the text before the cursor is the one that the engine's answer asks for: its edit where it
  -- consumed the key, and else the key. The text after the cursor stays, and the shadow is again the
  -- client's text, so that this holds for the next key. The engine asks for at most `usize::MAX` backspaces.
  -- The quirk is consistent, and the text before the cursor has under 2 ^ 32 bytes.
  pub press-Leaves :
      (ch now serial time : ℕ) (k : Client) (c : Composer E)
      → IsConsistent c.firefox
      → k.unit ≡ bytes
      → Mirrors c.edit.strategy.shadow k
      → k.selected ≡ []
      → byte_len k.before < u32_mod
      → (answer ch now c).1.backspaces ≤ usize_max
      → Leaves
          (if has_uncertain_context c
            then k.before ++ ch ∷ []
            else show_key (answer ch now c).1 ch k.before)
          k
          (press ch now serial time k c)
  unfolding feed_key plan_key_start capture is_uncertain
  press-Leaves ch now serial time k c ok unit m bare h small =
      let (same, keeps) = answer-Keeps ch now c in
      finish-Leaves (has_uncertain_context c) _ _ (answer ch now c).1 _ ch serial time k
        (answer ch now c).0 (keeps ok) unit (subst (λ e. Mirrors e.strategy.shadow k) (sym same) m)
        bare h small
