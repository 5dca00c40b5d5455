-- ===== src/Composer/Apply/Edits.antt =====
-- What `apply_to_sink_inner` of crates/daemon/src/composer.rs does to an honest client, on every channel.
use daklak_rs.Prelude.{
  ℕ, ◌≤◌, ◌<◌, ◌≡◌, refl, sym, ◌∙◌, subst, Bool, true, false, not, ◌&&◌, ◌||◌, [], ◌==◌, u32_mod,
  usize_max, ap, length, ltb, Bool-cases, inl, inr, arith,
}
use daklak_rs.Text.{Text, byte_len}
use daklak_rs.Strategy.Types.{
  BackspaceMethod, surrounding_text, forward_key, DeleteUnit, bytes, chars, is_chars,
  is_surrounding, OutputSink,
}
use daklak_rs.Strategy.Tiers
use daklak_rs.Strategy.Client.{Client, client_sink}
use daklak_rs.Strategy.Client.Refinement.{
  Mirrors, Edits, apply-Edits, apply_forward_key-Edits, HasNoSelection,
}
use daklak_rs.Engine.State.{VnkeyEngine}
use daklak_rs.Composer.EditModel
use daklak_rs.Composer.EditModel.{EditModel}
use daklak_rs.Composer.Quirks.Firefox.Unit.{IsConsistent}
use daklak_rs.Composer.State.{
  Composer, refresh_retroactive_context_after_apply, reseed, seed, reset_engine,
  current_shadow_word,
}
use daklak_rs.Composer.Apply.{
  arm_forward, uses_forward_key, send_edit, expect_echo, apply_to_sink_inner,
}

module _ {E : Type 0} (vnkey : VnkeyEngine E) where
  seed-edit : (w : Text) (c : Composer E) → (seed vnkey w c).edit ≡ c.edit
  unfolding seed
  seed-edit w c = ground arith

  pub refresh-edit :
      (n : ℕ) (c : Composer E) → (refresh_retroactive_context_after_apply vnkey n c).edit ≡ c.edit
  unfolding refresh_retroactive_context_after_apply reseed reset_engine
  refresh-edit n c = elim (Bool-cases (n == 0 || not c.retroactive_context)) [
    | inl e ↦ rw e refl
    | inr e ↦ rw e (seed-edit (current_shadow_word c) (reset_engine vnkey c))
  ]

module _ {E : Type 0} where
  expect_echo-edit : (t : Text) (n : ℕ) (c : Composer E) → (expect_echo t n c).edit ≡ c.edit
  unfolding expect_echo
  expect_echo-edit t n c = elim (Bool-cases (ltb 0 n && is_surrounding c.edit.strategy.method)) [
    | inl e ↦ rw e refl
    | inr e ↦ rw e refl
  ]

  arm_forward-edit : (c : Composer E) → (arm_forward c).edit ≡ c.edit
  unfolding arm_forward
  arm_forward-edit c = elim (Bool-cases c.firefox.use_forward_delete) [
    | inl e ↦ rw e refl
    | inr e ↦ rw e refl
  ]

no_selection : (m : BackspaceMethod) (c : Client) → c.selected ≡ [] → HasNoSelection m c
no_selection surrounding_text c e = tt
no_selection forward_key c e = e

bytes_of : (u : DeleteUnit) → is_chars u ≡ false → u ≡ bytes
bytes_of bytes e = refl
bytes_of chars e = cc

module _ {E : Type 0} (c : Composer E) (k : Client) (n serial time : ℕ) (t : Text) where
  -- The two channels of a composer whose shadow mirrors a client that counts bytes.
  send_edit-Edits :
      (forward : Bool)
      → (not (is_chars c.firefox.delete_unit) || forward) ≡ true
      → k.unit ≡ bytes
      → Mirrors c.edit.strategy.shadow k
      → k.selected ≡ []
      → byte_len k.before < u32_mod
      → n ≤ usize_max
      → let (c', k') = send_edit client_sink forward n t serial time k c in
        Edits k n t c'.edit.strategy.shadow k'
  unfolding send_edit EditModel.apply EditModel.apply_forward_key
  send_edit-Edits true ok unit m none h small =
      apply_forward_key-Edits c.edit.strategy k n serial time t m none
  send_edit-Edits false ok unit m none h small =
      let same : k.unit ≡ c.firefox.delete_unit =
        unit ∙ sym (bytes_of c.firefox.delete_unit (ground arith)) in
      subst
        (λ u.
          let (s', k') = Tiers.apply client_sink c.edit.strategy n t serial time k u in
          Edits k n t s'.shadow k')
        same
        (apply-Edits c.edit.strategy k n serial time t m
          (no_selection c.edit.strategy.method k none) h (omega (arith, ap length none, small)))

or_true : (a : Bool) → (a || true) ≡ true
or_true true = refl
or_true false = refl

or_left : (a b : Bool) → (a || false) ≡ true → (a || b) ≡ true
or_left true b h = refl
or_left false b h = cc

-- Where the edit goes out by `delete_surrounding_text`, the unit is bytes.
armed_ok :
    {E : Type 0} (c : Composer E) (n : ℕ) (t : Text)
    → IsConsistent c.firefox
    → (not (is_chars (arm_forward c).firefox.delete_unit) || uses_forward_key n t (arm_forward c))
      ≡ true
unfolding arm_forward uses_forward_key
armed_ok c n t h = elim (Bool-cases c.firefox.use_forward_delete) [
  | inl e ↦ rw e (or_true (not (is_chars c.firefox.delete_unit)))
  | inr e ↦ rw e (or_left (not (is_chars c.firefox.delete_unit)) _ (rw e at h))
]

module _ {E : Type 0} (vnkey : VnkeyEngine E) where
  -- The shadow at the end of `apply_to_sink_inner` is the one that the edit left.
  inner-shadow :
      (n : ℕ) (t : Text) (serial time : ℕ) (k : Client) (preserve : Bool) (c : Composer E)
      → let armed = arm_forward c in
        let sent = send_edit client_sink (uses_forward_key n t armed) n t serial time k armed in
        let done = apply_to_sink_inner vnkey client_sink n t serial time k preserve c in
        (done.0.edit ≡ sent.0.edit) × (done.1 ≡ sent.1)
  unfolding apply_to_sink_inner
  inner-shadow n t serial time k true c = (expect_echo-edit _ n _, refl)
  inner-shadow n t serial time k false c = (expect_echo-edit _ n _ ∙ refresh-edit vnkey n _, refl)

  -- An edit that the composer sends to an honest client, on the channel that the Firefox quirk asks for
  -- or on the tier's own, whether or not the engine is kept: where the quirk is consistent, the client
  -- counts bytes, nothing is selected and the shadow is the client's text before the cursor, the last
  -- `backspaces` characters before the cursor go, the commit comes in their place, the text after the
  -- cursor is left alone, and the shadow is again the client's text.
  -- The text before the cursor has under 2 ^ 32 bytes, and the backspaces are at most `usize::MAX`.
  pub apply_to_sink_inner-Edits :
      (backspaces : ℕ) (commit : Text) (serial time : ℕ) (k : Client) (preserve : Bool)
      (c : Composer E)
      → IsConsistent c.firefox
      → k.unit ≡ bytes
      → Mirrors c.edit.strategy.shadow k
      → k.selected ≡ []
      → byte_len k.before < u32_mod
      → backspaces ≤ usize_max
      → let (c', k') =
          apply_to_sink_inner vnkey client_sink backspaces commit serial time k preserve c in
        Edits k backspaces commit c'.edit.strategy.shadow k'
  apply_to_sink_inner-Edits n t serial time k preserve c ok unit m none h small =
      let armed = arm_forward c in
      let (same_edit, same_client) = inner-shadow n t serial time k preserve c in
      let sent =
        send_edit-Edits armed k n serial time t (uses_forward_key n t armed) (armed_ok c n t ok)
          unit (subst (λ e. Mirrors e.strategy.shadow k) (sym (arm_forward-edit c)) m) none h
          small in
      subst {A = EditModel × Client} (λ r. Edits k n t r.0.strategy.shadow r.1)
        (λ i. (sym same_edit i, sym same_client i)) sent

module _ {E : Type 0} (vnkey : VnkeyEngine E) where
  send_edit-engine :
      {S : Type 0} (o : OutputSink S) (forward : Bool) (n : ℕ) (t : Text) (serial time : ℕ)
      (sink : S) (c : Composer E)
      → (send_edit o forward n t serial time sink c).0.engine ≡ c.engine
  unfolding send_edit
  send_edit-engine o true n t serial time sink c = refl
  send_edit-engine o false n t serial time sink c = refl

  expect_echo-engine : (t : Text) (n : ℕ) (c : Composer E) → (expect_echo t n c).engine ≡ c.engine
  unfolding expect_echo
  expect_echo-engine t n c = elim (Bool-cases (ltb 0 n && is_surrounding c.edit.strategy.method)) [
    | inl e ↦ rw e refl
    | inr e ↦ rw e refl
  ]

  arm_forward-engine : (c : Composer E) → (arm_forward c).engine ≡ c.engine
  unfolding arm_forward
  arm_forward-engine c = elim (Bool-cases c.firefox.use_forward_delete) [
    | inl e ↦ rw e refl
    | inr e ↦ rw e refl
  ]

  -- Where the engine is to be kept, it is.
  pub inner-engine :
      {S : Type 0} (o : OutputSink S) (n : ℕ) (t : Text) (serial time : ℕ) (sink : S)
      (c : Composer E)
      → (apply_to_sink_inner vnkey o n t serial time sink true c).0.engine ≡ c.engine
  unfolding apply_to_sink_inner
  inner-engine o n t serial time sink c =
      expect_echo-engine _ n _
      ∙ send_edit-engine o _ n t serial time sink (arm_forward c)
      ∙ arm_forward-engine c
