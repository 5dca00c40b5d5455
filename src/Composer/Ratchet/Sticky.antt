-- ===== src/Composer/Ratchet/Sticky.antt =====
-- `forward_sticky` of crates/daemon/src/quirks/firefox.rs between the resets of a composer: which channel
-- `apply_to_sink_inner` of composer.rs takes.
use daklak_rs.Prelude.{ℕ, ◌≡◌, refl, ap, ◌∙◌, Bool, true, false, ◌||◌, Bool-cases, inl, inr}
use daklak_rs.Text.{Text}
use daklak_rs.Strategy.Types.{OutputSink}
use daklak_rs.Engine.State.{VnkeyEngine}
use daklak_rs.Composer.EditModel
use daklak_rs.Composer.Quirks.Firefox
use daklak_rs.Composer.State.{Composer}
use daklak_rs.Composer.Apply.{arm_forward, uses_forward_key, send_edit, apply_to_sink_inner}
use daklak_rs.Composer.Ratchet.{Latch, inner-armed}
use daklak_rs.Composer.Ratchet.Steps.{Step, Step-IsLatched}

-- Any operations but the resets.
pub data Run {E S : Type 0} (vnkey : VnkeyEngine E) (o : OutputSink S)
    : Composer E → Composer E → Type 0 where
  here : (c : Composer E) → Run vnkey o c c
  next : {c c' c'' : Composer E} → Step vnkey o c c' → Run vnkey o c' c'' → Run vnkey o c c''

abbrev sticky_latch : Latch
sticky_latch = record {
  kept = λ off sticky. sticky ≡ true;
  goes_off = λ h. h;
  comes_on = λ h. refl;
}

or_true : (a : Bool) → (a || true) ≡ true
or_true true = refl
or_true false = refl

module _ {E : Type 0} where
  -- The edit itself arms the flag.
  armed_sticky :
      (c : Composer E)
      → (c.firefox.use_forward_delete || c.firefox.forward_sticky) ≡ true
      → (arm_forward c).firefox.forward_sticky ≡ true
  unfolding arm_forward Firefox.arm_forward_sticky
  armed_sticky c h = elim (Bool-cases c.firefox.use_forward_delete) [
    | inl e ↦ rw e refl
    | inr e ↦ rw e (rw e at h)
  ]

  sticky_forwards :
      (n : ℕ) (t : Text) (c : Composer E)
      → c.firefox.forward_sticky ≡ true
      → uses_forward_key n t (arm_forward c) ≡ true
  unfolding uses_forward_key
  sticky_forwards n t c h =
      let armed = arm_forward c in
      let sticky : armed.firefox.forward_sticky ≡ true =
        armed_sticky c (rw h (or_true c.firefox.use_forward_delete)) in
      rw sticky (rw (or_true armed.firefox.use_forward_delete) refl)

module _ {E S : Type 0} (vnkey : VnkeyEngine E) (o : OutputSink S) where
  Run-sticky :
      {c c' : Composer E}
      → Run vnkey o c c'
      → c.firefox.forward_sticky ≡ true
      → c'.firefox.forward_sticky ≡ true
  Run-sticky (here c) h = h
  Run-sticky (next s r) h = Run-sticky r (Step-IsLatched sticky_latch vnkey o s h)

  sticky_sent :
      (n : ℕ) (t : Text) (serial time : ℕ) (sink : S) (preserve : Bool) (c : Composer E)
      → c.firefox.forward_sticky ≡ true
      → (apply_to_sink_inner vnkey o n t serial time sink preserve c).1
        ≡ (EditModel.apply_forward_key o (arm_forward c).edit n t serial time sink).1
  unfolding apply_to_sink_inner send_edit
  sticky_sent n t serial time sink preserve c h = rw (sticky_forwards n t c h) refl

  arm_forward-edit : (c : Composer E) → (arm_forward c).edit ≡ c.edit
  unfolding arm_forward
  arm_forward-edit c = elim (Bool-cases c.firefox.use_forward_delete) [
    | inl e ↦ rw e refl
    | inr e ↦ rw e refl
  ]

  -- Once an edit of `apply_to_sink` or a repair has been sent while the Firefox quirk asked for the
  -- ForwardKey channel, every later one goes out by that channel alone, whatever the tier, through any
  -- operations in between that are not resets of the composition: keys, frames, other edits, an idle
  -- pause, a change of the tier or of the style.
  pub Run-apply_forward_key :
      (n : ℕ) (t : Text) (serial time : ℕ) (sink : S) (preserve : Bool) (c : Composer E) (n' : ℕ)
      (t' : Text) (serial' time' : ℕ) (sink' : S) (preserve' : Bool) (c' : Composer E)
      → (c.firefox.use_forward_delete || c.firefox.forward_sticky) ≡ true
      → Run vnkey o (apply_to_sink_inner vnkey o n t serial time sink preserve c).0 c'
      → (apply_to_sink_inner vnkey o n' t' serial' time' sink' preserve' c').1
        ≡ (EditModel.apply_forward_key o c'.edit n' t' serial' time' sink').1
  Run-apply_forward_key n t serial time sink preserve c n' t' serial' time' sink' preserve' c' h
        run =
      let sticky =
        Run-sticky run
          (inner-armed sticky_latch vnkey o n t serial time sink preserve c (armed_sticky c h)) in
      sticky_sent n' t' serial' time' sink' preserve' c' sticky
      ∙ ap (λ e. (EditModel.apply_forward_key o e n' t' serial' time' sink').1)
          (arm_forward-edit c')
