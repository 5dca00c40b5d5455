-- ===== src/Daemon/Supervisor/Ends.antt =====
-- `Supervisor::run` of crates/daemon/src/transport/supervisor.rs returns.
use daklak_rs.Prelude.{
  ℕ, zero, suc, ◌+◌, ◌*◌, ◌≤◌, ◌<◌, ◌≡◌, refl, ap, ◌∙◌, Bool, true, false, List, Option, arith,
  Bool-cases, inl, inr, length,
}
use daklak_rs.Daemon.Supervisor.{InputBackend, PendingAction, Supervisor, BackendConfig}
use daklak_rs.Daemon.Supervisor.Machine.{
  Event, Phase, start, serving, slot_start, slot, closed, finished, Machine, step_from, step, steps,
  begin,
}
use daklak_rs.Daemon.Supervisor.Measure.{
  measure, is_finished, at, open-down, proceed-down, open_slot-down, slot-down, serve-down,
  begin-measure,
}

module _ (opens : ℕ → Bool) where
  down :
      (c : BackendConfig) (enabled : Bool) (backend : InputBackend) (suspended : Option Bool)
      (o : Option PendingAction) (p : Phase) (es : List Event) (n : ℕ)
      → is_finished p ≡ false
      → measure (step_from opens p (at c enabled backend suspended es n p o))
        < measure (at c enabled backend suspended es n p o)
  unfolding step_from
  down c enabled backend suspended o (start b) es n running =
      open-down c enabled backend suspended es n (opens n) b o
  down c enabled backend suspended o (serving b) es n running =
      serve-down c enabled backend suspended n b es o
  down c enabled backend suspended o slot_start es n running =
      open_slot-down c enabled backend suspended n es (opens n) o
  down c enabled backend suspended o slot es n running =
      slot-down c enabled backend suspended n es o
  down c enabled backend suspended o (closed b ok) es n running =
      proceed-down c enabled backend suspended es n b ok o
  down c enabled backend suspended o (finished ok) es n running = cc

  step-down : (m : Machine) → is_finished m.phase ≡ false → measure (step opens m) < measure m
  unfolding step
  step-down m running =
      down m.sup.config m.sup.enabled m.sup.backend m.sup.ibus_suspend m.sup.pending_action m.phase
        m.events m.attempts running

  fixed : (p : Phase) (m : Machine) → is_finished p ≡ true → step_from opens p m ≡ m
  unfolding step_from
  fixed (finished ok) m e = refl
  fixed (start b) m e = cc
  fixed (serving b) m e = cc
  fixed slot_start m e = cc
  fixed slot m e = cc
  fixed (closed b ok) m e = cc

  stays :
      (n : ℕ) (m : Machine)
      → is_finished m.phase ≡ true
      → is_finished (steps opens n m).phase ≡ true
  unfolding steps step
  stays zero m e = e
  stays (suc n) m e =
      stays n (step opens m) (ap (λ (x : Machine). is_finished x.phase) (fixed m.phase m e) ∙ e)

  enough : (n : ℕ) (m : Machine) → measure m ≤ n → is_finished (steps opens n m).phase ≡ true
  unfolding steps
  enough zero m h = elim (Bool-cases (is_finished m.phase)) [
    | inl e ↦ e
    | inr e ↦ absurd (omega (arith, step-down m e))
  ]
  enough (suc n) m h = elim (Bool-cases (is_finished m.phase)) [
    | inl e ↦ stays (suc n) m e
    | inr e ↦ enough n (step opens m) (omega (arith, step-down m e))
  ]

  -- Whatever commands come, however transports end and whichever fail to open, `run` returns once the
  -- channel of the commands closes: after at most 10 steps for each event and 9 more.
  pub steps-begin :
      (s : Supervisor) (events : List Event)
      → is_finished (steps opens (10 * length events + 9) (begin s events)).phase ≡ true
  steps-begin s events = enough (10 * length events + 9) (begin s events) (begin-measure s events)
