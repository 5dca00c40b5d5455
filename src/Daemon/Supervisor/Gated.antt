-- ===== src/Daemon/Supervisor/Gated.antt =====
-- The passthrough of the IBus engine, and the backend that is reported, over the run of
-- crates/daemon/src/transport/supervisor.rs.
use daklak_rs.Prelude.{
  ℕ, zero, suc, ◌+◌, ◌≡◌, ◌≢◌, refl, sym, subst, Bool, true, false, not, ◌&&◌, List, [], ◌∷◌,
  Option, none, some, Bool-cases, inl, inr,
}
use daklak_rs.Daemon.Supervisor.{
  InputBackend, auto, ibus, wayland, evdev, CmdKind, toggle, enable, disable, status, quit,
  backend_status, set_backend, PendingAction, switch_to, quit_action, Supervisor, BackendConfig,
  same_backend, native_from_config, startup_from_config, handle_cmd, resolve_target, request_switch,
}
use daklak_rs.Daemon.Supervisor.Machine.{
  Event, command, ended, Phase, start, serving, slot_start, slot, closed, finished, Machine,
  open_transport, wait, serve, after_slot, end_slot, open_slot, wait_slot, serve_slot, proceed,
  step_from, step, steps, begin,
}
use daklak_rs.Daemon.Supervisor.Measure.{sup_of, at}

-- What a phase says of the flag of the engine and of the backend that is reported: the engine is passed
-- through just while the grab is on top of it, and a transport that serves is the one reported.
abbrev pub Gate : Phase → Option Bool → InputBackend → Type 0
Gate slot flag b = (flag ≡ some true) × (b ≡ evdev)
Gate slot_start flag b = flag ≡ some false
Gate (serving ibus) flag b = (flag ≡ some false) × (b ≡ ibus)
Gate (serving auto) flag b = (flag ≢ some true) × (b ≡ auto)
Gate (serving wayland) flag b = (flag ≢ some true) × (b ≡ wayland)
Gate (serving evdev) flag b = (flag ≢ some true) × (b ≡ evdev)
Gate (start _) flag b = flag ≢ some true
Gate (closed _ ok) flag b = flag ≢ some true
Gate (finished ok) flag b = flag ≢ some true

abbrev pub IsGated : Machine → Type 0
IsGated m = Gate m.phase m.sup.ibus_suspend m.sup.backend

request-keeps :
    (preflight : Bool) (o : Option InputBackend) (s : Supervisor)
    → let s' = (request_switch preflight o s).0 in
      (s'.ibus_suspend ≡ s.ibus_suspend) × (s'.backend ≡ s.backend)
unfolding request_switch
request-keeps preflight none s = (refl, refl)
request-keeps preflight (some b) s = elim (Bool-cases (same_backend s.backend b)) [
  | inl e ↦ rw e (refl, refl)
  | inr e ↦ rw e (elim (Bool-cases (same_backend b evdev && not preflight)) [
    | inl f ↦ rw f (refl, refl)
    | inr f ↦ rw f (refl, refl)
  ])
]

handle_cmd-keeps :
    (preflight : Bool) (k : CmdKind) (s : Supervisor)
    → let s' = (handle_cmd preflight k s).0 in
      (s'.ibus_suspend ≡ s.ibus_suspend) × (s'.backend ≡ s.backend)
unfolding handle_cmd
handle_cmd-keeps preflight toggle s = (refl, refl)
handle_cmd-keeps preflight enable s = (refl, refl)
handle_cmd-keeps preflight disable s = (refl, refl)
handle_cmd-keeps preflight status s = (refl, refl)
handle_cmd-keeps preflight backend_status s = (refl, refl)
handle_cmd-keeps preflight quit s = (refl, refl)
handle_cmd-keeps preflight (set_backend t) s = request-keeps preflight (resolve_target t s) s

-- A command changes nothing that a phase says.
command-IsGated :
    (p : Phase) (preflight : Bool) (k : CmdKind) (s : Supervisor)
    → Gate p s.ibus_suspend s.backend
    → let s' = (handle_cmd preflight k s).0 in Gate p s'.ibus_suspend s'.backend
command-IsGated p preflight k s g =
    let (same, reported) = handle_cmd-keeps preflight k s in
    subst (λ (x : Option Bool × InputBackend). Gate p x.0 x.1) (λ i. (sym same i, sym reported i)) g

is_off : {flag : Option Bool} → flag ≡ some false → flag ≢ some true
is_off e = λ f. cc

-- A transport that serves is not passed through.
off_of_serving :
    (b x : InputBackend) (flag : Option Bool) → Gate (serving b) flag x → flag ≢ some true
off_of_serving auto x flag g = g.0
off_of_serving ibus x flag g = is_off g.0
off_of_serving wayland x flag g = g.0
off_of_serving evdev x flag g = g.0

module _ (c : BackendConfig) (enabled : Bool) (backend : InputBackend) (n : ℕ) where
  abbrev part : Option Bool → List Event → Phase → Option PendingAction → Machine
  part flag es p o = at c enabled backend flag es n p o

  open-IsGated :
      (opens : Bool) (b : InputBackend) (flag : Option Bool) (es : List Event)
      (o : Option PendingAction)
      → flag ≢ some true
      → IsGated (open_transport opens b (part flag es (start b) o))
  unfolding open_transport
  open-IsGated opens auto flag es o g = g
  open-IsGated true wayland flag es o g = (g, refl)
  open-IsGated false wayland flag es o g = g
  open-IsGated true evdev flag es o g = (g, refl)
  open-IsGated false evdev flag es o g = g
  open-IsGated true ibus flag es o g = (refl, refl)
  open-IsGated false ibus flag es o g = is_off refl

  after-IsGated :
      (p : Phase) (es : List Event) (o : Option PendingAction)
      → IsGated (after_slot o (part (some false) es p o))
  unfolding after_slot
  after-IsGated p es none = (refl, refl)
  after-IsGated p es (some quit_action) = is_off refl
  after-IsGated p es (some (switch_to ibus)) = (refl, refl)
  after-IsGated p es (some (switch_to auto)) = is_off refl
  after-IsGated p es (some (switch_to wayland)) = is_off refl
  after-IsGated p es (some (switch_to evdev)) = is_off refl

  slot-IsGated :
      (es : List Event) (o : Option PendingAction)
      → backend ≡ evdev
      → IsGated (serve_slot o (part (some true) es slot o))
  unfolding serve_slot wait_slot end_slot
  slot-IsGated es (some p) e = after-IsGated slot es (some p)
  slot-IsGated [] none e = after-IsGated slot [] none
  slot-IsGated (ended ok ∷ es) none e = after-IsGated slot es none
  slot-IsGated (command preflight k ∷ es) none e =
      command-IsGated slot preflight k (sup_of c enabled backend (some true) es n none) (refl, e)

  proceed-IsGated :
      (b : InputBackend) (ok : Bool) (flag : Option Bool) (es : List Event)
      (o : Option PendingAction)
      → flag ≢ some true
      → IsGated (proceed o b ok (part flag es (closed b ok) o))
  unfolding proceed
  proceed-IsGated b ok flag es (some quit_action) g = g
  proceed-IsGated b ok flag es (some (switch_to next)) g = g
  proceed-IsGated b ok flag es none g =
      elim (Bool-cases
        (same_backend b evdev && not ok && not (same_backend (native_from_config c) auto))) [
          | inl e ↦ rw e g
          | inr e ↦ rw e g
        ]

  wait-IsGated :
      (b : InputBackend) (flag : Option Bool) (es : List Event)
      → Gate (serving b) flag backend
      → IsGated (wait b es (part flag es (serving b) none))
  unfolding wait
  wait-IsGated b flag [] g = off_of_serving b backend flag g
  wait-IsGated b flag (ended ok ∷ es) g = off_of_serving b backend flag g
  wait-IsGated b flag (command preflight k ∷ es) g =
      command-IsGated (serving b) preflight k (sup_of c enabled backend flag es n none) g

  serve-IsGated :
      (b : InputBackend) (flag : Option Bool) (es : List Event) (o : Option PendingAction)
      → Gate (serving b) flag backend
      → IsGated (serve b o (part flag es (serving b) o))
  unfolding serve
  serve-IsGated b flag es none g = wait-IsGated b flag es g
  serve-IsGated auto flag es (some p) g = g.0
  serve-IsGated wayland flag es (some p) g = g.0
  serve-IsGated evdev flag es (some p) g = g.0
  serve-IsGated ibus flag es (some quit_action) g = is_off g.0
  serve-IsGated ibus flag es (some (switch_to evdev)) g = g.0
  serve-IsGated ibus flag es (some (switch_to auto)) g = is_off g.0
  serve-IsGated ibus flag es (some (switch_to ibus)) g = is_off g.0
  serve-IsGated ibus flag es (some (switch_to wayland)) g = is_off g.0

begin-IsGated :
    (s : Supervisor) (events : List Event) → s.ibus_suspend ≢ some true → IsGated (begin s events)
unfolding begin
begin-IsGated s events off =
    let current = startup_from_config s.config in
    elim (Bool-cases (same_backend current auto)) [
      | inl e ↦ rw e off
      | inr e ↦
          rw e (elim (Bool-cases (s.config.enable_evdev_grab && not (same_backend current evdev))) [
            | inl f ↦ rw f off
            | inr f ↦ rw f off
          ])
    ]

module _ (opens : ℕ → Bool) where
  part-IsGated :
      (c : BackendConfig) (enabled : Bool) (backend : InputBackend) (flag : Option Bool)
      (o : Option PendingAction) (p : Phase) (es : List Event) (n : ℕ)
      → Gate p flag backend
      → IsGated (step_from opens p (at c enabled backend flag es n p o))
  unfolding step_from open_slot
  part-IsGated c enabled backend flag o (start b) es n g =
      open-IsGated c enabled backend n (opens n) b flag es o g
  part-IsGated c enabled backend flag o (serving b) es n g =
      serve-IsGated c enabled backend n b flag es o g
  part-IsGated c enabled backend flag o slot_start es n g =
      let at_false = λ (x : Option Bool).
        IsGated (open_slot (opens n) (at c enabled backend x es n slot_start o)) in
      subst at_false (sym g) (elim (Bool-cases (opens n)) [
        | inl e ↦ rw e (refl, refl)
        | inr e ↦ rw e (after-IsGated c enabled backend (n + 1) slot_start es o)
      ])
  part-IsGated c enabled backend flag o slot es n g =
      subst (λ (x : Option Bool). IsGated (serve_slot o (at c enabled backend x es n slot o)))
        (sym g.0) (slot-IsGated c enabled backend n es o g.1)
  part-IsGated c enabled backend flag o (closed b ok) es n g =
      proceed-IsGated c enabled backend n b ok flag es o g
  part-IsGated c enabled backend flag o (finished ok) es n g = g

  step-IsGated : (m : Machine) → IsGated m → IsGated (step opens m)
  unfolding step
  step-IsGated m g =
      part-IsGated m.sup.config m.sup.enabled m.sup.backend m.sup.ibus_suspend m.sup.pending_action
        m.phase m.events m.attempts g

  steps-IsGated_lem : (n : ℕ) (m : Machine) → IsGated m → IsGated (steps opens n m)
  unfolding steps
  steps-IsGated_lem zero m g = g
  steps-IsGated_lem (suc n) m g = steps-IsGated_lem n (step opens m) (step-IsGated m g)

  -- At every step of `run`, whatever commands come and whatever fails: the engine that IBus has connected
  -- is passed through exactly while the evdev grab is layered on it, and the
  -- backend that is reported is the transport that serves. It holds where no engine is passed through at
  -- the start.
  pub steps-IsGated :
      (n : ℕ) (s : Supervisor) (events : List Event)
      → s.ibus_suspend ≢ some true
      → IsGated (steps opens n (begin s events))
  steps-IsGated n s events off = steps-IsGated_lem n (begin s events) (begin-IsGated s events off)
