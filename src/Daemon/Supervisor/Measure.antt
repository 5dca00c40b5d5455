-- ===== src/Daemon/Supervisor/Measure.antt =====
-- A measure of the machine of crates/daemon/src/transport/supervisor.rs that each part of a step lowers.
use daklak_rs.Prelude.{
  ℕ, ◌+◌, ◌*◌, ◌≤◌, ◌<◌, Bool, true, false, not, List, [], ◌∷◌, Option, none, some, arith,
  Bool-cases, inl, inr, length,
}
use daklak_rs.Daemon.Supervisor.{
  InputBackend, auto, ibus, wayland, evdev, PendingAction, switch_to, quit_action, Supervisor,
  BackendConfig, same_backend, native_from_config, handle_cmd,
}
use daklak_rs.Daemon.Supervisor.Machine.{
  Event, command, ended, Phase, start, serving, slot_start, slot, closed, finished, Machine,
  open_transport, wait, serve, after_slot, end_slot, open_slot, wait_slot, serve_slot, proceed,
  begin,
}

-- What a phase is worth: more than any phase that it leads to without an event.
abbrev pub rank_idle : Phase → ℕ
rank_idle (start evdev) = 6
rank_idle (start _) = 3
rank_idle (serving evdev) = 5
rank_idle (serving _) = 2
rank_idle slot_start = 4
rank_idle slot = 3
rank_idle (closed evdev ok) = 4
rank_idle (closed _ ok) = 1
rank_idle (finished ok) = 0

abbrev pub rank_pending : Phase → ℕ
rank_pending (start _) = 9
rank_pending (serving _) = 8
rank_pending slot_start = 9
rank_pending slot = 8
rank_pending (closed _ ok) = 7
rank_pending (finished ok) = 0

abbrev pub rank : Phase → Option PendingAction → ℕ
rank p none = rank_idle p
rank p (some _) = rank_pending p

abbrev pub measure : Machine → ℕ
measure m = 10 * length m.events + rank m.phase m.sup.pending_action

rank_serving : (b : InputBackend) (o : Option PendingAction) → rank (serving b) o ≤ 8
rank_serving auto none = omega arith
rank_serving ibus none = omega arith
rank_serving wayland none = omega arith
rank_serving evdev none = omega arith
rank_serving b (some p) = omega arith

rank_slot : (o : Option PendingAction) → rank slot o ≤ 8
rank_slot none = omega arith
rank_slot (some p) = omega arith

abbrev pub is_finished : Phase → Bool
is_finished (finished ok) = true
is_finished _ = false

rank_start : (b : InputBackend) → rank (start b) none ≤ 6
rank_start auto = omega arith
rank_start ibus = omega arith
rank_start wayland = omega arith
rank_start evdev = omega arith

rank_native : (c : BackendConfig) → rank (start (native_from_config c)) none ≤ 3
unfolding native_from_config
rank_native c = elim (Bool-cases c.ibus_requested) [
  | inl e ↦ rw e (omega arith)
  | inr e ↦ rw e (elim (Bool-cases c.enable_wayland) [
    | inl f ↦ rw f (omega arith)
    | inr f ↦ rw f (omega arith)
  ])
]

module _ (c : BackendConfig) (enabled : Bool) (backend : InputBackend) (suspended : Option Bool)
    (es : List Event) (n : ℕ) where
  -- A machine by its parts.
  abbrev pub sup_of : Option PendingAction → Supervisor
  sup_of o = record {
    config = c;
    enabled = enabled;
    backend = backend;
    ibus_suspend = suspended;
    pending_action = o;
  }

  abbrev pub at : Phase → Option PendingAction → Machine
  at p o = record { sup = sup_of o; phase = p; events = es; attempts = n }

  pub open-down :
      (opens : Bool) (b : InputBackend) (o : Option PendingAction)
      → measure (open_transport opens b (at (start b) o)) < measure (at (start b) o)
  unfolding open_transport
  open-down opens auto none = omega arith
  open-down opens auto (some p) = omega arith
  open-down true wayland none = omega arith
  open-down true wayland (some p) = omega arith
  open-down false wayland none = omega arith
  open-down false wayland (some p) = omega arith
  open-down true evdev none = omega arith
  open-down true evdev (some p) = omega arith
  open-down false evdev none = omega arith
  open-down false evdev (some p) = omega arith
  open-down true ibus none = omega arith
  open-down true ibus (some p) = omega arith
  open-down false ibus none = omega arith
  open-down false ibus (some p) = omega arith

  after-down :
      (p : Phase) (o : Option PendingAction)
      → measure (after_slot o (at p o)) + 1 ≤ 10 * length es + rank slot o
  unfolding after_slot
  after-down p none = omega arith
  after-down p (some quit_action) = omega arith
  after-down p (some (switch_to auto)) = omega arith
  after-down p (some (switch_to ibus)) = omega arith
  after-down p (some (switch_to wayland)) = omega arith
  after-down p (some (switch_to evdev)) = omega arith

  pub proceed-down :
      (b : InputBackend) (ok : Bool) (o : Option PendingAction)
      → measure (proceed o b ok (at (closed b ok) o)) < measure (at (closed b ok) o)
  unfolding proceed
  proceed-down b ok (some quit_action) = omega arith
  proceed-down b ok (some (switch_to next)) = omega (arith, rank_start next)
  proceed-down auto ok none = omega arith
  proceed-down ibus ok none = omega arith
  proceed-down wayland ok none = omega arith
  proceed-down evdev true none = omega arith
  proceed-down evdev false none =
      elim (Bool-cases (not (same_backend (native_from_config c) auto))) [
        | inl e ↦ rw e (omega (arith, rank_native c))
        | inr e ↦ rw e (omega arith)
      ]

-- The flag, if there is one, is set.
abbrev flagged : Bool → Option Bool → Option Bool
flagged on none = none
flagged on (some _) = some on

module _ (c : BackendConfig) (enabled : Bool) (backend : InputBackend) (suspended : Option Bool)
    (n : ℕ) where
  end-down :
      (es : List Event) (p : Phase) (o : Option PendingAction)
      → measure (end_slot (at c enabled backend suspended es n p o)) + 1
        ≤ 10 * length es + rank slot o
  unfolding end_slot
  end-down es p o = by_flag suspended
    where
      by_flag :
          (s : Option Bool)
          → measure (end_slot (at c enabled backend s es n p o)) + 1 ≤ 10 * length es + rank slot o
      by_flag none = after-down c enabled backend none es n p o
      by_flag (some b) = after-down c enabled backend (some false) es n p o

  pub open_slot-down :
      (es : List Event) (opens : Bool) (o : Option PendingAction)
      → measure (open_slot opens (at c enabled backend suspended es n slot_start o))
        < measure (at c enabled backend suspended es n slot_start o)
  unfolding open_slot
  open_slot-down es true none = omega arith
  open_slot-down es true (some p) = omega arith
  open_slot-down es false none =
      omega (arith, after-down c enabled backend suspended es (n + 1) slot_start none)
  open_slot-down es false (some p) =
      omega (arith, after-down c enabled backend suspended es (n + 1) slot_start (some p))

  pub slot-down :
      (es : List Event) (o : Option PendingAction)
      → measure (serve_slot o (at c enabled backend suspended es n slot o))
        < measure (at c enabled backend suspended es n slot o)
  unfolding serve_slot wait_slot
  slot-down es (some p) = omega (arith, end-down es slot (some p))
  slot-down [] none = omega (arith, end-down [] slot none)
  slot-down (ended ok ∷ es) none = omega (arith, end-down es slot none)
  slot-down (command preflight k ∷ es) none = omega (
    arith,
    rank_slot
        (handle_cmd preflight k (sup_of c enabled backend suspended es n none)).0.pending_action,
  )

  pub serve-down :
      (b : InputBackend) (es : List Event) (o : Option PendingAction)
      → measure (serve b o (at c enabled backend suspended es n (serving b) o))
        < measure (at c enabled backend suspended es n (serving b) o)
  unfolding serve wait
  serve-down auto es (some p) = omega arith
  serve-down wayland es (some p) = omega arith
  serve-down evdev es (some p) = omega arith
  serve-down ibus es (some quit_action) = omega arith
  serve-down ibus es (some (switch_to auto)) = omega arith
  serve-down ibus es (some (switch_to ibus)) = omega arith
  serve-down ibus es (some (switch_to wayland)) = omega arith
  serve-down ibus es (some (switch_to evdev)) = omega arith
  serve-down auto [] none = omega arith
  serve-down wayland [] none = omega arith
  serve-down evdev [] none = omega arith
  serve-down ibus [] none = omega arith
  serve-down auto (ended ok ∷ es) none = omega arith
  serve-down wayland (ended ok ∷ es) none = omega arith
  serve-down evdev (ended ok ∷ es) none = omega arith
  serve-down ibus (ended ok ∷ es) none = omega arith
  serve-down auto (command preflight k ∷ es) none = omega (
    arith,
    rank_serving auto
        (handle_cmd preflight k (sup_of c enabled backend suspended es n none)).0.pending_action,
  )
  serve-down wayland (command preflight k ∷ es) none = omega (
    arith,
    rank_serving wayland
        (handle_cmd preflight k (sup_of c enabled backend suspended es n none)).0.pending_action,
  )
  serve-down evdev (command preflight k ∷ es) none = omega (
    arith,
    rank_serving evdev
        (handle_cmd preflight k (sup_of c enabled backend suspended es n none)).0.pending_action,
  )
  serve-down ibus (command preflight k ∷ es) none = omega (
    arith,
    rank_serving ibus
        (handle_cmd preflight k (sup_of c enabled backend suspended es n none)).0.pending_action,
  )

rank_le : (p : Phase) (o : Option PendingAction) → rank p o ≤ 9
rank_le (start b) none = omega (arith, rank_start b)
rank_le (serving b) none = omega (arith, rank_serving b none)
rank_le slot_start none = omega arith
rank_le slot none = omega arith
rank_le (closed auto ok) none = omega arith
rank_le (closed ibus ok) none = omega arith
rank_le (closed wayland ok) none = omega arith
rank_le (closed evdev ok) none = omega arith
rank_le (finished ok) none = omega arith
rank_le (start b) (some p) = omega arith
rank_le (serving b) (some p) = omega arith
rank_le slot_start (some p) = omega arith
rank_le slot (some p) = omega arith
rank_le (closed b ok) (some p) = omega arith
rank_le (finished ok) (some p) = omega arith

pub begin-measure :
    (s : Supervisor) (events : List Event) → measure (begin s events) ≤ 10 * length events + 9
unfolding begin
begin-measure s events =
    omega (arith, rank_le (begin s events).phase (begin s events).sup.pending_action)
