-- ===== src/Daemon/Supervisor/Machine.antt =====
-- `Supervisor::run` of crates/daemon/src/transport/supervisor.rs as a machine: a step takes it to the next
-- place where it waits or decides.
use daklak_rs.Prelude.{
  ℕ, zero, suc, ◌+◌, Bool, true, false, not, ◌&&◌, List, [], ◌∷◌, Option, none, some, if◌then◌else◌,
}
use daklak_rs.Daemon.Supervisor.{
  InputBackend, auto, ibus, wayland, evdev, CmdKind, PendingAction, switch_to, quit_action,
  Supervisor, same_backend, native_from_config, startup_from_config, handle_cmd,
}

-- What happens while a transport runs: a command comes, with the state of the evdev check, or the transport
-- ends, well or not. When no event is left, the channel of the commands closes.
pub data Event : Type 0 where
  command : Bool → CmdKind → Event
  ended : Bool → Event

-- `run_single` is called; a transport serves; the grab is about to be, or is, layered on IBus; `run_single`
-- has returned; `run` has returned.
pub data Phase : Type 0 where
  start serving : InputBackend → Phase
  slot_start slot : Phase
  closed : InputBackend → Bool → Phase
  finished : Bool → Phase

pub record Machine : Type 0 where
  pub sup : Supervisor
  pub phase : Phase
  pub events : List Event
  pub attempts : ℕ

abbrev pub publish : InputBackend → Supervisor → Supervisor
publish b s = record s { backend = b }

abbrev pub set_pending : Option PendingAction → Supervisor → Supervisor
set_pending p s = record s { pending_action = p }

-- The flag of the engine that IBus has connected, if there is one.
abbrev pub suspend : Bool → Supervisor → Supervisor
suspend on s = record s { ibus_suspend = elim (s.ibus_suspend) [ none ↦ none | some _ ↦ some on ] }

abbrev pub enter : Phase → Supervisor → Machine → Machine
enter p s m = record m { phase = p; sup = s }

-- A transport is opened, or its error is the result.
unfoldable pub open_transport : Bool → InputBackend → Machine → Machine
open_transport opens auto m = enter (closed auto false) m.sup m
open_transport opens wayland m =
    let tried = record m { attempts = m.attempts + 1 } in
    if opens
    then enter (serving wayland) (publish wayland m.sup) tried
    else enter (closed wayland false) m.sup tried
open_transport opens evdev m =
    let tried = record m { attempts = m.attempts + 1 } in
    if opens
    then enter (serving evdev) (publish evdev m.sup) tried
    else enter (closed evdev false) m.sup tried
open_transport opens ibus m =
    let tried = record m { attempts = m.attempts + 1 } in
    let fresh = record (m.sup) { ibus_suspend = some false } in
    if opens
    then enter (serving ibus) (publish ibus fresh) tried
    else enter (closed ibus false) fresh tried

-- The result of a transport that ends; that of IBus is dropped.
abbrev pub result_of : InputBackend → Bool → Bool
result_of ibus ok = true
result_of _ ok = ok

-- The wait for a command or for the end of the transport.
unfoldable pub wait : InputBackend → List Event → Machine → Machine
unfolding handle_cmd
wait b [] m = enter (closed b true) m.sup m
wait b (command preflight c ∷ es) m =
    enter (serving b) (handle_cmd preflight c m.sup).0 (record m { events = es })
wait b (ended ok ∷ es) m = enter (closed b (result_of b ok)) m.sup (record m { events = es })

-- The loops of Wayland and evdev stop for any pending action; that of IBus lets the grab go on top.
unfoldable pub serve : InputBackend → Option PendingAction → Machine → Machine
unfolding wait
serve b none m = wait b m.events m
serve ibus (some (switch_to evdev)) m = enter slot_start (set_pending none m.sup) m
serve b (some p) m = enter (closed b true) m.sup m

-- The grab has ended: back to the same IBus connection, or on to something else.
unfoldable pub after_slot : Option PendingAction → Machine → Machine
after_slot none m = enter (serving ibus) (publish ibus m.sup) m
after_slot (some (switch_to ibus)) m =
    enter (serving ibus) (publish ibus (set_pending none m.sup)) m
after_slot (some p) m = enter (closed ibus true) m.sup m

unfoldable pub end_slot : Machine → Machine
unfolding after_slot
end_slot m = after_slot m.sup.pending_action (record m { sup = suspend false m.sup })

unfoldable pub open_slot : Bool → Machine → Machine
unfolding after_slot
open_slot opens m =
    let tried = record m { attempts = m.attempts + 1 } in
    if opens
    then enter slot (publish evdev (suspend true m.sup)) tried
    else after_slot m.sup.pending_action tried

unfoldable pub wait_slot : List Event → Machine → Machine
unfolding end_slot handle_cmd
wait_slot [] m = end_slot m
wait_slot (command preflight c ∷ es) m =
    enter slot (handle_cmd preflight c m.sup).0 (record m { events = es })
wait_slot (ended ok ∷ es) m = end_slot (record m { events = es })

unfoldable pub serve_slot : Option PendingAction → Machine → Machine
unfolding wait_slot end_slot
serve_slot none m = wait_slot m.events m
serve_slot (some p) m = end_slot m

-- The outer loop, on the action that is pending.
unfoldable pub proceed : Option PendingAction → InputBackend → Bool → Machine → Machine
unfolding native_from_config
proceed (some (switch_to next)) b ok m = enter (start next) (set_pending none m.sup) m
proceed (some quit_action) b ok m = enter (finished ok) (set_pending none m.sup) m
proceed none b ok m =
    let native = native_from_config m.sup.config in
    if same_backend b evdev && not ok && not (same_backend native auto)
    then enter (start native) m.sup m
    else enter (finished ok) m.sup m

module _ (opens : ℕ → Bool) where
  unfoldable pub step_from : Phase → Machine → Machine
  unfolding open_transport serve open_slot serve_slot proceed
  step_from (start b) m = open_transport (opens m.attempts) b m
  step_from (serving b) m = serve b m.sup.pending_action m
  step_from slot_start m = open_slot (opens m.attempts) m
  step_from slot m = serve_slot m.sup.pending_action m
  step_from (closed b ok) m = proceed m.sup.pending_action b ok m
  step_from (finished ok) m = m

  unfoldable pub step : Machine → Machine
  unfolding step_from
  step m = step_from m.phase m

  unfoldable pub steps : ℕ → Machine → Machine
  unfolding step
  steps zero m = m
  steps (suc n) m = steps n (step m)

-- The start of `run`.
unfoldable pub begin : Supervisor → List Event → Machine
unfolding startup_from_config
begin s events =
    let current = startup_from_config s.config in
    let layered = s.config.enable_evdev_grab && not (same_backend current evdev) in
    record {
      sup =
          if same_backend current auto
          then s
          else if layered
          then set_pending (some (switch_to evdev)) s
          else s;
      phase = if same_backend current auto then finished false else start current;
      events = events;
      attempts = 0;
    }
