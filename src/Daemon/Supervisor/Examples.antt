-- ===== src/Daemon/Supervisor/Examples.antt =====
-- The theorems on the supervisor of crates/daemon at concrete inputs.
use daklak_rs.Prelude.{
  ℕ, ◌+◌, ◌*◌, ◌≡◌, ◌≢◌, Bool, true, false, not, List, [], ◌∷◌, none, some, length, ◌==◌,
}
use daklak_rs.Daemon.Supervisor.{Supervisor, auto, set_backend, native, quit}
use daklak_rs.Daemon.Supervisor.Machine.{Event, command, ended, steps, begin}
use daklak_rs.Daemon.Supervisor.Measure.{is_finished}
use daklak_rs.Daemon.Supervisor.Ends.{steps-begin}
use daklak_rs.Daemon.Supervisor.Gated.{IsGated, steps-IsGated}

-- IBus, with the grab on top at the start.
abbrev layered : Supervisor
layered = record {
  config = record { ibus_requested = true; enable_wayland = false; enable_evdev_grab = true };
  enabled = true;
  backend = auto;
  ibus_suspend = none;
  pending_action = none;
}

-- Back to IBus, the end of the connection, and a command that comes too late.
abbrev events : List Event
events = command true (set_backend native) ∷ ended false ∷ command true quit ∷ []

-- The third attempt to open a transport fails.
abbrev opens : ℕ → Bool
opens n = not (n == 2)

steps-begin_example :
    is_finished (steps opens (10 * length events + 9) (begin layered events)).phase ≡ true
steps-begin_example = steps-begin opens layered events

no_flag : layered.ibus_suspend ≢ some true
no_flag e = cc

steps-IsGated_example : IsGated (steps opens 4 (begin layered events))
steps-IsGated_example = steps-IsGated opens 4 layered events no_flag
