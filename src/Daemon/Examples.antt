-- ===== src/Daemon/Examples.antt =====
-- The theorems on the handler of crates/daemon at concrete inputs, over a small engine.
use daklak_rs.Prelude.{◌≡◌, ◌≢◌, refl, true, false, some, none, inr, arith}
use daklak_rs.Text.{Text}
use daklak_rs.Strategy.Types.{forward_key, forward_raw, consumed}
use daklak_rs.Engine
use daklak_rs.Engine.Toy.{toy_engine}
use daklak_rs.Composer.State
use daklak_rs.Engine.Context.{InputMethod}
use daklak_rs.Daemon.{Daemon, ConfigChange, telex, vni, process_key}
use daklak_rs.Daemon.Routing.{process_key-ne-consumed, process_key-forward_raw}

-- A session with Telex.
abbrev session : Daemon Text
session = record {
  config = record { method = telex; modern_style = true; bracket_shortcuts = false };
  router = record {
    modifiers = 0;
    current_active = true;
    synthetic_active = false;
    composer = some (State.new toy_engine InputMethod.telex forward_key false 100000);
    focused_app_id = none;
    last_enabled = true;
  };
  enabled = true;
  suspended = false;
  last_config = record { method = telex; modern_style = true; enable_evdev_grab = false };
}

-- A switch to VNI with the old tone placement.
abbrev to_vni : ConfigChange
to_vni = record { method = vni; modern_style = false; enable_evdev_grab = true }

process_key-ne-consumed_example :
    (process_key toy_engine (some to_vni) 30 (some b'a') 100100 session).1 ≢ consumed
process_key-ne-consumed_example =
    process_key-ne-consumed toy_engine (some to_vni) 30 (some b'a') 100100 session

-- Home, with no modifier held.
process_key-forward_raw_example :
    (process_key toy_engine none 102 none 100100 session).1 ≡ forward_raw
process_key-forward_raw_example =
    process_key-forward_raw toy_engine none 102 none 100100 session
      (record { shift = false; ctrl = false; alt = false; super_key = false }) refl
      (inr (inr (inr (omega arith, omega arith))))
