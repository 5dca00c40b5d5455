-- ===== src/Daemon/Supervisor.antt =====
-- crates/daemon/src/transport/supervisor.rs, with backend.rs and the commands of control.rs, in a build that
-- has IBus and evdev. Whether the check before an evdev switch passes is an argument, and so is, for each
-- attempt, whether a transport opens. The text of a reply and log lines are left out; the hooks of evdev
-- run inside the transport.
pub mod Machine
pub mod Measure
pub mod Ends
pub mod Gated
mod Examples
use daklak_rs.Prelude.{ℕ, Bool, true, false, not, ◌&&◌, ◌||◌, Option, none, some, if◌then◌else◌}

pub data InputBackend : Type 0 where
  auto ibus wayland evdev : InputBackend

pub data BackendTarget : Type 0 where
  native evdev_target toggle_target : BackendTarget

pub data CmdKind : Type 0 where
  toggle enable disable status quit backend_status : CmdKind
  set_backend : BackendTarget → CmdKind

pub data ControlReply : Type 0 where
  enabled_reply : Bool → ControlReply
  backend_reply ok_reply : InputBackend → ControlReply
  error_reply : ControlReply

pub data PendingAction : Type 0 where
  switch_to : InputBackend → PendingAction
  quit_action : PendingAction

-- The fields of `Config` that choose a backend.
pub record BackendConfig : Type 0 where
  pub ibus_requested : Bool
  pub enable_wayland : Bool
  pub enable_evdev_grab : Bool

pub record Supervisor : Type 0 where
  pub config : BackendConfig
  pub enabled : Bool
  pub backend : InputBackend
  pub ibus_suspend : Option Bool
  pub pending_action : Option PendingAction

abbrev pub same_backend : InputBackend → InputBackend → Bool
same_backend auto auto = true
same_backend ibus ibus = true
same_backend wayland wayland = true
same_backend evdev evdev = true
same_backend _ _ = false

unfoldable pub native_from_config : BackendConfig → InputBackend
native_from_config c = if c.ibus_requested then ibus else if c.enable_wayland then wayland else auto

unfoldable pub startup_from_config : BackendConfig → InputBackend
startup_from_config c =
    if c.ibus_requested
    then ibus
    else if c.enable_evdev_grab
    then evdev
    else if c.enable_wayland
    then wayland
    else auto

-- The backend that is asked for, before it is known to exist.
unfoldable pub target_backend : BackendTarget → Supervisor → InputBackend
unfolding native_from_config
target_backend native s = native_from_config s.config
target_backend evdev_target s = evdev
target_backend toggle_target s =
    if same_backend s.backend evdev then native_from_config s.config else evdev

-- None is the error.
unfoldable pub resolve_target : BackendTarget → Supervisor → Option InputBackend
unfolding target_backend
resolve_target requested s =
    let target = target_backend requested s in
    if same_backend target auto then none else some target

-- The rest of a switch, once its target is resolved.
unfoldable pub request_switch : Bool → Option InputBackend → Supervisor → Supervisor × ControlReply
request_switch preflight none s = (s, error_reply)
request_switch preflight (some target) s =
    if same_backend s.backend target
    then (s, ok_reply target)
    else if same_backend target evdev && not preflight
    then (s, error_reply)
    else (record s { pending_action = some (switch_to target) }, ok_reply target)

unfoldable pub handle_cmd : Bool → CmdKind → Supervisor → Supervisor × ControlReply
unfolding resolve_target request_switch
handle_cmd preflight toggle s =
    (record s { enabled = not s.enabled }, enabled_reply (not s.enabled))
handle_cmd preflight enable s = (record s { enabled = true }, enabled_reply true)
handle_cmd preflight disable s = (record s { enabled = false }, enabled_reply false)
handle_cmd preflight status s = (s, enabled_reply s.enabled)
handle_cmd preflight backend_status s = (s, backend_reply s.backend)
handle_cmd preflight (set_backend target) s = request_switch preflight (resolve_target target s) s
handle_cmd preflight quit s =
    (record s { pending_action = some quit_action }, enabled_reply s.enabled)
