-- ===== src/Daemon.antt =====
-- `Daemon` of crates/daemon/src/handler.rs, with the parts of config.rs and control.rs that it reads: the
-- routing of keys to the composer, and the IBus session. What the control channel holds unseen is an
-- argument, and so is the clock. Log lines are left out.
pub mod Ibus
pub mod Evdev
pub mod Supervisor
pub mod Hooks
pub mod Routing
pub mod Settings
pub mod Wayland
mod Examples
use Prim.Native.Nat.{bit_and, bit_or}
use mathlib.Core.Option
use daklak_rs.Prelude.{
  ℕ, Bool, true, false, not, ◌&&◌, ◌||◌, List, [], ◌∷◌, Option, none, some, ltb, ◌==◌,
  if◌then◌else◌,
}
use daklak_rs.Text.{Text}
use daklak_rs.Strategy.Types.{
  BackspaceMethod, surrounding_text, forward_key, KeyDecision, forward_raw, OutputSink,
  is_surrounding,
}
use daklak_rs.Engine.Context.{InputMethod}
use daklak_rs.Engine.State.{VnkeyEngine}
use daklak_rs.Composer.State
use daklak_rs.Composer.State.{Composer, get_method}
use daklak_rs.Composer.Keys
use daklak_rs.Composer.Apply
use daklak_rs.Composer.Frames

pub data MethodConfig : Type 0 where
  telex vni viqr : MethodConfig

unfoldable pub to_engine : MethodConfig → InputMethod
to_engine telex = InputMethod.telex
to_engine vni = InputMethod.vni
to_engine viqr = InputMethod.viqr

-- The derived `==`.
abbrev pub same_method : MethodConfig → MethodConfig → Bool
same_method telex telex = true
same_method vni vni = true
same_method viqr viqr = true
same_method _ _ = false

abbrev pub same_flag : Bool → Bool → Bool
same_flag true b = b
same_flag false b = not b

pub record ConfigChange : Type 0 where
  pub method : MethodConfig
  pub modern_style : Bool
  pub enable_evdev_grab : Bool

unfoldable pub no_change_from : ConfigChange → ConfigChange → Bool
no_change_from change other =
    same_method change.method other.method && same_flag change.modern_style other.modern_style

-- The settings that the handler reads.
pub record Config : Type 0 where
  pub method : MethodConfig
  pub modern_style : Bool
  pub bracket_shortcuts : Bool

pub record Router (E : Type 0) : Type 0 where
  pub modifiers : ℕ
  pub current_active : Bool
  pub synthetic_active : Bool
  pub composer : Option (Composer E)
  pub focused_app_id : Option Text
  pub last_enabled : Bool

pub record Daemon (E : Type 0) : Type 0 where
  pub config : Config
  pub router : Router E
  pub enabled : Bool
  pub suspended : Bool
  pub last_config : ConfigChange

abbrev pub key_backspace : ℕ
key_backspace = 14

abbrev pub key_esc : ℕ
key_esc = 1

-- `NAV_KEYS.contains(&key)`.
unfoldable pub is_nav_key : ℕ → Bool
is_nav_key key =
    key == 105
    || key == 106
    || key == 103
    || key == 108
    || key == 102
    || key == 107
    || key == 104
    || key == 109

-- `modifiers.intersects(CTRL | ALT | SUPER)`.
unfoldable pub has_shortcut_mods : ℕ → Bool
has_shortcut_mods modifiers = ltb 0 (bit_and modifiers (bit_or (bit_or 0x04 0x08) 0x40))

module _ {E : Type 0} where
  abbrev pub with_composer : Option (Composer E) → Daemon E → Daemon E
  with_composer composer d = record d { router = record (d.router) { composer = composer } }

  -- `if let Some(w) = self.router.composer.as_mut()`.
  unfoldable pub on_composer : (Composer E → Composer E) → Daemon E → Daemon E
  on_composer f d = with_composer (Option.map f d.router.composer) d

  -- A key for the composer, if there is one, and its decision.
  unfoldable pub ask_composer :
      (Composer E → Composer E × KeyDecision)
      → Option (Composer E)
      → Daemon E
      → Daemon E × KeyDecision
  ask_composer f none d = (d, forward_raw)
  ask_composer f (some w) d = let (w', decision) = f w in (with_composer (some w') d, decision)

module _ {E : Type 0} (vnkey : VnkeyEngine E) where
  unfoldable pub sync_enabled_edge : Daemon E → Daemon E × Bool
  unfolding on_composer State.full_reset
  sync_enabled_edge d =
      let d' =
        if d.router.last_enabled && not d.enabled
        then on_composer (State.full_reset vnkey) d
        else d in
      (record d' { router = record (d'.router) { last_enabled = d.enabled } }, d.enabled)

  unfoldable pub sync_method : ConfigChange → Daemon E → Daemon E
  unfolding on_composer State.set_input_method to_engine
  sync_method change d =
      if same_method change.method d.last_config.method
      then d
      else on_composer (State.set_input_method vnkey (to_engine change.method))
          (record d { config = record (d.config) { method = change.method } })

  unfoldable pub sync_style : ConfigChange → Daemon E → Daemon E
  unfolding on_composer State.set_modern_style
  sync_style change d =
      if same_flag change.modern_style d.last_config.modern_style
      then d
      else on_composer (State.set_modern_style vnkey change.modern_style)
          (record d { config = record (d.config) { modern_style = change.modern_style } })

  -- `none` is a channel with no change unseen.
  unfoldable pub sync_config : Option ConfigChange → Daemon E → Daemon E
  unfolding no_change_from sync_method sync_style
  sync_config none d = d
  sync_config (some change) d =
      if no_change_from change d.last_config
      then d
      else record (sync_style change (sync_method change d)) { last_config = change }

  unfoldable pub handle_char : ℕ → ℕ → Daemon E → Daemon E × KeyDecision
  unfolding ask_composer Keys.feed_key
  handle_char ch now d = ask_composer (Keys.feed_key vnkey ch now) d.router.composer d

  unfoldable pub handle_backspace : ℕ → Daemon E → Daemon E × KeyDecision
  unfolding ask_composer Keys.feed_backspace
  handle_backspace now d = ask_composer (Keys.feed_backspace vnkey now) d.router.composer d

  -- `full_reset` and `defer_action`.
  unfoldable pub abandon : ℕ → Composer E → Composer E
  unfolding State.full_reset State.defer_action
  abandon now w = State.defer_action now (State.full_reset vnkey w)

  -- A key for a live composer: its character, if it has one.
  unfoldable pub route_char : Option ℕ → ℕ → Daemon E → Daemon E × KeyDecision
  unfolding abandon on_composer handle_char
  route_char none now d = (on_composer (abandon now) d, forward_raw)
  route_char (some ch) now d = handle_char ch now d

  unfoldable pub route_key : ℕ → Option ℕ → ℕ → Daemon E → Daemon E × KeyDecision
  unfolding handle_backspace route_char on_composer State.defer_action State.mark_action
  route_key key ch now d =
      let typed = route_char ch now (on_composer (State.mark_action now) d) in
      if key == key_backspace
      then handle_backspace now d
      else if key == key_esc
      then (on_composer (State.defer_action now) d, forward_raw)
      else typed

  -- Past the settings and the idle check.
  unfoldable pub guard_key : Bool → ℕ → Option ℕ → ℕ → Daemon E → Daemon E × KeyDecision
  unfolding on_composer abandon has_shortcut_mods is_nav_key route_key State.full_reset
  guard_key enabled key ch now d =
      if not enabled
      then (d, forward_raw)
      else if d.suspended
      then (on_composer (State.full_reset vnkey) d, forward_raw)
      else if has_shortcut_mods d.router.modifiers || is_nav_key key
      then (on_composer (abandon now) d, forward_raw)
      else route_key key ch now d

  -- The changes that `handle_char` and `handle_backspace` look for again were taken at the start.
  unfoldable pub process_key :
      Option ConfigChange → ℕ → Option ℕ → ℕ → Daemon E → Daemon E × KeyDecision
  process_key change key ch now d =
      let checked =
        on_composer (λ w. (State.check_idle_reset vnkey now w).0) (sync_config change d) in
      let (d', enabled) = sync_enabled_edge checked in guard_key enabled key ch now d'
