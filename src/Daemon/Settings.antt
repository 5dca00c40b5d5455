-- ===== src/Daemon/Settings.antt =====
-- What `sync_config` of crates/daemon/src/handler.rs makes of a change of the settings.
use mathlib.Core.Option
use daklak_rs.Prelude.{◌≡◌, Bool, Option, none, some}
use daklak_rs.Engine
use daklak_rs.Engine.State.{VnkeyEngine}
use daklak_rs.Composer.State.{Composer}
use daklak_rs.Daemon.{Daemon, ConfigChange, MethodConfig, to_engine}

-- The engine of the live composer, if there is one, has this method, and this style.
abbrev pub HasMethod : {E : Type 0} → MethodConfig → Option (Composer E) → Type 0
HasMethod m none = Unit {0}
HasMethod m (some w) = w.engine.method ≡ to_engine m

abbrev pub HasStyle : {E : Type 0} → Bool → Option (Composer E) → Type 0
HasStyle style none = Unit {0}
HasStyle style (some w) = w.engine.modern_style ≡ style

-- The settings in use, in the configuration and in the live composer, are those of a change.
pub record InUse {E : Type 0} (change : ConfigChange) (d : Daemon E) : Type 0 where
  pub method : d.config.method ≡ change.method
  pub style : d.config.modern_style ≡ change.modern_style
  pub engine_method : HasMethod change.method d.router.composer
  pub engine_style : HasStyle change.modern_style d.router.composer

module _ {E : Type 0} (vnkey : VnkeyEngine E) where
  -- The method of a change, with the style that was in use.
  abbrev with_method : MethodConfig → ConfigChange → ConfigChange
  with_method m last = record last { method = m }
