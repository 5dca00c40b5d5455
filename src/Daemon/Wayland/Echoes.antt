-- ===== src/Daemon/Wayland/Echoes.antt =====
-- The handler of crates/daemon/src/transport/wayland.rs leaves the echoes to the adapter.
use daklak_rs.Prelude.{ℕ, refl, Bool, List, Option}
use daklak_rs.Engine.State.{VnkeyEngine}
use daklak_rs.Keymap.Xkb.{Xkbcommon}
use daklak_rs.Wayland.State.{Request}
use daklak_rs.Wayland.Echo.{IgnoresEchoes}
use daklak_rs.Daemon.{ConfigChange}
use daklak_rs.Daemon.Wayland.{on_modifiers}
use daklak_rs.Daemon.Wayland.Handler.{daemon_handler}

pub daemon_handler-IgnoresEchoes :
    {E K : Type 0} (vnkey : VnkeyEngine E) (lib : Xkbcommon K) (flush : List Request → Bool)
    (unseen : ℕ → Option ConfigChange)
    → IgnoresEchoes (daemon_handler vnkey lib flush unseen)
unfolding daemon_handler on_modifiers
daemon_handler-IgnoresEchoes vnkey lib flush unseen = record { same = λ m x q s. refl }
