-- ===== src/Daemon/Wayland/Activation.antt =====
-- What `on_done_frame` of crates/daemon/src/transport/wayland.rs makes of the session.
use daklak_rs.Prelude.{
  ℕ, ◌≡◌, refl, sym, ap, ◌∙◌, Bool, true, false, not, ◌&&◌, ◌||◌, List, Option, none, some,
  if◌then◌else◌, Bool-cases, inl, inr, is_some,
}
use daklak_rs.Engine.State.{VnkeyEngine}
use daklak_rs.Keymap.Xkb.{Xkbcommon}
use daklak_rs.Wayland.Frame.{FrameSnapshot}
use daklak_rs.Wayland.State.{AdapterState, Request}
use daklak_rs.Daemon.{
  Daemon, ConfigChange, on_composer, sync_config, sync_method, sync_style, no_change_from,
}
use daklak_rs.Daemon.Wayland.{drop_synthetic, switch_session, start_session, end_session}
use daklak_rs.Daemon.Wayland.Handler.{on_done_frame}
use daklak_rs.Daemon.Wayland.Sessions.{IsRouted, Keeps-IsRouted, sync_config-Keeps}
use daklak_rs.Daemon.Wayland.Lifecycle.{follow_frame-Keeps, switch-IsRouted, real-IsRouted}

-- Whether a session is active after a frame: one that was active stays unless the frame deactivates, and
-- a frame that activates starts one where there is none but a synthetic one.
abbrev pub session_after : Bool → Bool → Bool → Bool → Bool
session_after activate deactivate active synthetic =
    let real = active && not (activate && synthetic) in
    (activate && not real) || (real && not deactivate)

-- The flags of the session.
abbrev flags : {E : Type 0} → Daemon E → Bool × Bool
flags d = (d.router.current_active, d.router.synthetic_active)

same-either :
    {E A : Type 0} (f : Daemon E → A) (b : Bool) (d x : Daemon E)
    → f x ≡ f d
    → f (if b then d else x) ≡ f d
same-either f true d x e = refl
same-either f false d x e = e

and_false : (b : Bool) → (b && false) ≡ false
and_false true = refl
and_false false = refl

and_true : (b : Bool) → (b && true) ≡ b
and_true true = refl
and_true false = refl

choose :
    (a e r : Bool)
    → (if a && not r then true else if e && r then false else r) ≡ ((a && not r) || (r && not e))
choose true true true = refl
choose true true false = refl
choose true false true = refl
choose true false false = refl
choose false true true = refl
choose false true false = refl
choose false false true = refl
choose false false false = refl

module _ {E : Type 0} (vnkey : VnkeyEngine E) where
  sync_config-flags :
      (change : Option ConfigChange) (d : Daemon E) → flags (sync_config vnkey change d) ≡ flags d
  unfolding sync_config sync_method sync_style on_composer
  sync_config-flags none d = refl
  sync_config-flags (some change) d =
      let d' = sync_method vnkey change d in
      same-either flags (no_change_from change d.last_config) d _
        (same-either flags _ d' _ refl ∙ same-either flags _ d _ refl)

  real_active :
      (activate : Bool) (d : Daemon E)
      → (drop_synthetic activate d).router.current_active
        ≡ (d.router.current_active && not (activate && d.router.synthetic_active))
  unfolding drop_synthetic end_session
  real_active activate d = elim (Bool-cases (activate && d.router.synthetic_active)) [
    | inl e ↦ rw e (sym (and_false d.router.current_active))
    | inr e ↦ rw e (sym (and_true d.router.current_active))
  ]

  switched_active :
      (activate deactivate : Bool) (f : FrameSnapshot) (now : ℕ) (d : Daemon E)
      → (switch_session vnkey activate deactivate f now d).router.current_active
        ≡ (if activate then true else if deactivate then false else d.router.current_active)
  unfolding switch_session start_session end_session
  switched_active true deactivate f now d = refl
  switched_active false true f now d = refl
  switched_active false false f now d = refl

module _ {E K : Type 0} (vnkey : VnkeyEngine E) (lib : Xkbcommon K)
    (flush : List Request → Bool) where
  -- After a frame, where there was a composer exactly while a session was active, a session is active
  -- and has a composer exactly if the frame activates and only a synthetic session or none was active, or
  -- if the frame does not deactivate and a session was active, a real one or, where the frame does not
  -- activate either, a synthetic one. A frame that both activates and deactivates ends a real session and
  -- starts none.
  pub on_done_frame-session_after :
      (change : Option ConfigChange) (now : ℕ) (f : FrameSnapshot) (d : Daemon E)
      (s : AdapterState K)
      → IsRouted d
      → let d' = (on_done_frame vnkey lib flush change now f d s).0 in
        let active =
          session_after f.activate f.deactivate d.router.current_active d.router.synthetic_active in
        (d'.router.current_active ≡ active) × (is_some d'.router.composer ≡ active)
  unfolding on_done_frame
  on_done_frame-session_after change now f d s h =
      let synced = sync_config vnkey change d in
      let real = drop_synthetic f.activate synced in
      let activate = f.activate && not real.router.current_active in
      let deactivate = f.deactivate && real.router.current_active in
      let switched = switch_session vnkey activate deactivate f now real in
      let (p, q) =
        follow_frame-Keeps vnkey lib flush switched.router.composer f activate deactivate now
          switched s refl in
      let routed = switch-IsRouted vnkey lib flush activate deactivate f now real (
        real-IsRouted vnkey lib flush f.activate synced
          (Keeps-IsRouted d synced (sync_config-Keeps vnkey change d) h)) in
      let same = sync_config-flags vnkey change d in
      let was : real.router.current_active
          ≡ (d.router.current_active && not (f.activate && d.router.synthetic_active)) =
        real_active vnkey f.activate synced
        ∙ ap (λ (x : Bool × Bool). x.0 && not (f.activate && x.1)) same in
      let active =
        switched_active vnkey activate deactivate f now real
        ∙ choose f.activate f.deactivate real.router.current_active
        ∙ ap (λ r. (f.activate && not r) || (r && not f.deactivate)) was in
      (q ∙ active, p ∙ routed ∙ active)
