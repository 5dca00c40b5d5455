-- ===== src/Daemon/Wayland/Lifecycle.antt =====
-- The lifecycle of the sessions of `Daemon`, under the callbacks of crates/daemon/src/transport/wayland.rs
-- and the session operations of handler.rs, in any order.
use daklak_rs.Prelude.{
  ℕ, ◌≡◌, refl, sym, ◌∙◌, Bool, true, false, not, ◌&&◌, ◌||◌, List, Option, none, some,
  if◌then◌else◌, Bool-cases, inl, inr, is_some,
}
use daklak_rs.Text.{Text}
use daklak_rs.Strategy.Types.{BackspaceMethod}
use daklak_rs.Engine.State.{VnkeyEngine}
use daklak_rs.Composer.State.{Composer}
use daklak_rs.Keymap.Xkb.{Xkbcommon}
use daklak_rs.Emitter.{ModifierSnapshot}
use daklak_rs.Wayland.Frame.{FrameSnapshot}
use daklak_rs.Composer.Apply.{apply_to_sink}
use daklak_rs.Wayland.State.{AdapterState, Request}
use daklak_rs.Wayland.Context.{with_sink}
use daklak_rs.Daemon.{Daemon, ConfigChange, on_composer, sync_config}
use daklak_rs.Daemon.Ibus.{
  new_session, activate_evdev, activate_ibus, deactivate_ibus, update_ibus_method,
}
use daklak_rs.Daemon.Wayland.{
  drop_synthetic, on_modifiers, switch_session, start_session, end_session, start_synthetic,
  on_focus_changed, same_app,
}
use daklak_rs.Daemon.Wayland.Handler.{
  on_key_pressed, follow_frame, read_frame, on_done_frame, send_pending, apply_pending,
}
use daklak_rs.Daemon.Wayland.Sessions.{
  IsRouted, Keeps, Keeps-IsRouted, put-Keeps, sync_config-Keeps, on_key_pressed-Keeps, is_some-map,
}

module _ {E K : Type 0} (vnkey : VnkeyEngine E) (lib : Xkbcommon K)
    (flush : List Request → Bool) where
  -- A callback of the Wayland adapter, or a session operation, with any arguments.
  pub data Step : Daemon E → Daemon E → Type 0 where
    frame :
        (d : Daemon E) (change : Option ConfigChange) (now : ℕ) (f : FrameSnapshot)
        (s : AdapterState K)
        → Step d (on_done_frame vnkey lib flush change now f d s).0
    key :
        (d : Daemon E) (change : Option ConfigChange) (now time kc : ℕ) (ch : Option ℕ)
        (s : AdapterState K)
        → Step d (on_key_pressed vnkey lib change now time kc ch d s).0.0
    edit :
        (d : Daemon E) (now time n : ℕ) (t : Text) (m : ModifierSnapshot) (held : Option ℕ)
        (s : AdapterState K)
        → Step d (apply_pending vnkey lib flush now time n t m held d s).0
    mods : (d : Daemon E) (m : ℕ) (s : AdapterState K) → Step d (on_modifiers m d s).0
    focus :
        (d : Daemon E) (now : ℕ) (app : Option Text) (x : Bool) (s : AdapterState K)
        → Step d (on_focus_changed vnkey now app x d s).0
    start_ibus :
        (d : Daemon E) (method : BackspaceMethod) (now : ℕ)
        → Step d (activate_ibus vnkey method now d)
    end_ibus : (d : Daemon E) → Step d (deactivate_ibus vnkey d)
    retier : (d : Daemon E) (method : BackspaceMethod) → Step d (update_ibus_method vnkey method d)
    start_evdev : (d : Daemon E) (now : ℕ) → Step d (activate_evdev vnkey now d)

  pub data Reach (d : Daemon E) : Daemon E → Type 0 where
    here : Reach d d
    next : {d' d'' : Daemon E} → Reach d d' → Step d' d'' → Reach d d''

module _ {E K : Type 0} (vnkey : VnkeyEngine E) (lib : Xkbcommon K)
    (flush : List Request → Bool) where
  pub follow_frame-Keeps :
      (o : Option (Composer E)) (f : FrameSnapshot) (activate deactivate : Bool) (now : ℕ)
      (d : Daemon E) (s : AdapterState K)
      → o ≡ d.router.composer
      → Keeps d (follow_frame vnkey lib flush o f activate deactivate now d s).0
  unfolding follow_frame
  follow_frame-Keeps none f activate deactivate now d s e = (refl, refl)
  follow_frame-Keeps (some w) f activate deactivate now d s e =
      put-Keeps (some w) w
        (read_frame vnkey lib flush f.surrounding_text activate deactivate now w s).0 d e refl

  send_pending-Keeps :
      (o : Option (Composer E)) (now time n : ℕ) (t : Text) (m : ModifierSnapshot) (held : Option ℕ)
      (d : Daemon E) (s : AdapterState K)
      → o ≡ d.router.composer
      → Keeps d (send_pending vnkey lib flush o now time n t m held d s).0
  unfolding send_pending
  send_pending-Keeps none now time n t m held d s e = (refl, refl)
  send_pending-Keeps (some w) now time n t m held d s e =
      put-Keeps (some w) w
        (with_sink lib flush m held w.commit_string_functional now
          (λ o w' s'. apply_to_sink vnkey o n t s.serial time s' w') w s).0
        d e refl

  pub real-IsRouted :
      (activate : Bool) (d : Daemon E) → IsRouted d → IsRouted (drop_synthetic activate d)
  unfolding drop_synthetic end_session
  real-IsRouted activate d h = elim (Bool-cases (activate && d.router.synthetic_active)) [
    | inl e ↦ rw e refl
    | inr e ↦ rw e h
  ]

  pub switch-IsRouted :
      (activate deactivate : Bool) (f : FrameSnapshot) (now : ℕ) (d : Daemon E)
      → IsRouted d
      → IsRouted (switch_session vnkey activate deactivate f now d)
  unfolding switch_session start_session end_session
  switch-IsRouted true deactivate f now d h = refl
  switch-IsRouted false true f now d h = refl
  switch-IsRouted false false f now d h = h

  either-IsRouted :
      {A : Type 0} (f : A → Daemon E) (b : Bool) (x y : A)
      → IsRouted (f x)
      → IsRouted (f y)
      → IsRouted (f (if b then x else y))
  either-IsRouted f true x y hx hy = hx
  either-IsRouted f false x y hx hy = hy

  ibus-IsRouted :
      (method : BackspaceMethod) (now : ℕ) (d : Daemon E)
      → IsRouted d
      → IsRouted (activate_ibus vnkey method now d)
  unfolding activate_ibus
  ibus-IsRouted method now d h =
      let started : Daemon E = record d {
        router = record (d.router) {
          current_active = true;
          composer = some (new_session vnkey method now d);
        };
      } in
      either-IsRouted (λ x. x) d.router.current_active d started h refl

  focus-IsRouted :
      (now : ℕ) (app : Option Text) (x : Bool) (d : Daemon E) (s : AdapterState K)
      → IsRouted d
      → IsRouted (on_focus_changed vnkey now app x d s).0
  unfolding on_focus_changed start_synthetic end_session
  focus-IsRouted now app x d s h =
      let matched = is_some app && s.profile.has_vk_keyboard in
      let r = d.router in
      let retargeted = r.synthetic_active && matched && not (same_app r.focused_app_id app) in
      let ended = end_session d in
      let off : Daemon E = record ended {
        router = record (ended.router) { synthetic_active = false };
      } in
      let second : Daemon E × AdapterState K =
        if r.synthetic_active && not matched then (off, s) else (d, s) in
      either-IsRouted (λ (z : Daemon E × AdapterState K). z.0)
        (matched && (not r.current_active || retargeted)) (start_synthetic vnkey app now d, s)
        second refl
        (either-IsRouted (λ (z : Daemon E × AdapterState K). z.0)
          (r.synthetic_active && not matched) (off, s) (d, s) refl h)

  -- Every callback and every session operation keeps a composer exactly while a session is active.
  pub Step-IsRouted : {d d' : Daemon E} → Step vnkey lib flush d d' → IsRouted d → IsRouted d'
  unfolding on_done_frame on_focus_changed start_synthetic end_session activate_ibus activate_evdev
      deactivate_ibus update_ibus_method on_modifiers apply_pending on_composer
  Step-IsRouted (frame d change now f s) h =
      let synced = sync_config vnkey change d in
      let real = drop_synthetic f.activate synced in
      let activate = f.activate && not real.router.current_active in
      let deactivate = f.deactivate && real.router.current_active in
      let switched = switch_session vnkey activate deactivate f now real in
      let (p, q) =
        follow_frame-Keeps switched.router.composer f activate deactivate now switched s refl in
      p
      ∙ switch-IsRouted activate deactivate f now real (
          real-IsRouted f.activate synced
            (Keeps-IsRouted d synced (sync_config-Keeps vnkey change d) h))
      ∙ sym q
  Step-IsRouted (key d change now time kc ch s) h =
      let (p, q) = on_key_pressed-Keeps vnkey lib change now time kc ch d s in p ∙ h ∙ sym q
  Step-IsRouted (edit d now time n t m held s) h =
      let (p, q) = send_pending-Keeps d.router.composer now time n t m held d s refl in
      p ∙ h ∙ sym q
  Step-IsRouted (mods d m s) h = is_some-map _ d.router.composer ∙ h
  Step-IsRouted (focus d now app x s) h = focus-IsRouted now app x d s h
  Step-IsRouted (start_ibus d method now) h = ibus-IsRouted method now d h
  Step-IsRouted (end_ibus d) h = refl
  Step-IsRouted (retier d method) h = is_some-map _ d.router.composer ∙ h
  Step-IsRouted (start_evdev d now) h = refl

  -- In whatever order frames, keys, edits, modifiers, focus changes and session operations come, there is
  -- a composer exactly while a session is active, if it was so at the start.
  pub Reach-IsRouted : {d d' : Daemon E} → IsRouted d → Reach vnkey lib flush d d' → IsRouted d'
  Reach-IsRouted h here = h
  Reach-IsRouted h (next r st) = Step-IsRouted st (Reach-IsRouted h r)
