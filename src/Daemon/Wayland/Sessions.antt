-- ===== src/Daemon/Wayland/Sessions.antt =====
-- The sessions of `Daemon` under the callbacks of crates/daemon/src/transport/wayland.rs and the session
-- operations of handler.rs.
use mathlib.Core.Option
use daklak_rs.Prelude.{
  ℕ, ◌≡◌, refl, sym, ap, ◌∙◌, Bool, true, false, not, ◌&&◌, Option, none, some, ◌==◌, if◌then◌else◌,
  is_some,
}
use daklak_rs.Strategy.Types.{KeyDecision}
use daklak_rs.Engine.State.{VnkeyEngine}
use daklak_rs.Composer.Keys.{unrecord_forwarded_char}
use daklak_rs.Composer.State.{Composer, check_idle_reset, mark_action}
use daklak_rs.Keymap.Xkb.{Xkbcommon}
use daklak_rs.Wayland.State.{AdapterState}
use daklak_rs.Daemon.{
  Daemon, ConfigChange, on_composer, ask_composer, with_composer, handle_char, handle_backspace,
  sync_config, sync_method, sync_style, sync_enabled_edge, no_change_from,
}
use daklak_rs.Daemon.Wayland.Handler.{
  leave_word, commit_shifted, type_char, compose_key, guard_press, on_key_pressed,
}

-- A session is active exactly if there is a composer.
abbrev pub IsRouted : {E : Type 0} → Daemon E → Type 0
IsRouted d = is_some d.router.composer ≡ d.router.current_active

-- The session goes on.
abbrev pub Keeps : {E : Type 0} → Daemon E → Daemon E → Type 0
Keeps d d' =
    (is_some d'.router.composer ≡ is_some d.router.composer)
    × (d'.router.current_active ≡ d.router.current_active)

Keeps-trans : {E : Type 0} (a b c : Daemon E) → Keeps a b → Keeps b c → Keeps a c
Keeps-trans a b c (p, q) (p', q') = (p' ∙ p, q' ∙ q)

Keeps-either :
    {E A : Type 0} (d : Daemon E) (f : A → Daemon E) (b : Bool) (x y : A)
    → Keeps d (f x)
    → Keeps d (f y)
    → Keeps d (f (if b then x else y))
Keeps-either d f true x y hx hy = hx
Keeps-either d f false x y hx hy = hy

pub Keeps-IsRouted : {E : Type 0} (d d' : Daemon E) → Keeps d d' → IsRouted d → IsRouted d'
Keeps-IsRouted d d' (p, q) h = p ∙ h ∙ sym q

pub is_some-map : {A B : Type 0} (f : A → B) (o : Option A) → is_some (Option.map f o) ≡ is_some o
is_some-map f none = refl
is_some-map f (some a) = refl

module _ {E : Type 0} where
  pub on_composer-Keeps : (f : Composer E → Composer E) (d : Daemon E) → Keeps d (on_composer f d)
  unfolding on_composer
  on_composer-Keeps f d = (is_some-map f d.router.composer, refl)

  pub put-Keeps :
      (o : Option (Composer E)) (w w' : Composer E) (d : Daemon E)
      → o ≡ d.router.composer
      → o ≡ some w
      → Keeps d (with_composer (some w') d)
  put-Keeps o w w' d e f = (sym (ap is_some f) ∙ ap is_some e, refl)

  ask-Keeps :
      (f : Composer E → Composer E × KeyDecision) (o : Option (Composer E)) (d : Daemon E)
      → o ≡ d.router.composer
      → Keeps d (ask_composer f o d).0
  unfolding ask_composer
  ask-Keeps f none d e = (refl, refl)
  ask-Keeps f (some w) d e = (ap is_some e, refl)

module _ {E : Type 0} (vnkey : VnkeyEngine E) where
  sync_method-Keeps : (change : ConfigChange) (d : Daemon E) → Keeps d (sync_method vnkey change d)
  unfolding sync_method on_composer
  sync_method-Keeps change d =
      Keeps-either d (λ x. x) _ d _ (refl, refl) (is_some-map _ d.router.composer, refl)

  sync_style-Keeps : (change : ConfigChange) (d : Daemon E) → Keeps d (sync_style vnkey change d)
  unfolding sync_style on_composer
  sync_style-Keeps change d =
      Keeps-either d (λ x. x) _ d _ (refl, refl) (is_some-map _ d.router.composer, refl)

  pub sync_config-Keeps :
      (change : Option ConfigChange) (d : Daemon E) → Keeps d (sync_config vnkey change d)
  unfolding sync_config
  sync_config-Keeps none d = (refl, refl)
  sync_config-Keeps (some change) d =
      let d' = sync_method vnkey change d in
      Keeps-either d (λ x. x) (no_change_from change d.last_config) d _ (refl, refl)
        (Keeps-trans d d' (sync_style vnkey change d') (sync_method-Keeps change d)
          (sync_style-Keeps change d'))

  edge-Keeps : (d : Daemon E) → Keeps d (sync_enabled_edge vnkey d).0
  unfolding sync_enabled_edge
  edge-Keeps d =
      Keeps-either d (λ x. x) (d.router.last_enabled && not d.enabled) _ d (on_composer-Keeps _ d)
        (refl, refl)

  handle_char-Keeps : (ch now : ℕ) (d : Daemon E) → Keeps d (handle_char vnkey ch now d).0
  unfolding handle_char
  handle_char-Keeps ch now d = ask-Keeps _ d.router.composer d refl

module _ {E K : Type 0} (vnkey : VnkeyEngine E) (lib : Xkbcommon K) where
  commit_shifted-Keeps :
      (key ch : ℕ) (s : AdapterState K) (d0 : Daemon E) (r : Daemon E × KeyDecision)
      → Keeps d0 r.0
      → Keeps d0 (commit_shifted vnkey lib key ch s r).0
  unfolding commit_shifted
  commit_shifted-Keeps key ch s d0 (d, decision) h =
      Keeps-either d0 (λ (x : Daemon E × KeyDecision). x.0) _ _ (d, decision)
        (Keeps-trans d0 d (on_composer (unrecord_forwarded_char vnkey) d) h (on_composer-Keeps _ d))
        h

  type_char-Keeps :
      (key : ℕ) (ch : Option ℕ) (now : ℕ) (s : AdapterState K) (d : Daemon E)
      → Keeps d (type_char vnkey lib key ch now s d).0
  unfolding type_char
  type_char-Keeps key none now s d = (refl, refl)
  type_char-Keeps key (some ch) now s d =
      commit_shifted-Keeps key ch s d _ (handle_char-Keeps vnkey ch now d)

  compose_key-Keeps :
      (o : Option (Composer E)) (key : ℕ) (ch : Option ℕ) (now : ℕ) (s : AdapterState K)
      (d : Daemon E)
      → Keeps d (compose_key vnkey lib o key ch now s d).0
  unfolding compose_key handle_backspace
  compose_key-Keeps none key ch now s d = (refl, refl)
  compose_key-Keeps (some w) key ch now s d =
      Keeps-either d (λ (x : Daemon E × KeyDecision). x.0) (key == 14) _ _
        (ask-Keeps _ d.router.composer d refl)
        (let marked = on_composer (mark_action now) d in
          Keeps-trans d marked (type_char vnkey lib key ch now s marked).0 (on_composer-Keeps _ d)
            (type_char-Keeps key ch now s marked))

  guard_press-Keeps :
      (enabled repeat : Bool) (time key : ℕ) (ch : Option ℕ) (now : ℕ) (s : AdapterState K)
      (d : Daemon E)
      → Keeps d (guard_press vnkey lib enabled repeat time key ch now s d).0.0
  unfolding guard_press leave_word
  guard_press-Keeps enabled repeat time key ch now s d =
      Keeps-either d (λ (x : (Daemon E × AdapterState K) × KeyDecision). x.0.0) (not enabled) _ _
        (refl, refl)
        (Keeps-either d (λ (x : (Daemon E × AdapterState K) × KeyDecision). x.0.0) d.suspended _ _
          (on_composer-Keeps _ d)
          (Keeps-either d (λ (x : (Daemon E × AdapterState K) × KeyDecision). x.0.0) _ _ _
            (Keeps-either d (λ x. x) repeat d _ (refl, refl) (on_composer-Keeps _ d))
            (compose_key-Keeps d.router.composer key ch now s d)))

  pub on_key_pressed-Keeps :
      (change : Option ConfigChange) (now time key : ℕ) (ch : Option ℕ) (d : Daemon E)
      (s : AdapterState K)
      → Keeps d (on_key_pressed vnkey lib change now time key ch d s).0.0
  unfolding on_key_pressed
  on_key_pressed-Keeps change now time key ch d s =
      let synced = sync_config vnkey change d in
      let h = sync_config-Keeps vnkey change d in
      let idle = on_composer (λ w. (check_idle_reset vnkey now w).0) synced in
      let edged = (sync_enabled_edge vnkey idle).0 in
      let start = if s.forwarding_repeat then synced else edged in
      let started : Keeps d start =
        Keeps-either d (λ x. x) s.forwarding_repeat synced edged h
          (Keeps-trans d synced edged h
            (Keeps-trans synced idle edged (on_composer-Keeps _ synced) (edge-Keeps vnkey idle))) in
      Keeps-trans d start
        (guard_press vnkey lib synced.enabled s.forwarding_repeat time key ch now s start).0.0
        started (guard_press-Keeps synced.enabled s.forwarding_repeat time key ch now s start)
