-- ===== src/Daemon/Routing.antt =====
-- What `process_key` of crates/daemon/src/handler.rs may answer.
use daklak_rs.Prelude.{
  ℕ, ◌≡◌, ◌≢◌, ◌⊎◌, ◌+◌, ◌≤◌, refl, sym, ap, ◌∙◌, Bool, true, false, not, ◌&&◌, ◌||◌, Option, none,
  some, ◌==◌, if◌then◌else◌, Bool-cases, inl, inr, arith,
}
use daklak_rs.Strategy.Types.{KeyDecision, forward_raw, consumed}
use daklak_rs.Engine
use daklak_rs.Engine.State.{VnkeyEngine}
use daklak_rs.Composer.Plan.{KeyFinishPlan, forward}
use daklak_rs.Composer.State.{Composer, check_idle_reset}
use daklak_rs.Composer.Keys.{finish_key, feed_key, feed_backspace}
use daklak_rs.Daemon.{
  Daemon, ConfigChange, on_composer, ask_composer, handle_char, handle_backspace, route_char,
  route_key, guard_key, process_key, sync_config, sync_method, sync_style, sync_enabled_edge,
  has_shortcut_mods, is_nav_key, no_change_from,
}

abbrev is_consumed : KeyDecision → Bool
is_consumed consumed = true
is_consumed _ = false

either-consumed :
    {A : Type 0} (b : Bool) (x y : A × KeyDecision)
    → is_consumed x.1 ≡ false
    → is_consumed y.1 ≡ false
    → is_consumed (if b then x else y).1 ≡ false
either-consumed true x y hx hy = hx
either-consumed false x y hx hy = hy

-- What the guards of a key read.
abbrev Same : {E : Type 0} → Daemon E → Daemon E → Type 0
Same d d' =
    (d'.enabled ≡ d.enabled)
    × (d'.suspended ≡ d.suspended)
    × (d'.router.modifiers ≡ d.router.modifiers)

either-Same :
    {E : Type 0} (d : Daemon E) (b : Bool) (x y : Daemon E)
    → Same d x
    → Same d y
    → Same d (if b then x else y)
either-Same d true x y hx hy = hx
either-Same d false x y hx hy = hy

either-forwards :
    {A : Type 0} (a b : Bool) (x y : A × KeyDecision)
    → (a || b) ≡ true
    → x.1 ≡ forward_raw
    → (b ≡ true → y.1 ≡ forward_raw)
    → (if a then x else y).1 ≡ forward_raw
either-forwards true b x y h hx hy = hx
either-forwards false b x y h hx hy = hy h

-- The guards of a key, as `guard_key` has them.
abbrev goes_by : Bool → Bool → ℕ → ℕ → Bool
goes_by enabled suspended modifiers key =
    not enabled || (suspended || (has_shortcut_mods modifiers || is_nav_key key))

-- A `ModifierState`: its flags, and the number that holds them.
pub record Held : Type 0 where
  pub shift : Bool
  pub ctrl : Bool
  pub alt : Bool
  pub super_key : Bool

abbrev flag : Bool → ℕ → ℕ
flag held bit = if held then bit else 0

abbrev pub bits_of : Held → ℕ
bits_of m = flag m.shift 1 + flag m.ctrl 4 + flag m.alt 8 + flag m.super_key 64

-- The evdev keys Home, Up, PageUp, Left, Right, End, Down and PageDown are 102 to 109, in this order.
abbrev pub MovesCursor : ℕ → Type 0
MovesCursor key = (102 ≤ key) × (key ≤ 109)

shortcut_held : (m : Held) → has_shortcut_mods (bits_of m) ≡ (m.ctrl || m.alt || m.super_key)
unfolding has_shortcut_mods
shortcut_held m = by_flags m.shift m.ctrl m.alt m.super_key
  where
    by_flags :
        (shift ctrl alt super_key : Bool)
        → has_shortcut_mods (flag shift 1 + flag ctrl 4 + flag alt 8 + flag super_key 64)
          ≡ (ctrl || alt || super_key)
    by_flags false false false false = refl
    by_flags true false false false = refl
    by_flags false false false true = refl
    by_flags true false false true = refl
    by_flags false false true false = refl
    by_flags true false true false = refl
    by_flags false false true true = refl
    by_flags true false true true = refl
    by_flags false true false false = refl
    by_flags true true false false = refl
    by_flags false true false true = refl
    by_flags true true false true = refl
    by_flags false true true false = refl
    by_flags true true true false = refl
    by_flags false true true true = refl
    by_flags true true true true = refl

moves_cursor : (key : ℕ) → MovesCursor key → is_nav_key key ≡ true
unfolding is_nav_key
moves_cursor key h = ground (arith, h)

or_last : (a : Bool) → (a || true) ≡ true
or_last true = refl
or_last false = refl

-- Each reason to let a key go by meets the guards.
goes_by_reason :
    (enabled suspended : Bool) (m : Held) (key : ℕ)
    → (enabled ≡ false)
      ⊎ (suspended ≡ true)
      ⊎ ((m.ctrl || m.alt || m.super_key) ≡ true)
      ⊎ MovesCursor key
    → goes_by enabled suspended (bits_of m) key ≡ true
goes_by_reason enabled suspended m key (inl off) = rw off refl
goes_by_reason enabled suspended m key (inr (inl off)) = rw off (or_last (not enabled))
goes_by_reason enabled suspended m key (inr (inr (inl held))) =
    rw (shortcut_held m, held) (rw (or_last suspended) (or_last (not enabled)))
goes_by_reason enabled suspended m key (inr (inr (inr moves))) =
    rw (moves_cursor key moves) (
      rw (or_last (has_shortcut_mods (bits_of m))) (rw (or_last suspended) (or_last (not enabled))))

module _ {E : Type 0} (vnkey : VnkeyEngine E) where
  finish_key-consumed :
      (plan : KeyFinishPlan) (ch : ℕ) (c : Composer E)
      → is_consumed (finish_key vnkey plan ch c).1 ≡ false
  unfolding finish_key
  finish_key-consumed (KeyFinishPlan.apply n t) ch c = refl
  finish_key-consumed (forward p) ch c = refl

  feed_key-consumed :
      (ch now : ℕ) (c : Composer E) → is_consumed (feed_key vnkey ch now c).1 ≡ false
  unfolding feed_key
  feed_key-consumed ch now c = finish_key-consumed _ ch _

  feed_backspace-consumed :
      (now : ℕ) (c : Composer E) → is_consumed (feed_backspace vnkey now c).1 ≡ false
  unfolding feed_backspace
  feed_backspace-consumed now c =
      elim (Bool-cases (Engine.State.process_backspace vnkey c.engine).1.consumed) [
        | inl e ↦ rw e refl
        | inr e ↦ rw e refl
      ]

  ask_composer-consumed :
      (f : Composer E → Composer E × KeyDecision) (w : Option (Composer E)) (d : Daemon E)
      → ((c : Composer E) → is_consumed (f c).1 ≡ false)
      → is_consumed (ask_composer f w d).1 ≡ false
  unfolding ask_composer
  ask_composer-consumed f none d h = refl
  ask_composer-consumed f (some w) d h = h w

  route_char-consumed :
      (ch : Option ℕ) (now : ℕ) (d : Daemon E) → is_consumed (route_char vnkey ch now d).1 ≡ false
  unfolding route_char handle_char
  route_char-consumed none now d = refl
  route_char-consumed (some ch) now d =
      ask_composer-consumed (feed_key vnkey ch now) d.router.composer d (feed_key-consumed ch now)

  route_key-consumed :
      (key : ℕ) (ch : Option ℕ) (now : ℕ) (d : Daemon E)
      → is_consumed (route_key vnkey key ch now d).1 ≡ false
  unfolding route_key handle_backspace
  route_key-consumed key ch now d =
      either-consumed (key == 14) _ _
        (ask_composer-consumed (feed_backspace vnkey now) d.router.composer d
          (feed_backspace-consumed now))
        (either-consumed (key == 1) _ _ refl (route_char-consumed ch now _))

  guard_key-consumed :
      (enabled : Bool) (key : ℕ) (ch : Option ℕ) (now : ℕ) (d : Daemon E)
      → is_consumed (guard_key vnkey enabled key ch now d).1 ≡ false
  unfolding guard_key
  guard_key-consumed enabled key ch now d = either-consumed (not enabled) _ _ refl (
      either-consumed d.suspended _ _ refl (
        either-consumed (has_shortcut_mods d.router.modifiers || is_nav_key key) _ _ refl
          (route_key-consumed key ch now d)))

  -- The handler of a transport without a grab never swallows a key, whatever the settings, the modifiers
  -- and the state of the composer: it forwards the key or asks for an edit.
  pub process_key-ne-consumed :
      (change : Option ConfigChange) (key : ℕ) (ch : Option ℕ) (now : ℕ) (d : Daemon E)
      → (process_key vnkey change key ch now d).1 ≢ consumed
  unfolding process_key
  process_key-ne-consumed change key ch now d e =
      let swallowed : true ≡ false = sym (ap is_consumed e) ∙ guard_key-consumed _ key ch now _ in
      cc

  sync_method-Same : (change : ConfigChange) (d : Daemon E) → Same d (sync_method vnkey change d)
  unfolding sync_method on_composer
  sync_method-Same change d = either-Same d _ d _ (refl, refl, refl) (refl, refl, refl)

  sync_style-Same : (change : ConfigChange) (d : Daemon E) → Same d (sync_style vnkey change d)
  unfolding sync_style on_composer
  sync_style-Same change d = either-Same d _ d _ (refl, refl, refl) (refl, refl, refl)

  sync_config-Same :
      (change : Option ConfigChange) (d : Daemon E) → Same d (sync_config vnkey change d)
  unfolding sync_config
  sync_config-Same none d = (refl, refl, refl)
  sync_config-Same (some change) d =
      let (e1, s1, m1) = sync_method-Same change d in
      let (e2, s2, m2) = sync_style-Same change (sync_method vnkey change d) in
      either-Same d (no_change_from change d.last_config) d _ (refl, refl, refl)
        (e2 ∙ e1, s2 ∙ s1, m2 ∙ m1)

  edge-Same : (d : Daemon E) → Same d (sync_enabled_edge vnkey d).0
  unfolding sync_enabled_edge on_composer
  edge-Same d =
      either-Same d (d.router.last_enabled && not d.enabled) _ d (refl, refl, refl)
        (refl, refl, refl)

  edge-enabled : (d : Daemon E) → (sync_enabled_edge vnkey d).1 ≡ d.enabled
  unfolding sync_enabled_edge
  edge-enabled d = refl

  -- The handler past the settings and the idle check.
  abbrev idle_checked : Option ConfigChange → ℕ → Daemon E → Daemon E
  idle_checked change now d =
      on_composer (λ w. (check_idle_reset vnkey now w).0) (sync_config vnkey change d)

  guard_key-forwards :
      (enabled : Bool) (key : ℕ) (ch : Option ℕ) (now : ℕ) (d : Daemon E)
      → goes_by enabled d.suspended d.router.modifiers key ≡ true
      → (guard_key vnkey enabled key ch now d).1 ≡ forward_raw
  unfolding guard_key
  guard_key-forwards enabled key ch now d h =
      either-forwards (not enabled) _ _ _ h refl
        (λ h1. either-forwards d.suspended _ _ _ h1 refl (λ h2. rw h2 refl))

  -- While the method is off or suspended, with Ctrl, Alt or Super among the modifiers held, and for a key
  -- that moves the cursor (Home, End, PageUp, PageDown and the arrows), the handler forwards the key and
  -- asks for no edit, whatever the composer holds and whatever settings come with the key.
  pub process_key-forward_raw :
      (change : Option ConfigChange) (key : ℕ) (ch : Option ℕ) (now : ℕ) (d : Daemon E) (m : Held)
      → d.router.modifiers ≡ bits_of m
      → (d.enabled ≡ false)
        ⊎ (d.suspended ≡ true)
        ⊎ ((m.ctrl || m.alt || m.super_key) ≡ true)
        ⊎ MovesCursor key
      → (process_key vnkey change key ch now d).1 ≡ forward_raw
  unfolding process_key on_composer
  process_key-forward_raw change key ch now d m held reason =
      let (e1, s1, m1) = sync_config-Same change d in
      let checked = idle_checked change now d in
      let (e2, s2, m2) = edge-Same checked in
      let enabled = edge-enabled checked ∙ e1 in
      let suspended = s2 ∙ s1 in
      let modifiers = m2 ∙ m1 ∙ held in
      guard_key-forwards _ key ch now _ (
        (λ i. goes_by (enabled i) (suspended i) (modifiers i) key)
        ∙ goes_by_reason d.enabled d.suspended m key reason)
