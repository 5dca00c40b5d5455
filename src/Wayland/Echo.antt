-- ===== src/Wayland/Echo.antt =====
-- The echoes of the adapter's own modifier updates: what `emit_char` expects, and what
-- `handle_modifiers` of crates/wayland-adapter/src/lib.rs makes of them between the user's updates.
pub mod Commit
use daklak_rs.Prelude.{
  ℕ, suc, ◌-◌, ◌≤◌, ◌<◌, ◌≡◌, refl, sym, ap, ◌∙◌, true, false, List, [], ◌∷◌, none, some, arith,
  Bool-cases, inl, inr, u32, u32_mod, length,
}
use daklak_rs.Keymap.Xkb.{Xkbcommon}
use daklak_rs.Emitter.{ModifierSnapshot, SyntheticMods, same_snapshot}
use daklak_rs.Wayland.Frame.{ImProtocol, im_v2, im_v1}
use daklak_rs.Wayland.State.{AdapterState, no_echoes}
use daklak_rs.Wayland.Context.{
  AdapterHandler, WaylandAdapter, adapter, take_echo, pop_echo, expire_echoes, is_expired,
  take_modifiers, mirror,
}
use daklak_rs.Wayland.Adapter.{handle_modifiers, settle_modifiers}

-- The updates that come from the compositor while echoes are expected: each is the next echo, or one of
-- the user's that differs from it; once no echo is left, all are the user's.
pub data Weave
    : List ModifierSnapshot
      → List (ℕ × ModifierSnapshot)
      → List (ℕ × ModifierSnapshot)
      → Type 0 where
  rest : (ms : List (ℕ × ModifierSnapshot)) → Weave [] ms ms
  echo :
      {es : List ModifierSnapshot} {ms rs : List (ℕ × ModifierSnapshot)} (now : ℕ)
      (e : ModifierSnapshot)
      → Weave es ms rs
      → Weave (e ∷ es) ((now, e) ∷ ms) rs
  user :
      {es : List ModifierSnapshot} {ms rs : List (ℕ × ModifierSnapshot)} (now : ℕ)
      (e m : ModifierSnapshot)
      → same_snapshot e m ≡ false
      → Weave (e ∷ es) ms rs
      → Weave (e ∷ es) ((now, m) ∷ ms) ((now, m) ∷ rs)

-- The counters while these echoes are expected, the last sent at `t`.
abbrev pub waiting : ℕ → List ModifierSnapshot → SyntheticMods
waiting t [] = no_echoes
waiting t (e ∷ es) = record {
  pending = u32 (suc (length es));
  expected = e ∷ es;
  emitted_at = some t;
}

-- All come before the echoes expire.
abbrev pub InTime : ℕ → List (ℕ × ModifierSnapshot) → Type 0
InTime t [] = Unit {0}
InTime t ((now, m) ∷ ms) = (now - t ≤ 50) × InTime t ms

module _ {K : Type 0} where
  abbrev pub with_echoes : SyntheticMods → AdapterState K → AdapterState K
  with_echoes q s = record s { synthetic_mods = q }

  mirror-with_echoes :
      (p : ImProtocol) (m : ModifierSnapshot) (q : SyntheticMods) (s : AdapterState K)
      → mirror p m (with_echoes q s) ≡ with_echoes q (mirror p m s)
  mirror-with_echoes im_v2 m q s = elim (Bool-cases s.vk) [ inl e ↦ rw e refl | inr e ↦ rw e refl ]
  mirror-with_echoes im_v1 m q s = elim (Bool-cases s.im_ctx_v1) [
    | inl e ↦ rw e refl
    | inr e ↦ rw e refl
  ]

  take_modifiers-with_echoes :
      (lib : Xkbcommon K) (m : ModifierSnapshot) (q : SyntheticMods) (s : AdapterState K)
      → take_modifiers lib m (with_echoes q s) ≡ with_echoes q (take_modifiers lib m s)
  unfolding take_modifiers
  take_modifiers-with_echoes lib m q s = mirror-with_echoes s.profile.protocol m q _

same_snapshot_self : (m : ModifierSnapshot) → same_snapshot m m ≡ true
same_snapshot_self m = ground arith

is_expired-waiting :
    (t now : ℕ) (es : List ModifierSnapshot) → now - t ≤ 50 → is_expired (waiting t es) now ≡ false
is_expired-waiting t now [] h = refl
is_expired-waiting t now (e ∷ es) h = ground arith

expire-waiting :
    (t now : ℕ) (es : List ModifierSnapshot)
    → now - t ≤ 50
    → expire_echoes now (waiting t es) ≡ waiting t es
unfolding expire_echoes
expire-waiting t now es h = rw (is_expired-waiting t now es h) refl

pop-waiting :
    (t : ℕ) (e : ModifierSnapshot) (es : List ModifierSnapshot)
    → length es < u32_mod
    → pop_echo es (waiting t (e ∷ es)) ≡ waiting t es
pop-waiting t e [] h = refl
pop-waiting t e (x ∷ es) h = ground arith

-- The handler's `on_modifiers` neither reads nor changes what the adapter expects to be echoed.
pub record IgnoresEchoes {H K : Type 0} (h : AdapterHandler H K) : Type 0 where
  pub same :
      (m : ℕ) (x : H) (q : SyntheticMods) (s : AdapterState K)
      → h.on_modifiers m x (with_echoes q s)
        ≡ ((h.on_modifiers m x s).0, with_echoes q (h.on_modifiers m x s).1)

module _ {H K : Type 0} (lib : Xkbcommon K) (h : AdapterHandler H K) where
  -- Updates, in order.
  pub run : List (ℕ × ModifierSnapshot) → WaylandAdapter H K → WaylandAdapter H K
  run [] a = a
  run ((now, m) ∷ ms) a = run ms (handle_modifiers lib h now m a)

  abbrev pub put : SyntheticMods → H × AdapterState K → WaylandAdapter H K
  put q (x, s) = adapter (x, with_echoes q s)

  -- What the handler and the state come to at an update of the user's.
  abbrev told : ModifierSnapshot → H × AdapterState K → H × AdapterState K
  told m (x, s) = let s' = take_modifiers lib m s in h.on_modifiers s'.modifiers x s'

  handle-user :
      (ok : IgnoresEchoes h) (now : ℕ) (m : ModifierSnapshot) (q : SyntheticMods)
      (xs : H × AdapterState K)
      → expire_echoes now q ≡ q
      → take_echo m q.expected ≡ none
      → handle_modifiers lib h now m (put q xs) ≡ put q (told m xs)
  unfolding handle_modifiers settle_modifiers
  handle-user ok now m q (x, s) live mine =
      rw (live, mine)
        (rw (take_modifiers-with_echoes lib m q s)
          (ap adapter (ok.same (take_modifiers lib m s).modifiers x q (take_modifiers lib m s))))

  handle-echo :
      (now t : ℕ) (e : ModifierSnapshot) (es : List ModifierSnapshot) (xs : H × AdapterState K)
      → now - t ≤ 50
      → length es < u32_mod
      → handle_modifiers lib h now e (put (waiting t (e ∷ es)) xs) ≡ put (waiting t es) xs
  unfolding handle_modifiers settle_modifiers
  handle-echo now t e es (x, s) young few =
      rw (expire-waiting t now (e ∷ es) young)
        (rw (same_snapshot_self e) (ap (λ q. put q (x, s)) (pop-waiting t e es few)))

  -- Whatever order its echoes and the user's updates come in, while they come within 50 ms of the last
  -- emission and the echoes in the order sent, the adapter ends as if it had had the user's updates
  -- alone and expected no echo: the echoes reach neither the state of the modifiers nor the handler nor
  -- the client, and each update of the user's that differs from the next echo does.
  pub run-Weave :
      (ok : IgnoresEchoes h) (t : ℕ) {es : List ModifierSnapshot}
      {ms rs : List (ℕ × ModifierSnapshot)} (xs : H × AdapterState K)
      → Weave es ms rs
      → InTime t ms
      → length es < u32_mod
      → run ms (put (waiting t es) xs) ≡ run rs (put no_echoes xs)
  unfolding run
  run-Weave ok t xs (rest ms) young few = refl
  run-Weave ok t xs (echo {es} {ms} {rs} now e w) young few =
      ap (run ms) (handle-echo now t e es xs young.0 (omega arith))
      ∙ run-Weave ok t xs w young.1 (omega arith)
  run-Weave ok t xs (user {es} {ms} {rs} now e m differs w) young few =
      ap (run ms) (
        handle-user ok now m (waiting t (e ∷ es)) xs (expire-waiting t now (e ∷ es) young.0)
          (rw differs refl))
      ∙ run-Weave ok t (told m xs) w young.1 few
      ∙ sym (
          ap (run rs)
            (handle-user ok now m no_echoes xs (expire-waiting now now [] (omega arith)) refl))
