-- ===== src/Evdev/Stuck.antt =====
-- No key stays down at the output device of crates/evdev-adapter/src/adapter.rs once the user lets it go.
use daklak_rs.Prelude.{
  ℕ, ◌≡◌, refl, Bool, true, false, not, ◌&&◌, List, [], ◌∷◌, Option, none, some, arith, leb, ◌==◌,
  Bool-cases, inl, inr, is_empty, length,
}
use daklak_rs.Strategy.Types.{KeyDecision, consumed, forward_raw}
use daklak_rs.Keymap.Xkb.{Xkbcommon, key_to_char}
use daklak_rs.Evdev.{
  EvdevHandler, EvdevAdapter, InputEvent, mod_bit, recent_taps, track_held, shortcut_mods_held,
}
use daklak_rs.Evdev.Output.{passthrough, emit_string, emit_backspaces, release_key}
use daklak_rs.Evdev.Events.{
  on_modifier, finish_backspace, finish_char, bypass, type_key, press_key, plain_key, watch_escape,
  on_key_code, process_event, run,
}
use daklak_rs.Evdev.Shrinks.{
  device, IsTracked, Shrinks-IsTracked, mod-Shrinks, emit_string-Shrinks, emit_backspaces-Shrinks,
  forward-IsTracked, release-IsTracked,
}

abbrev pub release_of : ℕ → InputEvent
release_of code = record { is_key = true; code = code; value = 0 }

module _ {K D : Type 0} (lib : Xkbcommon K) (h : EvdevHandler D) where
  abbrev Adapter : Type 0
  Adapter = EvdevAdapter (ℕ → Bool) K

  finish_backspace-IsTracked :
      (code value : ℕ) (d : D) (decision : KeyDecision) (a : Adapter)
      → IsTracked a
      → IsTracked (finish_backspace device lib h code value (d, decision) a).1
  unfolding finish_backspace
  finish_backspace-IsTracked code value d consumed a t = t
  finish_backspace-IsTracked code value d forward_raw a t = forward-IsTracked code value a t
  finish_backspace-IsTracked code value d (KeyDecision.apply m n c) a t =
      Shrinks-IsTracked a (emit_backspaces device n a) (emit_backspaces-Shrinks n a) t

  finish_char-IsTracked :
      (code value : ℕ) (d : D) (decision : KeyDecision) (a : Adapter)
      → IsTracked a
      → IsTracked (finish_char device lib h code value (d, decision) a).1
  unfolding finish_char
  finish_char-IsTracked code value d consumed a t = t
  finish_char-IsTracked code value d forward_raw a t = forward-IsTracked code value a t
  finish_char-IsTracked code value d (KeyDecision.apply m n c) a t =
      let erased = emit_backspaces device n a in
      let less = Shrinks-IsTracked a erased (emit_backspaces-Shrinks n a) t in
      elim (Bool-cases (is_empty c)) [
        | inl e ↦ rw e less
        | inr e ↦ rw e (
            Shrinks-IsTracked erased (emit_string device c erased) (emit_string-Shrinks c erased)
              less)
      ]

  type_key-IsTracked :
      (now code value : ℕ) (ch : Option ℕ) (d : D) (a : Adapter)
      → IsTracked a
      → IsTracked (type_key device lib h now code value ch d a).1
  unfolding type_key bypass
  type_key-IsTracked now code value none d a t = forward-IsTracked code value a t
  type_key-IsTracked now code value (some ch) d a t =
      let d' = h.check_idle_reset_window now d in
      elim (Bool-cases (code == 14)) [
        | inl e ↦
            let r = h.handle_backspace now d' in
            rw e (finish_backspace-IsTracked code value r.0 r.1 a t)
        | inr e ↦
            let r = h.handle_char now code ch d' in
            rw e (finish_char-IsTracked code value r.0 r.1 a t)
      ]

  press_key-IsTracked :
      (now code value : ℕ) (d : D) (a : Adapter)
      → IsTracked a
      → IsTracked (press_key device lib h now code value d a).1
  unfolding press_key bypass
  press_key-IsTracked now code value d a t = elim (Bool-cases (shortcut_mods_held a)) [
    | inl e ↦ rw e (forward-IsTracked code value a t)
    | inr e ↦ rw e (type_key-IsTracked now code value (key_to_char lib a.xkb code) d a t)
  ]

  plain_key-IsTracked :
      (now code value : ℕ) (d : D) (a : Adapter)
      → IsTracked a
      → IsTracked (plain_key device lib h now code value d a).1
  unfolding plain_key
  plain_key-IsTracked now code value d a t = elim (Bool-cases (value == 0)) [
    | inl e ↦ rw e (release-IsTracked code a t)
    | inr e ↦ rw e (press_key-IsTracked now code value d a t)
  ]

  watch_escape-IsTracked :
      (now code value : ℕ) (d : D) (a : Adapter)
      → IsTracked a
      → IsTracked (watch_escape device lib h now code value d a).1
  unfolding watch_escape
  watch_escape-IsTracked now code value d a t =
      let taps = recent_taps now a.escape_taps in
      elim (Bool-cases (code == 1 && value == 1)) [
        | inl e ↦ rw e (elim (Bool-cases (leb 3 (length taps))) [
          | inl f ↦
              rw f (forward-IsTracked 1 1 (record a { escape_taps = []; should_exit = true }) t)
          | inr f ↦ rw f (plain_key-IsTracked now code value d (record a { escape_taps = taps }) t)
        ])
        | inr e ↦ rw e (plain_key-IsTracked now code value d a t)
      ]

  on_key_code-IsTracked :
      (bit : Option ℕ) (now code value : ℕ) (d : D) (a : Adapter)
      → mod_bit code ≡ bit
      → IsTracked a
      → IsTracked (on_key_code device lib h bit now code value d a).1
  unfolding on_key_code on_modifier
  on_key_code-IsTracked none now code value d a is_mod t =
      watch_escape-IsTracked now code value d a t
  on_key_code-IsTracked (some bit) now code value d a is_mod t =
      λ k plain down. t k plain ((mod-Shrinks code bit value a is_mod).0 k plain down)

  track_held-IsTracked :
      (code value : ℕ) (a : Adapter) → IsTracked a → IsTracked (track_held code value a)
  unfolding track_held
  track_held-IsTracked code value a t = elim (Bool-cases (value == 1)) [
    | inl e ↦ rw e t
    | inr e ↦ rw e (elim (Bool-cases (value == 0)) [ inl f ↦ rw f t | inr f ↦ rw f t ])
  ]

  process_event-IsTracked :
      (now : ℕ) (ev : InputEvent) (d : D) (a : Adapter)
      → IsTracked a
      → IsTracked (process_event device lib h now ev (d, a)).1
  unfolding process_event
  process_event-IsTracked now ev d a t = elim (Bool-cases (not ev.is_key)) [
    | inl e ↦ rw e t
    | inr e ↦ rw e (
        on_key_code-IsTracked (mod_bit ev.code) now ev.code ev.value d
          (track_held ev.code ev.value a) refl (track_held-IsTracked ev.code ev.value a t))
  ]

  run-IsTracked :
      (evs : List (ℕ × InputEvent)) (d : D) (a : Adapter)
      → IsTracked a
      → IsTracked (run device lib h evs (d, a)).1
  unfolding run
  run-IsTracked [] d a t = t
  run-IsTracked ((now, ev) ∷ evs) d a t =
      let x' = process_event device lib h now ev (d, a) in
      let next = process_event-IsTracked now ev d a t in
      elim (Bool-cases x'.1.should_exit) [
        | inl e ↦ rw e next
        | inr e ↦ rw e (run-IsTracked evs x'.0 x'.1 next)
      ]

  released_up :
      (bit : Option ℕ) (now code : ℕ) (d : D) (a : Adapter)
      → mod_bit code ≡ bit
      → IsTracked a
      → (on_key_code device lib h bit now code 0 d a).1.output code ≡ false
  unfolding on_key_code on_modifier passthrough watch_escape plain_key release_key
  released_up (some bit) now code d a is_mod t = ground arith
  released_up none now code d a is_mod t = elim (Bool-cases (a.forwarded_press code)) [
    | inl e ↦ ground arith
    | inr e ↦ elim (Bool-cases (a.output code)) [
      | inl f ↦ cc (t code is_mod f)
      | inr f ↦ ground arith
    ]
  ]

  -- Whatever events came before, once the user lets a key go the output device has it up, if at the start
  -- each key that the device had down was a modifier or one whose press was forwarded. So it is whatever
  -- the handler decides, for a modifier too, and also for a key that the adapter typed itself while the
  -- user held it.
  pub run-release :
      (evs : List (ℕ × InputEvent)) (now code : ℕ) (d : D) (a : Adapter)
      → IsTracked a
      → let x = run device lib h evs (d, a) in
        (process_event device lib h now (release_of code) x).1.output code ≡ false
  unfolding process_event
  run-release evs now code d a t =
      let x = run device lib h evs (d, a) in
      released_up (mod_bit code) now code x.0 (track_held code 0 x.1) refl
        (track_held-IsTracked code 0 x.1 (run-IsTracked evs d a t))
