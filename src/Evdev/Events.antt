-- ===== src/Evdev/Events.antt =====
-- The events of the keyboards in crates/evdev-adapter/src/adapter.rs: `process_event` and its loop.
use Prim.Native.Nat.{bit_and, bit_or}
use daklak_rs.Prelude.{
  ℕ, true, not, ◌&&◌, List, [], ◌∷◌, Option, none, some, ltb, leb, ◌==◌, if◌then◌else◌, is_empty,
  length,
}
use daklak_rs.Strategy.Types.{KeyDecision, consumed, forward_raw}
use daklak_rs.Keymap.Xkb.{Xkbcommon, update_modifiers, key_to_char}
use daklak_rs.Emitter.{KeyEmitter}
use daklak_rs.Evdev.{
  EvdevHandler, EvdevAdapter, InputEvent, clear_bits, mod_bit, dance_mask, recent_taps,
  shortcut_mods_held, track_held,
}
use daklak_rs.Evdev.Output.{
  passthrough, forward_press_raw, emit_string, emit_backspaces, release_key,
}

module _ {S K : Type 0} (e : KeyEmitter S) (lib : Xkbcommon K) where
  abbrev pub set_bits : ℕ → ℕ → ℕ → ℕ
  set_bits value bits mask =
      if value == 1 then bit_or mask bits else if value == 0 then clear_bits mask bits else mask

  -- A modifier: the masks follow it, and it goes out as it is.
  unfoldable pub on_modifier : ℕ → ℕ → ℕ → EvdevAdapter S K → EvdevAdapter S K
  unfolding update_modifiers passthrough
  on_modifier bit code value a =
      let mask = set_bits value bit a.mod_mask in
      let dance_bit = bit_and bit dance_mask in
      passthrough e code value (record a {
        mod_mask = mask;
        xkb = update_modifiers lib a.xkb mask 0 0 0;
        emitted_mods =
            if ltb 0 dance_bit then set_bits value dance_bit a.emitted_mods else a.emitted_mods;
      })

module _ {S K D : Type 0} (e : KeyEmitter S) (lib : Xkbcommon K) (h : EvdevHandler D) where
  -- What is done on the decision on a Backspace.
  unfoldable pub finish_backspace :
      ℕ → ℕ → D × KeyDecision → EvdevAdapter S K → D × EvdevAdapter S K
  unfolding forward_press_raw emit_backspaces
  finish_backspace code value (d, consumed) a = (d, a)
  finish_backspace code value (d, forward_raw) a = (d, forward_press_raw e code value a)
  finish_backspace code value (d, KeyDecision.apply method n commit) a = (d, emit_backspaces e n a)

  unfoldable pub finish_char : ℕ → ℕ → D × KeyDecision → EvdevAdapter S K → D × EvdevAdapter S K
  unfolding forward_press_raw emit_backspaces emit_string
  finish_char code value (d, consumed) a = (d, a)
  finish_char code value (d, forward_raw) a = (d, forward_press_raw e code value a)
  finish_char code value (d, KeyDecision.apply method n commit) a =
      let erased = emit_backspaces e n a in
      (d, if is_empty commit then erased else emit_string e commit erased)

  -- A key that goes by the engine ends the word.
  unfoldable pub bypass : ℕ → ℕ → D → EvdevAdapter S K → D × EvdevAdapter S K
  unfolding forward_press_raw
  bypass code value d a =
      (h.clear_last_input_char (h.full_reset_window d), forward_press_raw e code value a)

  unfoldable pub type_key : ℕ → ℕ → ℕ → Option ℕ → D → EvdevAdapter S K → D × EvdevAdapter S K
  unfolding bypass finish_backspace finish_char
  type_key now code value none d a = bypass code value d a
  type_key now code value (some ch) d a =
      let d' = h.check_idle_reset_window now d in
      if code == 14
      then finish_backspace code value (h.handle_backspace now d') a
      else finish_char code value (h.handle_char now code ch d') a

  -- A press or an autorepeat.
  unfoldable pub press_key : ℕ → ℕ → ℕ → D → EvdevAdapter S K → D × EvdevAdapter S K
  unfolding bypass type_key shortcut_mods_held key_to_char
  press_key now code value d a =
      if shortcut_mods_held a
      then bypass code value d a
      else type_key now code value (key_to_char lib a.xkb code) d a

  unfoldable pub plain_key : ℕ → ℕ → ℕ → D → EvdevAdapter S K → D × EvdevAdapter S K
  unfolding release_key press_key
  plain_key now code value d a =
      if value == 0 then (d, release_key e code a) else press_key now code value d a

  -- Three taps on Escape within a second end the grab.
  unfoldable pub watch_escape : ℕ → ℕ → ℕ → D → EvdevAdapter S K → D × EvdevAdapter S K
  unfolding recent_taps forward_press_raw plain_key
  watch_escape now code value d a =
      let taps = recent_taps now a.escape_taps in
      if code == 1 && value == 1
      then if leb 3 (length taps)
        then (
          h.clear_session d,
          forward_press_raw e 1 1 (record a { escape_taps = []; should_exit = true }),
        )
        else plain_key now code value d (record a { escape_taps = taps })
      else plain_key now code value d a

  unfoldable pub on_key_code : Option ℕ → ℕ → ℕ → ℕ → D → EvdevAdapter S K → D × EvdevAdapter S K
  unfolding on_modifier watch_escape
  on_key_code (some bit) now code value d a = (d, on_modifier e lib bit code value a)
  on_key_code none now code value d a = watch_escape now code value d a

  unfoldable pub process_event : ℕ → InputEvent → D × EvdevAdapter S K → D × EvdevAdapter S K
  unfolding track_held mod_bit on_key_code
  process_event now ev (d, a) =
      if not ev.is_key
      then (d, a)
      else on_key_code (mod_bit ev.code) now ev.code ev.value d (track_held ev.code ev.value a)

  -- The loop of `run_until_shutdown`, over the events that come before a shutdown.
  unfoldable pub run : List (ℕ × InputEvent) → D × EvdevAdapter S K → D × EvdevAdapter S K
  unfolding process_event
  run [] x = x
  run ((now, ev) ∷ evs) x =
      let x' = process_event now ev x in
      let rest = run evs x' in if x'.1.should_exit then x' else rest
