-- ===== src/Strategy/Tiers.antt =====
-- surrounding.rs and forward_key.rs of crates/edit-strategy/src, and `Strategy` of lib.rs: how an edit
-- goes out, over any implementation of the sink. Log lines are left out.
use daklak_rs.Prelude.{
  ℕ, zero, suc, ◌+◌, Bool, true, false, ◌||◌, pop_times, ltb, if◌then◌else◌, usize,
}
use daklak_rs.Text.{Text}
use daklak_rs.Strategy.Types.{
  BackspaceMethod, surrounding_text, forward_key, DeleteUnit, bytes, chars, pressed, released,
  OutputSink,
}
use daklak_rs.Strategy.Shadow
use daklak_rs.Strategy.Shadow.{ShadowBuffer, pop_delete_span}

-- Linux evdev keycode for Backspace.
abbrev pub key_backspace : ℕ
key_backspace = 14

-- The end of both tiers: the shadow takes in the commit and waits for its echo.
unfoldable pub after_commit : ShadowBuffer → Text → ShadowBuffer
unfolding Shadow.append
after_commit shadow text = record (Shadow.append shadow text) { pending_commit = true }

abbrev pub unit_length : DeleteUnit → ℕ → ℕ → ℕ
unit_length bytes b c = b
unit_length chars b c = c

module _ {S : Type 0} (o : OutputSink S) where
  open o use {
    delete_surrounding_text, commit_string, commit, vk_key, commit_via_keysym,
    commit_key_channel_text,
  }

  -- `for _ in 0..n`: press and release Backspace.
  unfoldable pub press_backspaces : ℕ → ℕ → S → S
  press_backspaces zero time sink = sink
  press_backspaces (suc n) time sink =
      press_backspaces n time
        (vk_key (vk_key sink time key_backspace pressed) time key_backspace released)

  -- `surrounding::apply`. `backspaces + 1` is a `usize` and wraps, as it does where overflow is not checked.
  unfoldable pub surrounding_apply :
      ShadowBuffer → ℕ → Text → ℕ → ℕ → S → DeleteUnit → ShadowBuffer × S
  unfolding after_commit
  surrounding_apply shadow backspaces text serial time sink delete_unit =
      let (popped, before_bytes, before_chars, after_bytes, after_chars) =
        pop_delete_span shadow backspaces in
      let cleared = press_backspaces (usize (backspaces + 1)) time sink in
      let deleted =
        delete_surrounding_text sink (unit_length delete_unit before_bytes before_chars)
          before_chars (unit_length delete_unit after_bytes after_chars) after_chars in
      if ltb 0 after_bytes || ltb 0 after_chars
      then (after_commit popped text, commit (commit_string cleared text) serial)
      else (after_commit popped text, commit (commit_string deleted text) serial)

  -- The whole text on one channel, with the text channel to fall back on.
  unfoldable pub or_commit : S × Bool → Text → ℕ → S
  or_commit (sink, true) text serial = sink
  or_commit (sink, false) text serial = commit (commit_string sink text) serial

  -- `forward_key::apply`.
  unfoldable pub forward_key_apply : ShadowBuffer → ℕ → Text → ℕ → ℕ → S → Bool → ShadowBuffer × S
  unfolding or_commit after_commit
  forward_key_apply shadow backspaces text serial time sink prefer_key_channel_commit =
      let erased = press_backspaces backspaces time sink in
      (
        after_commit (record shadow { text = pop_times backspaces shadow.text }) text,
        if prefer_key_channel_commit
            then or_commit (commit_key_channel_text erased serial time text) text serial
            else or_commit (commit_via_keysym erased serial time text) text serial,
      )

-- The fields of `Strategy`; the modifiers are a bit mask.
pub record Strategy : Type 0 where
  pub method : BackspaceMethod
  pub shadow : ShadowBuffer
  pub modifiers : ℕ

unfoldable pub new : BackspaceMethod → Strategy
unfolding Shadow.new
new method = record { method = method; shadow = Shadow.new; modifiers = 0 }

unfoldable pub on_surrounding_text : Strategy → Text → ℕ → ℕ → Strategy
unfolding Shadow.observe_surrounding
on_surrounding_text s t cursor anchor = record s {
  shadow = (Shadow.observe_surrounding s.shadow t cursor anchor).0;
}

unfoldable pub reset_shadow : Strategy → Strategy
unfolding Shadow.clear
reset_shadow s = record s { shadow = Shadow.clear s.shadow }

unfoldable pub set_modifiers : Strategy → ℕ → Strategy
set_modifiers s m = record s { modifiers = m }

unfoldable pub set_method : Strategy → BackspaceMethod → Strategy
set_method s m = record s { method = m }

module _ {S : Type 0} (o : OutputSink S) where
  -- The two tiers of `Strategy::apply`.
  unfoldable pub apply_method :
      BackspaceMethod → ShadowBuffer → ℕ → Text → ℕ → ℕ → S → DeleteUnit → ShadowBuffer × S
  apply_method surrounding_text shadow backspaces text serial time sink delete_unit =
      surrounding_apply o shadow backspaces text serial time sink delete_unit
  apply_method forward_key shadow backspaces text serial time sink delete_unit =
      forward_key_apply o shadow backspaces text serial time sink false

  unfoldable pub apply : Strategy → ℕ → Text → ℕ → ℕ → S → DeleteUnit → Strategy × S
  unfolding apply_method
  apply s backspaces text serial time sink delete_unit =
      let (shadow, sink') =
        apply_method s.method s.shadow backspaces text serial time sink delete_unit in
      (record s { shadow = shadow }, sink')

  unfoldable pub apply_forward_key : Strategy → ℕ → Text → ℕ → ℕ → S → Strategy × S
  unfolding forward_key_apply
  apply_forward_key s backspaces text serial time sink =
      let (shadow, sink') = forward_key_apply o s.shadow backspaces text serial time sink true in
      (record s { shadow = shadow }, sink')
