-- ===== src/Ibus/Sink.antt =====
-- `IbusSink` of crates/ibus-adapter/src/sink.rs: the sink that keeps what it is given for later.
use Prim.Native.Nat.{bit_or}
use daklak_rs.Prelude.{ℕ, ◌+◌, false, List, [], ◌∷◌, ◌++◌, ◌==◌, if◌then◌else◌, u32, is_empty}
use daklak_rs.Prelude.Int.{ℤ, neg_i32}
use daklak_rs.Text.{Text}
use daklak_rs.Strategy.Types.{OutputSink, KeyState, pressed, released}
use daklak_rs.Ibus.Keyval.{xk_backspace, ibus_forward_mask, ibus_release_mask, evdev_to_keyval}

pub record PendingDelete : Type 0 where
  pub offset : ℤ
  pub n_chars : ℕ

pub record PendingForward : Type 0 where
  pub keyval : ℕ
  pub keycode : ℕ
  pub state : ℕ

pub record IbusSink : Type 0 where
  pub commits : List Text
  pub deletes : List PendingDelete
  pub forwards : List PendingForward

abbrev pub new : IbusSink
new = record { commits = []; deletes = []; forwards = [] }

unfoldable pub push_delete : IbusSink → ℕ → ℕ → IbusSink
push_delete s before_chars after_chars = record s {
  deletes =
      s.deletes
      ++ record { offset = neg_i32 before_chars; n_chars = u32 (before_chars + after_chars) } ∷ [];
}

unfoldable pub push_commit : IbusSink → Text → IbusSink
push_commit s t = if is_empty t then s else record s { commits = s.commits ++ t ∷ [] }

abbrev pub key_state : KeyState → ℕ
key_state pressed = 0
key_state released = ibus_release_mask

unfoldable pub push_key : IbusSink → ℕ → KeyState → IbusSink
unfolding evdev_to_keyval
push_key s key_code state =
    let keyval = if key_code == 14 then xk_backspace else evdev_to_keyval key_code in
    if keyval == 0 then s else record s {
      forwards =
          s.forwards
          ++ record {
            keyval = keyval;
            keycode = key_code;
            state = bit_or ibus_forward_mask (key_state state);
          }
            ∷ [];
    }

-- The implementation of `OutputSink`; the trait's own `commit_via_keysym` reports false.
abbrev pub ibus_sink : OutputSink IbusSink
ibus_sink = record {
  delete_surrounding_text =
      λ s before_bytes before_chars after_bytes after_chars. push_delete s before_chars after_chars;
  commit_string = push_commit;
  commit = λ s serial. s;
  vk_key = λ s time key_code state. push_key s key_code state;
  vk_modifiers = λ s depressed latched locked group. s;
  vk_commit_char = λ s time c. (s, false);
  commit_via_keysym = λ s serial time t. (s, false);
  commit_key_channel_text = λ s serial time t. (s, false);
}
