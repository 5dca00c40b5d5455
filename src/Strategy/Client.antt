-- ===== src/Strategy/Client.antt =====
-- An application that honours what the sink sends: the specification that both tiers of
-- crates/edit-strategy implement. It is an independent description, and models no code of the program.
pub mod Refinement
use daklak_rs.Prelude.{
  ℕ, ◌-◌, Bool, true, false, [], ◌++◌, ◌==◌, if◌then◌else◌, take, drop, length, init, is_empty,
}
use daklak_rs.Text.{Text, byte_len, slice_to, slice_from}
use daklak_rs.Strategy.Types.{DeleteUnit, bytes, chars, KeyState, pressed, released, OutputSink}
use daklak_rs.Strategy.Tiers.{key_backspace}

-- The text on both sides of the cursor, the selection that follows the cursor, the unit in which the
-- client reads lengths, and whether it has a keysym and a key channel.
pub record Client : Type 0 where
  pub before : Text
  pub selected : Text
  pub after : Text
  pub unit : DeleteUnit
  pub keysyms : Bool
  pub key_channel : Bool

-- The text without its last `n` units, and without its first.
abbrev pub without_last : DeleteUnit → ℕ → Text → Text
without_last bytes n t = slice_to t (byte_len t - n)
without_last chars n t = take (length t - n) t

abbrev pub without_first : DeleteUnit → ℕ → Text → Text
without_first bytes n t = slice_from t n
without_first chars n t = drop n t

-- What is inserted takes the place of the selection.
abbrev pub insert : Client → Text → Client
insert c t = record c { before = c.before ++ t; selected = [] }

-- A Backspace takes the selection, or one character where there is none.
abbrev pub backspace : Client → Client
backspace c =
    if is_empty c.selected then record c { before = init c.before } else record c { selected = [] }

-- A release, and every key but Backspace, does nothing.
abbrev pub client_key : Client → ℕ → KeyState → Client
client_key c code pressed = if code == key_backspace then backspace c else c
client_key c code released = c

abbrev pub client_sink : OutputSink Client
client_sink = record {
  delete_surrounding_text = λ c before before_chars after after_chars. record c {
    before = without_last c.unit before c.before;
    after = without_first c.unit after c.after;
  };
  commit_string = insert;
  commit = λ c serial. c;
  vk_key = λ c time code state. client_key c code state;
  vk_modifiers = λ c depressed latched locked group. c;
  vk_commit_char = λ c time ch. (c, false);
  commit_via_keysym = λ c serial time t. if c.keysyms then (insert c t, true) else (c, false);
  commit_key_channel_text =
      λ c serial time t. if c.key_channel then (insert c t, true) else (c, false);
}
