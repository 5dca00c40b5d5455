-- ===== src/Engine/Toy.antt =====
-- A small engine for the tests of crates/engine: a second `a` turns the first into `â`.
use daklak_rs.Prelude.{
  ℕ, Bool, true, false, not, ◌&&◌, [], ◌∷◌, ◌++◌, Option, none, some, ◌==◌, if◌then◌else◌, init,
  last?, is_empty,
}
use daklak_rs.Text.{Text}
use daklak_rs.Engine.State.{VnkeyEngine, ProcessResult}

abbrev ends_in_a : Option ℕ → Bool
ends_in_a none = false
ends_in_a (some c) = c == b'a'

abbrev toy_key : Text → ℕ → Text × ProcessResult
toy_key s ch =
    if ch == b'a' && ends_in_a (last? s)
    then (init s ++ 0xe2 ∷ [], record { backspaces = 1; commit = 0xe2 ∷ []; consumed = true })
    else (s ++ ch ∷ [], record { backspaces = 0; commit = []; consumed = false })

abbrev pub toy_engine : VnkeyEngine Text
toy_engine = record {
  fresh = [];
  choose_method = λ s method. s;
  set_user_key_map = λ s m. s;
  set_viet_mode = λ s on. s;
  get_modern_style = λ s. true;
  put_modern_style = λ s on. s;
  process = toy_key;
  erase = λ s. (init s, record { backspaces = 0; commit = []; consumed = false });
  clear = λ s. [];
  feed = λ s t. (s ++ t, not (is_empty t));
  word_beginning = is_empty;
  telex_mapping = [];
  normal_action = 0;
  vne_count = 0;
}
