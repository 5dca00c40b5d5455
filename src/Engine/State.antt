-- ===== src/Engine/State.antt =====
-- `EngineState` of crates/engine/src/lib.rs: the wrapper of vnkey-engine. The engine itself is a
-- third-party library and stands as an interface. Its output is taken as text: the wrapper's check that
-- the bytes are UTF-8 holds by the engine's contract and has no branch here.
pub mod Gate
use daklak_rs.Prelude.{
  ℕ, Bool, true, false, not, ◌&&◌, List, [], ◌∷◌, ◌++◌, pop_times, if◌then◌else◌,
}
use daklak_rs.Text.{Text, text_eq}
use daklak_rs.Engine.Context.{InputMethod, telex, vni, viqr, context_from_surrounding}
use daklak_rs.Engine.KeyMap.{Entry, ActionMap, telex_key_map}

pub record ProcessResult : Type 0 where
  pub backspaces : ℕ
  pub commit : Text
  pub consumed : Bool

-- vnkey-engine, over its own state.
pub record VnkeyEngine (E : Type 0) : Type 0 where
  pub fresh : E
  pub choose_method : E → InputMethod → E
  pub set_user_key_map : E → ActionMap → E
  pub set_viet_mode : E → Bool → E
  pub get_modern_style : E → Bool
  pub put_modern_style : E → Bool → E
  pub process : E → ℕ → E × ProcessResult
  pub erase : E → E × ProcessResult
  pub clear : E → E
  pub feed : E → Text → E × Bool
  pub word_beginning : E → Bool
  pub telex_mapping : List Entry
  pub normal_action : ℕ
  pub vne_count : ℕ

pub record EngineState (E : Type 0) : Type 0 where
  pub engine : E
  pub method : InputMethod
  pub bracket_shortcuts : Bool
  pub modern_style : Bool

abbrev pub is_telex : InputMethod → Bool
is_telex telex = true
is_telex _ = false

-- What a key does to the screen (`screen.pop()` for each backspace): a consumed key edits, another is inserted.
abbrev pub show_key : ProcessResult → ℕ → Text → Text
show_key r ch screen =
    if r.consumed then pop_times r.backspaces screen ++ r.commit else screen ++ ch ∷ []

module _ {E : Type 0} (vnkey : VnkeyEngine E) where
  open vnkey use {
    fresh, choose_method, set_user_key_map, set_viet_mode, get_modern_style, put_modern_style,
    process, erase, clear, feed, word_beginning, telex_mapping, normal_action, vne_count,
  }

  unfoldable pub new_with_options : InputMethod → Bool → EngineState E
  new_with_options method bracket_shortcuts =
      let chosen = choose_method fresh method in
      let mapped =
        if is_telex method && not bracket_shortcuts
        then set_user_key_map chosen (telex_key_map telex_mapping normal_action vne_count false)
        else chosen in
      let engine = set_viet_mode mapped true in
      record {
        engine = engine;
        method = method;
        bracket_shortcuts = bracket_shortcuts;
        modern_style = get_modern_style engine;
      }

  unfoldable pub process_key : EngineState E → ℕ → EngineState E × ProcessResult
  process_key s ch = let (engine, r) = process s.engine ch in (record s { engine = engine }, r)

  unfoldable pub process_backspace : EngineState E → EngineState E × ProcessResult
  process_backspace s = let (engine, r) = erase s.engine in (record s { engine = engine }, r)

  unfoldable pub reset : EngineState E → EngineState E
  reset s = record s { engine = clear s.engine }

  unfoldable pub set_input_method : EngineState E → InputMethod → EngineState E
  set_input_method s method = record s {
    engine = put_modern_style (choose_method (clear s.engine) method) s.modern_style;
    method = method;
  }

  unfoldable pub set_modern_style : EngineState E → Bool → EngineState E
  set_modern_style s enabled = record s {
    engine = put_modern_style s.engine enabled;
    modern_style = enabled;
  }

  unfoldable pub at_word_beginning : EngineState E → Bool
  at_word_beginning s = word_beginning s.engine

  -- The loop of `render`.
  unfoldable pub type_keys : EngineState E → Text → Text → EngineState E × Text
  unfolding process_key
  type_keys s [] screen = (s, screen)
  type_keys s (ch ∷ raw) screen =
      let (s', r) = process_key s ch in type_keys s' raw (show_key r ch screen)

  unfoldable pub render : EngineState E → Text → Text
  unfolding new_with_options set_modern_style type_keys
  render s raw =
      let scratch =
        set_modern_style (new_with_options s.method s.bracket_shortcuts) s.modern_style in
      (type_keys scratch raw []).1

  unfoldable pub feed_context : EngineState E → Text → EngineState E × Bool
  feed_context s t =
      let (engine, fed) = feed s.engine (context_from_surrounding t s.method).0 in
      (record s { engine = engine }, fed)

  unfoldable pub feed_context_gated : EngineState E → Text → EngineState E × Bool
  unfolding render
  feed_context_gated s t =
      let context = (context_from_surrounding t s.method).0 in
      if not (text_eq (render s context) t)
      then (s, false)
      else let (engine, fed) = feed s.engine context in (record s { engine = engine }, fed)
