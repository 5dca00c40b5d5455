-- ===== src/Composer/Examples/Sessions.antt =====
-- The theorems on the composer of crates/daemon at concrete inputs, over a small engine.
use native.Mathlib.Omega.{arith}
use daklak_rs.Prelude.{
  ◌≡◌, ◌≢◌, refl, [], ◌∷◌, ◌++◌, true, false, some, none, if◌then◌else◌, is_empty, u32, usize_max,
  ◌≤◌, pop_times, ap,
}
use daklak_rs.Text.{
  Text, byte_len, len_utf8, is_char_boundary, slice_to, slice_from, char_indices, find,
  is_whitespace, floor_boundary,
}
use daklak_rs.Strategy.Types.{surrounding_text, bytes}
use daklak_rs.Strategy.Shadow.{ShadowBuffer}
use daklak_rs.Strategy.Client.{Client, client_sink}
use daklak_rs.Strategy.Client.Refinement.{Mirrors, Edits}
use daklak_rs.Engine.Context.{telex}
use daklak_rs.Engine.State.{show_key, process_backspace}
use daklak_rs.Engine.Toy.{toy_engine}
use daklak_rs.Composer.Plan.{
  live, awaiting_frame, pending_raw, plan_key_start, is_uncertain, PendingRaw, PendingEngineEdit,
}
use daklak_rs.Composer.EditModel
use daklak_rs.Composer.EditModel.{shadow_text}
use daklak_rs.Composer.Words.{
  text_before_cursor, current_word_before_cursor, word_start, is_word_boundary,
}
use daklak_rs.Composer.State.{Composer}
use daklak_rs.Composer.Keys.{
  capture, start_key, start_speculation, start_context, start_seed, engine_key,
}
use daklak_rs.Composer.Keys.Press.{press, Leaves, answer, has_uncertain_context, press-Leaves}
use daklak_rs.Composer.Apply.{apply_to_sink_inner}
use daklak_rs.Composer.Apply.Edits.{apply_to_sink_inner-Edits}
use daklak_rs.Composer.Frames.{apply_surrounding}
use daklak_rs.Composer.Keys.Erase.{erase, show_backspace, erase-Leaves}
use daklak_rs.Composer.Frames.Repair.{repair, repair-Leaves}

-- "a" typed: in the engine, in the shadow and in the client.
abbrev pub one_a : Text
one_a = b'a' ∷ []

abbrev typed_shadow : ShadowBuffer
typed_shadow = record {
  text = one_a;
  last_cursor = none;
  selected_before_chars = 0;
  selected_after_bytes = 0;
  selected_after_chars = 0;
  pending_commit = false;
}

abbrev pub typed : Composer Text
typed = record {
  engine = record {
    engine = one_a;
    method = telex;
    bracket_shortcuts = false;
    modern_style = true;
  };
  last_keystroke_at = 100000;
  last_input_char = some b'a';
  commit_string_functional = true;
  last_action_at = 40000;
  surrounding_dead_strikes = 0;
  ibus = record {
    surrounding_echo_since_correction = false;
    surrounding_saw_correction = false;
    surrounding_corrections_without_echo = 0;
  };
  retroactive_context = false;
  firefox = record {
    expected_echo = none;
    delete_unit = bytes;
    use_forward_delete = false;
    forward_sticky = false;
  };
  bracket_shortcuts = false;
  confirm_retroactive_edits = true;
  confirmation = live;
  edit = record {
    strategy = record { method = surrounding_text; shadow = typed_shadow; modifiers = 0 };
    prev_text = [];
    prev_cursor = 0;
    prev_anchor = 0;
  };
}

abbrev pub client : Client
client = record {
  before = one_a;
  selected = [];
  after = b'!' ∷ [];
  unit = bytes;
  keysyms = false;
  key_channel = false;
}

mirrored : Mirrors typed_shadow client
unfolding byte_len
mirrored = record { same_text = refl; none_before = refl; after_bytes = refl; after_chars = refl }

apply_to_sink_inner-Edits_example :
    let (c', k') =
      apply_to_sink_inner toy_engine client_sink 1 (0xe2 ∷ []) 3 40 client false typed in
    Edits client 1 (0xe2 ∷ []) c'.edit.strategy.shadow k'
unfolding byte_len len_utf8
apply_to_sink_inner-Edits_example =
    apply_to_sink_inner-Edits toy_engine 1 (0xe2 ∷ []) 3 40 client false typed refl refl mirrored
      refl (omega arith) (omega arith)

few_backspaces : (answer toy_engine b'a' 100050 typed).1.backspaces ≤ usize_max
unfolding engine_key start_key start_speculation start_context start_seed plan_key_start capture
few_backspaces = omega arith

press-Leaves_example :
    Leaves
      (if has_uncertain_context typed
        then one_a ++ b'a' ∷ []
        else show_key (answer toy_engine b'a' 100050 typed).1 b'a' one_a)
      client
      (press toy_engine b'a' 100050 3 40 client typed)
unfolding byte_len len_utf8
press-Leaves_example =
    press-Leaves toy_engine b'a' 100050 3 40 client typed refl refl mirrored refl (omega arith)
      few_backspaces

-- The same before any frame has come.
abbrev unsure : Composer Text
unsure = record typed { confirmation = awaiting_frame }

uncertain : has_uncertain_context unsure ≡ true
unfolding is_uncertain
uncertain = refl

-- The second `a` went out raw, and the engine holds its edit.
abbrev stash : PendingEngineEdit
stash = record { backspaces = 1; commit = 0xe2 ∷ []; base_word = one_a }

abbrev awaited : PendingRaw
awaited = record { ch = b'a'; repairable = true; edit = some stash; from_frame = false }

abbrev waiting : Composer Text
waiting = record typed {
  engine = record (typed.engine) { engine = 0xe2 ∷ [] };
  confirmation = pending_raw awaited;
  edit = EditModel.with_shadow_text typed.edit (one_a ++ b'a' ∷ []);
}

abbrev raw_client : Client
raw_client = record client { before = one_a ++ b'a' ∷ [] }

base_of_stash : stash.base_word ≡ current_word_before_cursor one_a (u32 (byte_len one_a))
unfolding current_word_before_cursor text_before_cursor word_start floor_boundary byte_len len_utf8
    is_char_boundary slice_to slice_from char_indices find is_word_boundary is_whitespace
base_of_stash = refl

changed : raw_client.before ++ raw_client.after ≢ []
changed = λ e. let full : false ≡ true = ap is_empty e in cc

repair-Leaves_example :
    let cursor = byte_len raw_client.before in
    let (c', k') = repair toy_engine 3 40 raw_client (
      apply_surrounding toy_engine
        (raw_client.before ++ raw_client.after)
        cursor
        cursor
        false
        100100
        waiting) in
    (k'.before ≡ pop_times 1 one_a ++ 0xe2 ∷ [])
    × (k'.after ≡ b'!' ∷ [])
    × (k'.selected ≡ [])
    × Mirrors c'.edit.strategy.shadow k'
    × (c'.engine ≡ waiting.engine)
unfolding byte_len len_utf8
repair-Leaves_example =
    repair-Leaves toy_engine awaited stash one_a false 100100 3 40 raw_client waiting refl refl refl
      base_of_stash refl refl changed refl refl refl (omega arith) (omega arith)

erase-Leaves_example :
    Leaves
      (show_backspace (process_backspace toy_engine typed.engine).1 one_a)
      client
      (erase toy_engine 100050 3 40 client typed)
unfolding byte_len len_utf8 process_backspace
erase-Leaves_example =
    erase-Leaves toy_engine 100050 3 40 client typed refl refl mirrored refl (omega arith)
      (omega arith)
