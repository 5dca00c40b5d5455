-- ===== src/Composer/EditModel.antt =====
-- `EditModel` of crates/daemon/src/composer.rs: the strategy and the last application frame.
use daklak_rs.Prelude.{
  ℕ, ◌+◌, Bool, false, ◌&&◌, List, [], ◌∷◌, ◌++◌, Option, none, some, leb, ◌==◌, if◌then◌else◌, min,
  length, take, drop, last?, init,
}
use daklak_rs.Text.{
  Text, len_utf8, byte_len, as_bytes, is_char_boundary, slice_to, char_indices, text_eq,
  option_text_eq,
}
use daklak_rs.Strategy.Types.{BackspaceMethod, DeleteUnit, OutputSink}
use daklak_rs.Strategy.Tiers
use daklak_rs.Strategy.Tiers.{Strategy}
use daklak_rs.Composer.Diff.{detect_one_char_insertion, detect_deletion}

pub record EditModel : Type 0 where
  pub strategy : Strategy
  pub prev_text : Text
  pub prev_cursor : ℕ
  pub prev_anchor : ℕ

unfoldable pub new : BackspaceMethod → EditModel
unfolding Tiers.new
new method = record {
  strategy = Tiers.new method;
  prev_text = [];
  prev_cursor = 0;
  prev_anchor = 0;
}

unfoldable pub get_method : EditModel → BackspaceMethod
get_method m = m.strategy.method

unfoldable pub set_method : EditModel → BackspaceMethod → EditModel
unfolding Tiers.set_method
set_method m method = record m { strategy = Tiers.set_method m.strategy method }

unfoldable pub set_modifiers : EditModel → ℕ → EditModel
unfolding Tiers.set_modifiers
set_modifiers m mods = record m { strategy = Tiers.set_modifiers m.strategy mods }

unfoldable pub reset_composition : EditModel → EditModel
unfolding Tiers.reset_shadow
reset_composition m = record m { strategy = Tiers.reset_shadow m.strategy }

abbrev pub shadow_text : EditModel → Text
shadow_text m = m.strategy.shadow.text

abbrev pub with_shadow_text : EditModel → Text → EditModel
with_shadow_text m t = record m {
  strategy = record (m.strategy) { shadow = record (m.strategy.shadow) { text = t } };
}

unfoldable pub push_forwarded_char : EditModel → ℕ → EditModel
push_forwarded_char m ch = with_shadow_text m (shadow_text m ++ ch ∷ [])

unfoldable pub pop_forwarded_char : EditModel → EditModel
pop_forwarded_char m = with_shadow_text m (init (shadow_text m))

unfoldable pub on_surrounding_text : EditModel → Text → ℕ → ℕ → EditModel
unfolding Tiers.on_surrounding_text
on_surrounding_text m t cursor anchor = record m {
  strategy = Tiers.on_surrounding_text m.strategy t cursor anchor;
}

unfoldable pub record_surrounding : EditModel → Text → ℕ → ℕ → EditModel
record_surrounding m t cursor anchor = record m {
  prev_text = t;
  prev_cursor = cursor;
  prev_anchor = anchor;
}

unfoldable pub one_char_insertion_since_prev : EditModel → Text → ℕ → Bool
one_char_insertion_since_prev m t cursor =
    detect_one_char_insertion m.prev_text m.prev_cursor t cursor

unfoldable pub deletion_since_prev : EditModel → Text → ℕ → Bool
deletion_since_prev m t cursor = detect_deletion m.prev_text m.prev_cursor t cursor

-- `slice.get(..i)` and `slice.get(i..)` of bytes.
abbrev pub bytes_to : List ℕ → ℕ → Option (List ℕ)
bytes_to bs i = if leb i (length bs) then some (take i bs) else none

abbrev pub bytes_from : List ℕ → ℕ → Option (List ℕ)
bytes_from bs i = if leb i (length bs) then some (drop i bs) else none

-- The test at the last scalar before the cursor, where it starts.
unfoldable pub confirms_at : EditModel → Text → ℕ → ℕ → Option (ℕ × ℕ) → Bool
unfolding option_text_eq text_eq
confirms_at m t cursor ch none = false
confirms_at m t cursor ch (some (start, actual)) =
    actual == ch
    && byte_len m.prev_text + len_utf8 ch == byte_len t
    && option_text_eq (bytes_to (as_bytes m.prev_text) start) (bytes_to (as_bytes t) start)
    && option_text_eq (bytes_from (as_bytes m.prev_text) start) (bytes_from (as_bytes t) cursor)

unfoldable pub confirms_inserted_char : EditModel → Text → ℕ → ℕ → Bool
unfolding confirms_at
confirms_inserted_char m t cursor ch =
    let at = min cursor (byte_len t) in
    if is_char_boundary t at
    then confirms_at m t at ch (last? (char_indices 0 (slice_to t at)))
    else false

unfoldable pub is_duplicate_frame : EditModel → Text → ℕ → ℕ → Bool
is_duplicate_frame m t cursor anchor =
    text_eq t m.prev_text && cursor == m.prev_cursor && anchor == m.prev_anchor

unfoldable pub clear_prev_surrounding : EditModel → EditModel
clear_prev_surrounding m = record m { prev_text = []; prev_cursor = 0; prev_anchor = 0 }

module _ {S : Type 0} (o : OutputSink S) where
  unfoldable pub apply : EditModel → ℕ → Text → ℕ → ℕ → S → DeleteUnit → EditModel × S
  unfolding Tiers.apply
  apply m backspaces text serial time sink delete_unit =
      let (strategy, sink') =
        Tiers.apply o m.strategy backspaces text serial time sink delete_unit in
      (record m { strategy = strategy }, sink')

  unfoldable pub apply_forward_key : EditModel → ℕ → Text → ℕ → ℕ → S → EditModel × S
  unfolding Tiers.apply_forward_key
  apply_forward_key m backspaces text serial time sink =
      let (strategy, sink') =
        Tiers.apply_forward_key o m.strategy backspaces text serial time sink in
      (record m { strategy = strategy }, sink')
