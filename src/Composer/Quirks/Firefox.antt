-- ===== src/Composer/Quirks/Firefox.antt =====
-- crates/daemon/src/quirks/firefox.rs.
pub mod Unit
use daklak_rs.Prelude.{
  ℕ, Bool, true, false, not, ◌&&◌, ◌||◌, Option, none, some, ◌==◌, if◌then◌else◌, last?, is_some,
}
use daklak_rs.Text.{Text, text_eq, is_whitespace}
use daklak_rs.Strategy.Types.{DeleteUnit, bytes, chars, is_chars}

pub record PendingEcho : Type 0 where
  pub expected : Text
  pub delete_echo : Text

pub record FirefoxContenteditableQuirk : Type 0 where
  pub expected_echo : Option PendingEcho
  pub delete_unit : DeleteUnit
  pub use_forward_delete : Bool
  pub forward_sticky : Bool

unfoldable pub new : FirefoxContenteditableQuirk
new = record {
  expected_echo = none;
  delete_unit = bytes;
  use_forward_delete = false;
  forward_sticky = false;
}

unfoldable pub arm_forward_sticky : FirefoxContenteditableQuirk → FirefoxContenteditableQuirk
arm_forward_sticky q = record q { forward_sticky = true }

unfoldable pub reset_forward_sticky : FirefoxContenteditableQuirk → FirefoxContenteditableQuirk
reset_forward_sticky q = record q { forward_sticky = false }

unfoldable pub reset_delete_unit_after_use :
    FirefoxContenteditableQuirk → FirefoxContenteditableQuirk
reset_delete_unit_after_use q =
    if is_chars q.delete_unit then record q { delete_unit = bytes } else q

unfoldable pub record_expected_echo :
    FirefoxContenteditableQuirk → Text → Text → FirefoxContenteditableQuirk
record_expected_echo q expected delete_echo = record q {
  expected_echo = some (record { expected = expected; delete_echo = delete_echo });
}

unfoldable pub clear : FirefoxContenteditableQuirk → FirefoxContenteditableQuirk
clear q = record q { expected_echo = none; delete_unit = bytes; use_forward_delete = false }

unfoldable pub forget_expected_echo : FirefoxContenteditableQuirk → FirefoxContenteditableQuirk
forget_expected_echo q = record q { expected_echo = none }

unfoldable pub has_pending_echo : FirefoxContenteditableQuirk → Bool
has_pending_echo q = is_some q.expected_echo

unfoldable pub reset_delete_unit : FirefoxContenteditableQuirk → FirefoxContenteditableQuirk
reset_delete_unit q = record q {
  expected_echo = none;
  delete_unit = bytes;
  use_forward_delete = false;
}

unfoldable pub is_word_boundary : ℕ → Bool
unfolding is_whitespace
is_word_boundary ch =
    is_whitespace ch
    || ch == b'.'
    || ch == b','
    || ch == b';'
    || ch == b':'
    || ch == b'!'
    || ch == b'?'
    || ch == b')'
    || ch == b']'
    || ch == b'}'

-- `chars().last().map(is_word_boundary).unwrap_or(false)`.
abbrev pub ends_at_boundary : Option ℕ → Bool
unfolding is_word_boundary
ends_at_boundary none = false
ends_at_boundary (some ch) = is_word_boundary ch

abbrev pub stale_unit : Bool → DeleteUnit
stale_unit true = bytes
stale_unit false = chars

-- A recent frame that is neither echo arms the character count, unless a retroactive edit left its word.
unfoldable pub arm_stale : FirefoxContenteditableQuirk → Bool → FirefoxContenteditableQuirk
arm_stale q retroactive_cursor_left_word =
    let unit = stale_unit retroactive_cursor_left_word in
    record q { delete_unit = unit; use_forward_delete = is_chars unit; expected_echo = none }

unfoldable pub classify :
    Option PendingEcho
    → FirefoxContenteditableQuirk
    → Text
    → Bool
    → Bool
    → FirefoxContenteditableQuirk
unfolding reset_delete_unit arm_stale is_word_boundary
classify none q before_cursor recent_action retroactive_context = q
classify (some echo) q before_cursor recent_action retroactive_context =
    let left_word = retroactive_context && ends_at_boundary (last? before_cursor) in
    let other = not (text_eq before_cursor echo.delete_echo) in
    if text_eq before_cursor echo.expected
    then reset_delete_unit q
    else if other && recent_action
    then arm_stale q left_word
    else if other
    then record q { expected_echo = none; delete_unit = bytes; use_forward_delete = false }
    else q

unfoldable pub observe_surrounding :
    FirefoxContenteditableQuirk → Text → Bool → Bool → FirefoxContenteditableQuirk
unfolding classify
observe_surrounding q before_cursor recent_action retroactive_context =
    classify q.expected_echo q before_cursor recent_action retroactive_context
