-- ===== src/Composer/Quirks/Firefox/Unit.antt =====
-- The delete unit of crates/daemon/src/quirks/firefox.rs over every sequence of its operations.
use daklak_rs.Prelude.{◌≡◌, refl, Bool, true, not, ◌||◌, Option, none, some, arith}
use daklak_rs.Text.{Text}
use daklak_rs.Strategy.Types.{is_chars}
use daklak_rs.Composer.Quirks.Firefox.{
  FirefoxContenteditableQuirk, PendingEcho, new, arm_forward_sticky, reset_forward_sticky,
  reset_delete_unit_after_use, record_expected_echo, clear, forget_expected_echo,
  observe_surrounding, classify, arm_stale,
}

-- One operation of the quirk.
pub data Step : FirefoxContenteditableQuirk → FirefoxContenteditableQuirk → Type 0 where
  arming : (q : FirefoxContenteditableQuirk) → Step q (arm_forward_sticky q)
  unsticking : (q : FirefoxContenteditableQuirk) → Step q (reset_forward_sticky q)
  using : (q : FirefoxContenteditableQuirk) → Step q (reset_delete_unit_after_use q)
  expecting :
      (q : FirefoxContenteditableQuirk) (expected delete_echo : Text)
      → Step q (record_expected_echo q expected delete_echo)
  clearing : (q : FirefoxContenteditableQuirk) → Step q (clear q)
  forgetting : (q : FirefoxContenteditableQuirk) → Step q (forget_expected_echo q)
  observing :
      (q : FirefoxContenteditableQuirk) (before_cursor : Text) (recent_action context : Bool)
      → Step q (observe_surrounding q before_cursor recent_action context)

pub data Reachable : FirefoxContenteditableQuirk → Type 0 where
  start : Reachable new
  next : {q q' : FirefoxContenteditableQuirk} → Reachable q → Step q q' → Reachable q'

-- Characters are counted only while the forward delete is asked for.
abbrev pub IsConsistent : FirefoxContenteditableQuirk → Type 0
IsConsistent q = (not (is_chars q.delete_unit) || q.use_forward_delete) ≡ true

classify-IsConsistent :
    (echo : Option PendingEcho) (q : FirefoxContenteditableQuirk) (t : Text) (recent context : Bool)
    → IsConsistent q
    → IsConsistent (classify echo q t recent context)
unfolding classify arm_stale
classify-IsConsistent none q t recent context h = h
classify-IsConsistent (some echo) q t recent context h = ground arith

Step-IsConsistent :
    {q q' : FirefoxContenteditableQuirk} → Step q q' → IsConsistent q → IsConsistent q'
unfolding arm_forward_sticky reset_forward_sticky reset_delete_unit_after_use record_expected_echo
    clear forget_expected_echo observe_surrounding
Step-IsConsistent (arming q) h = h
Step-IsConsistent (unsticking q) h = h
Step-IsConsistent (using q) h = ground arith
Step-IsConsistent (expecting q e d) h = h
Step-IsConsistent (clearing q) h = refl
Step-IsConsistent (forgetting q) h = h
Step-IsConsistent (observing q t recent context) h =
    classify-IsConsistent q.expected_echo q t recent context h

-- After any sequence of operations of the quirk, the delete unit is characters only while the quirk
-- asks for the ForwardKey channel.
pub Reachable-IsConsistent : {q : FirefoxContenteditableQuirk} → Reachable q → IsConsistent q
unfolding new
Reachable-IsConsistent start = refl
Reachable-IsConsistent (next r s) = Step-IsConsistent s (Reachable-IsConsistent r)
