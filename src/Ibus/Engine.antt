-- ===== src/Ibus/Engine.antt =====
-- `Engine` of crates/ibus-adapter/src/engine.rs over any handler, with what it emits. The factory, the
-- connection and the log are left out. A signal that fails to go out is only logged.
use Prim.Native.Nat.{bit_and}
use daklak_rs.Prelude.{
  ℕ, Bool, true, false, not, ◌&&◌, List, [], ◌∷◌, ◌++◌, map, Option, none, some, ltb, leb, ◌+◌,
  if◌then◌else◌, is_empty,
}
use daklak_rs.Prelude.Int.{ℤ}
use daklak_rs.Text.{Text}
use daklak_rs.Strategy.Types.{
  BackspaceMethod, surrounding_text, forward_key, KeyDecision, consumed, forward_raw,
}
use daklak_rs.Ibus.Keyval.{
  ibus_release_mask, keyval_to_char, keyval_to_evdev, ibus_state_to_modifiers,
}
use daklak_rs.Ibus.Sink
use daklak_rs.Ibus.Sink.{IbusSink, PendingDelete, PendingForward}

-- The trait `IbusHandler`, over the state of the daemon.
pub record IbusHandler (D : Type 0) : Type 0 where
  pub process_key : ℕ → Option ℕ → D → D × KeyDecision
  pub apply_with_sink : ℕ → Text → ℕ → IbusSink → D → D × IbusSink
  pub observe_surrounding : Text → ℕ → ℕ → D → D
  pub set_modifiers : ℕ → D → D
  pub activate_ibus : BackspaceMethod → D → D
  pub deactivate_ibus : D → D
  pub update_method : BackspaceMethod → D → D
  pub full_reset : D → D

pub record EngineState (D : Type 0) : Type 0 where
  pub daemon : D
  pub has_surrounding : Bool
  pub caps_cleared_surrounding : Bool
  pub client_app_id : Option Text

-- The signals, and the pause between the forwarded keys and the commits.
pub data Signal : Type 0 where
  delete_surrounding_text : ℤ → ℕ → Signal
  forward_key_event : ℕ → ℕ → ℕ → Signal
  commit_text : Text → Signal
  require_surrounding_text barrier : Signal

unfoldable pub method_for_capability : Bool → BackspaceMethod
method_for_capability has_surrounding = if has_surrounding then surrounding_text else forward_key

unfoldable pub should_upgrade_on_surrounding : Bool → Bool → Bool
should_upgrade_on_surrounding has_surrounding caps_cleared = not has_surrounding && not caps_cleared

-- `to_ascii_lowercase`.
abbrev pub lower : ℕ → ℕ
lower c = if leb b'A' c && leb c b'Z' then c + 32 else c

abbrev pub pause : IbusSink → List Signal
pause s = if not (is_empty s.forwards) && not (is_empty s.commits) then barrier ∷ [] else []

-- What a sink is drained to, in order.
unfoldable pub drain : IbusSink → List Signal
drain s =
    map (λ (d : PendingDelete). delete_surrounding_text d.offset d.n_chars) s.deletes
    ++ (map (λ (f : PendingForward). forward_key_event f.keyval f.keycode f.state) s.forwards
        ++ (pause s ++ map commit_text s.commits))

module _ {D : Type 0} where
  unfoldable pub new : D → EngineState D
  new daemon = record {
    daemon = daemon;
    has_surrounding = true;
    caps_cleared_surrounding = false;
    client_app_id = none;
  }

module _ {D : Type 0} (h : IbusHandler D) where
  abbrev on_daemon : (D → D) → EngineState D → EngineState D
  on_daemon f s = record s { daemon = f s.daemon }

  -- The state, the signals, and the reply.
  unfoldable pub answer : D × KeyDecision → EngineState D → (EngineState D × List Signal) × Bool
  unfolding drain
  answer (d, forward_raw) s = ((record s { daemon = d }, []), false)
  answer (d, consumed) s = ((record s { daemon = d }, []), true)
  answer (d, KeyDecision.apply method backspaces commit) s =
      let (d', sink) = h.apply_with_sink backspaces commit 0 Sink.new d in
      ((record s { daemon = d' }, drain sink), true)

  unfoldable pub process_key_event :
      ℕ → ℕ → ℕ → EngineState D → (EngineState D × List Signal) × Bool
  unfolding answer keyval_to_evdev keyval_to_char ibus_state_to_modifiers
  process_key_event keyval keycode state s =
      if ltb 0 (bit_and state ibus_release_mask)
      then ((s, []), false)
      else answer
          (h.process_key (keyval_to_evdev keyval keycode) (keyval_to_char keyval)
            (h.set_modifiers (ibus_state_to_modifiers state) s.daemon))
          s

  unfoldable pub do_focus_in : Option Text → EngineState D → EngineState D × List Signal
  unfolding method_for_capability
  do_focus_in app_id s = (
    record s {
      daemon = h.activate_ibus (method_for_capability s.has_surrounding) s.daemon;
      caps_cleared_surrounding = false;
      client_app_id = app_id;
    },
    require_surrounding_text ∷ [],
  )

  unfoldable pub focus_in_id : Text → EngineState D → EngineState D × List Signal
  unfolding do_focus_in
  focus_in_id client s = do_focus_in (if is_empty client then none else some (map lower client)) s

  unfoldable pub do_focus_out : EngineState D → EngineState D
  do_focus_out s = record (on_daemon h.deactivate_ibus s) { client_app_id = none }

  unfoldable pub reset : EngineState D → EngineState D
  reset s = on_daemon h.full_reset s

  unfoldable pub disable : EngineState D → EngineState D
  disable s = on_daemon h.deactivate_ibus s

  unfoldable pub set_capabilities : ℕ → EngineState D → EngineState D
  unfolding method_for_capability
  set_capabilities caps s =
      let has_surrounding = ltb 0 (bit_and caps 0x20) in
      record s {
        daemon = h.update_method (method_for_capability has_surrounding) s.daemon;
        has_surrounding = has_surrounding;
        caps_cleared_surrounding = not has_surrounding;
      }

  -- The text is none where the value holds none.
  unfoldable pub set_surrounding_text : Option Text → ℕ → ℕ → EngineState D → EngineState D
  unfolding should_upgrade_on_surrounding
  set_surrounding_text none cursor anchor s = s
  set_surrounding_text (some t) cursor anchor s =
      let upgraded = record s {
        daemon = h.update_method surrounding_text s.daemon;
        has_surrounding = true;
      } in
      let s' =
        if should_upgrade_on_surrounding s.has_surrounding s.caps_cleared_surrounding
        then upgraded
        else s in
      on_daemon (h.observe_surrounding t cursor anchor) s'
