-- ===== src/Wayland/Dispatch.antt =====
-- crates/wayland-adapter/src/dispatch.rs and dispatch_v1.rs: the events of the input method, of its
-- context and of its keyboard grab, in both versions of the protocol. A keymap is what
-- `XkbState::from_fd` makes of it. The events that only write to the log are left out.
use daklak_rs.Prelude.{
  ℕ, ◌+◌, Bool, true, false, not, ◌&&◌, ◌||◌, ◌∷◌, [], ◌++◌, Option, leb, ◌==◌, if◌then◌else◌,
  or_else,
}
use daklak_rs.Prelude.Int.{ℤ}
use daklak_rs.Text.{Text, codes}
use daklak_rs.Keymap.Xkb.{Xkbcommon}
use daklak_rs.Emitter.{ModifierSnapshot}
use daklak_rs.Wayland.Frame
use daklak_rs.Wayland.Frame.{
  FrameEvent, activate, deactivate, unavailable, surrounding, content_purpose, change_reason,
}
use daklak_rs.Wayland.Repeat
use daklak_rs.Wayland.State.{AdapterState, send, vk_keymap, ctx_modifiers_map, apply_event}
use daklak_rs.Wayland.Context.{AdapterHandler, WaylandAdapter}
use daklak_rs.Wayland.Adapter.{
  dispatch_key_press, dispatch_key_release, dispatch_key_repeat_inner, handle_modifiers,
  apply_done_frame,
}

-- The state of a key, as the protocol library decodes it.
pub data WireKeyState : Type 0 where
  released pressed repeated : WireKeyState
  unknown : ℕ → WireKeyState

pub data KeyboardEvent (K : Type 0) : Type 0 where
  keymap : Option K → KeyboardEvent K
  key_event : ℕ → ℕ → WireKeyState → KeyboardEvent K
  modifiers : ModifierSnapshot → KeyboardEvent K
  repeat_info : ℤ → ℤ → KeyboardEvent K

pub data InputMethodEvent : Type 0 where
  frame_event : FrameEvent → InputMethodEvent
  done : InputMethodEvent

pub data ContextEvent : Type 0 where
  v1_activate v1_deactivate v1_reset : ContextEvent
  v1_surrounding : Text → ℕ → ℕ → ContextEvent
  v1_content_type : ℕ → ContextEvent
  commit_state : ℕ → ContextEvent

-- The numbers of the purposes from 9 on are one higher in version 3.
unfoldable pub purpose_v3 : ℕ → ℕ
purpose_v3 purpose = if leb 9 purpose then purpose + 1 else purpose

abbrev pub is_deactivate : FrameEvent → Bool
is_deactivate deactivate = true
is_deactivate _ = false

-- The names of the modifier map, each with its NUL.
abbrev pub modifier_names : Text
modifier_names =
    codes "Shift" ++ 0 ∷ (codes "Control" ++ 0 ∷ (codes "Mod1" ++ 0 ∷ (codes "Mod4" ++ 0 ∷ [])))

module _ {H K : Type 0} where
  abbrev pub on_state : (AdapterState K → AdapterState K) → WaylandAdapter H K → WaylandAdapter H K
  on_state f a = record a { state = f a.state }

module _ {K : Type 0} where
  abbrev pub cancel_repeat : AdapterState K → AdapterState K
  unfolding Repeat.cancel
  cancel_repeat s = record s { client_repeat = Repeat.cancel s.client_repeat }

  -- The fallback keymap for the virtual keyboard, once.
  unfoldable pub pass_keymap : AdapterState K → AdapterState K
  pass_keymap s =
      if not s.keymap_init && s.vk then record (send vk_keymap s) { keymap_init = true } else s

  abbrev pub first_keymap : Option K → AdapterState K → AdapterState K
  first_keymap k s = record s { xkb = or_else s.xkb k }

module _ {H K : Type 0} (lib : Xkbcommon K) (h : AdapterHandler H K) where
  unfoldable pub on_key : ℕ → ℕ → ℕ → WireKeyState → WaylandAdapter H K → WaylandAdapter H K
  unfolding dispatch_key_press dispatch_key_repeat_inner dispatch_key_release
  on_key now time key pressed a = dispatch_key_press lib h now time key a
  on_key now time key repeated a = dispatch_key_repeat_inner lib h now time key false a
  on_key now time key released a = dispatch_key_release h now time key a
  on_key now time key (unknown n) a =
      if n == 2
      then dispatch_key_repeat_inner lib h now time key false a
      else dispatch_key_release h now time key a

  -- The events of a keyboard in both versions, but for the keymap.
  unfoldable pub on_keyboard : ℕ → KeyboardEvent K → WaylandAdapter H K → WaylandAdapter H K
  unfolding on_key handle_modifiers Repeat.set_info
  on_keyboard now (keymap k) a = on_state (first_keymap k) a
  on_keyboard now (key_event time kc state) a = on_key now time kc state a
  on_keyboard now (modifiers m) a = handle_modifiers lib h now m a
  on_keyboard now (repeat_info rate delay) a =
      on_state (λ s. record s { client_repeat = Repeat.set_info rate delay s.client_repeat }) a

  -- The keyboard grab of version 2.
  unfoldable pub on_grab : ℕ → KeyboardEvent K → WaylandAdapter H K → WaylandAdapter H K
  unfolding on_keyboard pass_keymap
  on_grab now (keymap k) a = on_keyboard now (keymap k) (on_state pass_keymap a)
  on_grab now event a = on_keyboard now event a

  -- The input method of version 2.
  unfoldable pub on_input_method : ℕ → InputMethodEvent → WaylandAdapter H K → WaylandAdapter H K
  unfolding apply_event apply_done_frame Repeat.cancel
  on_input_method now (frame_event e) a =
      on_state (λ s. apply_event e (if is_deactivate e then cancel_repeat s else s)) a
  on_input_method now done a = apply_done_frame h now a

  -- The input method of version 1 and its context.
  unfoldable pub on_context : ℕ → ContextEvent → WaylandAdapter H K → WaylandAdapter H K
  unfolding apply_event apply_done_frame purpose_v3 Frame.reset Repeat.cancel
  on_context now v1_activate a =
      on_state
        (λ s.
          apply_event activate
            (record (send (ctx_modifiers_map modifier_names) s) { im_ctx_v1 = true }))
        a
  on_context now v1_deactivate a =
      apply_done_frame h now
        (on_state (λ s. apply_event deactivate (cancel_repeat (record s { im_ctx_v1 = false }))) a)
  on_context now v1_reset a =
      on_state (λ s. record s { pending_frame = Frame.reset s.pending_frame }) a
  on_context now (v1_surrounding t cursor anchor) a =
      on_state (apply_event (surrounding t cursor anchor)) a
  on_context now (v1_content_type purpose) a =
      on_state (apply_event (content_purpose (purpose_v3 purpose))) a
  on_context now (commit_state serial) a =
      let ready = a.state.pending_commit || a.state.pending_frame.pending_activate in
      if ready
      then apply_done_frame h now
          (on_state (λ s. record s { serial = serial; pending_commit = false }) a)
      else on_state (λ s. record s { serial = serial }) a
