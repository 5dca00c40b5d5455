-- ===== src/Wayland/Frame.antt =====
-- crates/wayland-adapter/src/frame.rs, and the public types of lib.rs: what a frame of the input method
-- carries, and what the transport can do.
use daklak_rs.Prelude.{ℕ, Bool, true, false, Option, none}
use daklak_rs.Text.{Text}

pub record SurroundingText : Type 0 where
  pub text : Text
  pub cursor : ℕ
  pub anchor : ℕ

pub record DoneFrame : Type 0 where
  pub pending_activate : Bool
  pub pending_deactivate : Bool
  pub surrounding_text : Option SurroundingText
  pub change_cause : Option ℕ
  pub purpose : ℕ

abbrev pub default_frame : DoneFrame
default_frame = record {
  pending_activate = false;
  pending_deactivate = false;
  surrounding_text = none;
  change_cause = none;
  purpose = 0;
}

unfoldable pub reset : DoneFrame → DoneFrame
reset f = record f {
  pending_activate = false;
  pending_deactivate = false;
  surrounding_text = none;
  change_cause = none;
}

unfoldable pub end_session : DoneFrame → DoneFrame
end_session f = record f { purpose = 0 }

pub data FrameEvent : Type 0 where
  activate deactivate unavailable : FrameEvent
  surrounding : Text → ℕ → ℕ → FrameEvent
  content_purpose change_reason : ℕ → FrameEvent

pub data ImProtocol : Type 0 where
  im_v2 im_v1 : ImProtocol

pub data FocusSource : Type 0 where
  wlr_foreign_toplevel kde_plasma no_source : FocusSource

pub record TransportProfile : Type 0 where
  pub protocol : ImProtocol
  pub focus : FocusSource
  pub has_vk_keyboard : Bool
  pub has_keysym_commit : Bool
  pub delivers_commit_string : Bool
  pub heartbeats_done : Bool
  pub can_receive_surrounding : Bool

unfoldable pub for_protocol : ImProtocol → TransportProfile
for_protocol im_v2 = record {
  protocol = im_v2;
  focus = no_source;
  has_vk_keyboard = true;
  has_keysym_commit = false;
  delivers_commit_string = true;
  heartbeats_done = false;
  can_receive_surrounding = true;
}
for_protocol im_v1 = record {
  protocol = im_v1;
  focus = no_source;
  has_vk_keyboard = false;
  has_keysym_commit = true;
  delivers_commit_string = true;
  heartbeats_done = true;
  can_receive_surrounding = true;
}

-- The text, the cursor and the anchor, as they reach the handler.
pub record FrameSnapshot : Type 0 where
  pub activate : Bool
  pub deactivate : Bool
  pub surrounding_text : Option (Text × ℕ × ℕ)
  pub purpose : ℕ
  pub app_id : Option Text
  pub is_xwayland : Bool

-- `FocusEvent` of focus/mod.rs.
pub record FocusEvent : Type 0 where
  pub app_id : Option Text
  pub is_xwayland : Bool
