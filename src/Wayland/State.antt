-- ===== src/Wayland/State.antt =====
-- `AdapterState` of crates/wayland-adapter/src/state.rs. A proxy is its presence; what is sent over the
-- proxies is a list of requests, the latest first. The xkb state is that of
-- libxkbcommon, a parameter. Log lines are left out.
use daklak_rs.Prelude.{
  ℕ, Bool, true, false, ◌&&◌, List, [], ◌∷◌, Option, none, some, ltb, ◌==◌, if◌then◌else◌,
}
use daklak_rs.Prelude.Int.{ℤ}
use daklak_rs.Text.{Text}
use daklak_rs.Emitter.{ModifierSnapshot, SyntheticMods}
use daklak_rs.Wayland.Frame
use daklak_rs.Wayland.Frame.{
  DoneFrame, FrameEvent, FocusEvent, ImProtocol, im_v2, im_v1, TransportProfile, for_protocol,
  default_frame, activate, deactivate, unavailable, surrounding, content_purpose, change_reason,
}
use daklak_rs.Wayland.Repeat.{ClientRepeat, default_repeat}

-- The requests to the compositor: those of the virtual keyboard and of the input method of version 2,
-- and those of the context of version 1.
pub data Request : Type 0 where
  vk_key : ℕ → ℕ → ℕ → Request
  vk_modifiers : ModifierSnapshot → Request
  vk_keymap : Request
  im_commit : ℕ → Request
  im_commit_string : Text → Request
  im_delete_surrounding : ℕ → ℕ → Request
  ctx_modifiers_map : Text → Request
  ctx_key : ℕ → ℕ → ℕ → ℕ → Request
  ctx_modifiers : ℕ → ModifierSnapshot → Request
  ctx_commit_string : ℕ → Text → Request
  ctx_delete_surrounding : ℤ → ℕ → Request
  ctx_keysym : ℕ → ℕ → ℕ → ℕ → Request

-- A key and the time when it was forwarded.
abbrev pub Stamp : Type 0
Stamp = Option (ℕ × ℕ)

pub record AdapterState (K : Type 0) : Type 0 where
  pub im : Bool
  pub vk : Bool
  pub im_ctx_v1 : Bool
  pub xkb : Option K
  pub keymap_init : Bool
  pub serial : ℕ
  pub modifiers : ℕ
  pub raw_mods : ModifierSnapshot
  pub pending_frame : DoneFrame
  pub pending_commit : Bool
  pub synthetic_mods : SyntheticMods
  pub last_forwarded_key : Stamp
  pub last_forwarded_release : Stamp
  pub forwarding_repeat : Bool
  pub client_repeat : ClientRepeat
  pub pending_im_commit_ack : Bool
  pub should_exit : Bool
  pub profile : TransportProfile
  pub focus_current : Option FocusEvent
  pub sent : List Request

abbrev pub no_mods : ModifierSnapshot
no_mods = record { depressed = 0; latched = 0; locked = 0; group = 0 }

abbrev pub no_echoes : SyntheticMods
no_echoes = record { pending = 0; expected = []; emitted_at = none }

abbrev forwarded : Stamp → Stamp → Option ℕ
forwarded none _ = none
forwarded (some (kc_p, t_p)) none = some kc_p
forwarded (some (kc_p, t_p)) (some (kc_r, t_r)) =
    if kc_p == kc_r && ltb t_p t_r then none else some kc_p

module _ {K : Type 0} where
  unfoldable pub new : AdapterState K
  unfolding for_protocol
  new = record {
    im = false;
    vk = false;
    im_ctx_v1 = false;
    xkb = none;
    keymap_init = false;
    serial = 0;
    modifiers = 0;
    raw_mods = no_mods;
    pending_frame = default_frame;
    pending_commit = false;
    synthetic_mods = no_echoes;
    last_forwarded_key = none;
    last_forwarded_release = none;
    forwarding_repeat = false;
    client_repeat = default_repeat;
    pending_im_commit_ack = false;
    should_exit = false;
    profile = for_protocol im_v2;
    focus_current = none;
    sent = [];
  }

  abbrev pub send : Request → AdapterState K → AdapterState K
  send r s = record s { sent = r ∷ s.sent }

  unfoldable pub held_user_kc : AdapterState K → Option ℕ
  held_user_kc s = forwarded s.last_forwarded_key s.last_forwarded_release

  unfoldable pub press_value : AdapterState K → ℕ
  press_value s = if s.forwarding_repeat then 2 else 1

  unfoldable pub forward_on : ImProtocol → ℕ → ℕ → ℕ → AdapterState K → AdapterState K
  forward_on im_v2 time key value s = if s.vk then send (vk_key time key value) s else s
  forward_on im_v1 time key value s =
      if s.im_ctx_v1 then send (ctx_key s.serial time key value) s else s

  unfoldable pub emit_forward_key : ℕ → ℕ → ℕ → AdapterState K → AdapterState K
  unfolding forward_on
  emit_forward_key time key value s = forward_on s.profile.protocol time key value s

  abbrev on_frame : (DoneFrame → DoneFrame) → AdapterState K → AdapterState K
  on_frame f s = record s { pending_frame = f s.pending_frame }

  unfoldable pub apply_event : FrameEvent → AdapterState K → AdapterState K
  apply_event activate s = record (on_frame (λ f. record f { pending_activate = true }) s) {
    pending_commit = false;
  }
  apply_event deactivate s = on_frame (λ f. record f { pending_deactivate = true }) s
  apply_event (surrounding text cursor anchor) s =
      let st : Frame.SurroundingText = record { text = text; cursor = cursor; anchor = anchor } in
      record (on_frame (λ f. record f { surrounding_text = some st }) s) { pending_commit = true }
  apply_event (content_purpose purpose) s =
      record (on_frame (λ f. record f { purpose = purpose }) s) { pending_commit = true }
  apply_event (change_reason cause) s = on_frame (λ f. record f { change_cause = some cause }) s
  apply_event unavailable s = record s { should_exit = true }
