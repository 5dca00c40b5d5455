-- ===== src/Strategy/Types.antt =====
-- The shared types of crates/edit-strategy/src/lib.rs and `detect_method` of capability.rs.
use daklak_rs.Prelude.{ℕ, Bool, true, false, if◌then◌else◌}
use daklak_rs.Text.{Text}

pub data BackspaceMethod : Type 0 where
  surrounding_text forward_key : BackspaceMethod

pub data DeleteUnit : Type 0 where
  bytes chars : DeleteUnit

pub data KeyState : Type 0 where
  pressed released : KeyState

pub data KeyDecision : Type 0 where
  consumed forward_raw : KeyDecision
  apply : BackspaceMethod → ℕ → Text → KeyDecision

-- The trait `OutputSink`, over the state of its implementation.
pub record OutputSink (S : Type 0) : Type 0 where
  pub delete_surrounding_text : S → ℕ → ℕ → ℕ → ℕ → S
  pub commit_string : S → Text → S
  pub commit : S → ℕ → S
  pub vk_key : S → ℕ → ℕ → KeyState → S
  pub vk_modifiers : S → ℕ → ℕ → ℕ → ℕ → S
  pub vk_commit_char : S → ℕ → ℕ → S × Bool
  pub commit_via_keysym : S → ℕ → ℕ → Text → S × Bool
  pub commit_key_channel_text : S → ℕ → ℕ → Text → S × Bool

pub record CapabilityProbe : Type 0 where
  pub surrounding_text_seen : Bool

unfoldable pub detect_method : CapabilityProbe → BackspaceMethod
detect_method probe = if probe.surrounding_text_seen then surrounding_text else forward_key

abbrev pub is_surrounding : BackspaceMethod → Bool
is_surrounding surrounding_text = true
is_surrounding forward_key = false

abbrev pub is_chars : DeleteUnit → Bool
is_chars chars = true
is_chars bytes = false
