-- ===== src/Composer/Apply.antt =====
-- How `Composer` of crates/daemon/src/composer.rs sends an edit to a sink: `apply`, `apply_to_sink`
-- and `apply_confirmed_repair_to_sink`. Log lines are left out.
pub mod Edits
use daklak_rs.Prelude.{
  ℕ, ◌-◌, Bool, true, false, not, ◌&&◌, ◌||◌, ltb, if◌then◌else◌, length, drop, all,
}
use daklak_rs.Text.{Text, len_utf8, is_ascii}
use daklak_rs.Strategy.Types.{bytes, OutputSink, is_surrounding}
use daklak_rs.Engine.State.{VnkeyEngine}
use daklak_rs.Composer.Words.{prefix_after_char_delete}
use daklak_rs.Composer.Quirks.Firefox
use daklak_rs.Composer.EditModel
use daklak_rs.Composer.EditModel.{EditModel, shadow_text}
use daklak_rs.Composer.State.{Composer, get_method, refresh_retroactive_context_after_apply}

-- `commit.is_ascii()`.
abbrev pub all_ascii : Text → Bool
all_ascii = all is_ascii

-- `before.chars().rev().take(backspaces).any(|c| c.len_utf8() > 1)`.
unfoldable pub deletes_multibyte : Text → ℕ → Bool
unfolding len_utf8
deletes_multibyte before backspaces =
    not (all (λ c. not (ltb 1 (len_utf8 c))) (drop (length before - backspaces) before))

-- `multibyte_retroactive_revert`.
unfoldable pub is_multibyte_revert : Bool → Text → ℕ → Text → Bool
unfolding deletes_multibyte
is_multibyte_revert retroactive before backspaces commit =
    retroactive
    && ltb 0 backspaces
    && all_ascii commit
    && ltb backspaces (length before)
    && deletes_multibyte before backspaces

module _ {E : Type 0} where
  -- `quirk_requests_forward` arms the sticky flag.
  unfoldable pub arm_forward : Composer E → Composer E
  unfolding Firefox.arm_forward_sticky
  arm_forward c =
      if c.firefox.use_forward_delete
      then record c { firefox = Firefox.arm_forward_sticky c.firefox }
      else c

  -- `used_forward_key`, over the armed composer.
  unfoldable pub uses_forward_key : ℕ → Text → Composer E → Bool
  unfolding is_multibyte_revert
  uses_forward_key backspaces commit c =
      c.firefox.use_forward_delete
      || c.firefox.forward_sticky
      || is_multibyte_revert c.retroactive_context (shadow_text c.edit) backspaces commit

  -- The echoes to wait for, from the shadow before the edit.
  unfoldable pub expect_echo : Text → ℕ → Composer E → Composer E
  unfolding prefix_after_char_delete Firefox.record_expected_echo
  expect_echo before backspaces c =
      if ltb 0 backspaces && is_surrounding (get_method c)
      then record c {
        firefox =
            Firefox.record_expected_echo c.firefox (shadow_text c.edit)
              (prefix_after_char_delete before backspaces);
      }
      else c

module _ {E S : Type 0} (o : OutputSink S) where
  -- The edit goes out on the channel chosen.
  unfoldable pub send_edit : Bool → ℕ → Text → ℕ → ℕ → S → Composer E → Composer E × S
  unfolding EditModel.apply EditModel.apply_forward_key Firefox.reset_delete_unit_after_use
  send_edit true backspaces commit serial time sink c =
      let (edit, sink') = EditModel.apply_forward_key o c.edit backspaces commit serial time sink in
      (record c { edit = edit }, sink')
  send_edit false backspaces commit serial time sink c =
      let (edit, sink') =
        EditModel.apply o c.edit backspaces commit serial time sink c.firefox.delete_unit in
      (record c { edit = edit; firefox = Firefox.reset_delete_unit_after_use c.firefox }, sink')

module _ {E S : Type 0} (vnkey : VnkeyEngine E) (o : OutputSink S) where
  unfoldable pub apply : ℕ → Text → ℕ → S → Composer E → Composer E × S
  unfolding EditModel.apply refresh_retroactive_context_after_apply
  apply backspaces commit time sink c =
      let (edit, sink') = EditModel.apply o c.edit backspaces commit 0 time sink bytes in
      (refresh_retroactive_context_after_apply vnkey backspaces (record c { edit = edit }), sink')

  unfoldable pub apply_to_sink_inner : ℕ → Text → ℕ → ℕ → S → Bool → Composer E → Composer E × S
  unfolding arm_forward uses_forward_key send_edit expect_echo
      refresh_retroactive_context_after_apply
  apply_to_sink_inner backspaces commit serial time sink preserve_engine c =
      let armed = arm_forward c in
      let (sent, sink') =
        send_edit o (uses_forward_key backspaces commit armed) backspaces commit serial time sink
          armed in
      let refreshed =
        if preserve_engine
        then sent
        else refresh_retroactive_context_after_apply vnkey backspaces sent in
      (expect_echo (shadow_text c.edit) backspaces refreshed, sink')

  unfoldable pub apply_to_sink : ℕ → Text → ℕ → ℕ → S → Composer E → Composer E × S
  unfolding apply_to_sink_inner
  apply_to_sink backspaces commit serial time sink c =
      apply_to_sink_inner backspaces commit serial time sink false c

  unfoldable pub apply_confirmed_repair_to_sink : ℕ → Text → ℕ → ℕ → S → Composer E → Composer E × S
  unfolding apply_to_sink_inner Firefox.forget_expected_echo
  apply_confirmed_repair_to_sink backspaces commit serial time sink c =
      let (sent, sink') = apply_to_sink_inner backspaces commit serial time sink true c in
      (record sent { firefox = Firefox.forget_expected_echo sent.firefox }, sink')
