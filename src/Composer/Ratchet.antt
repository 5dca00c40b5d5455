-- ===== src/Composer/Ratchet.antt =====
-- `commit_string_functional` of crates/daemon/src/composer.rs, and `forward_sticky` of quirks/firefox.rs,
-- through a frame and through an edit: only a reset or a new composer undoes them.
pub mod Steps
pub mod Sticky
use daklak_rs.Prelude.{
  ℕ, ◌≡◌, refl, sym, subst, arith, Bool, true, false, not, ◌&&◌, ◌||◌, Option, none, some, ltb,
  ◌==◌, if◌then◌else◌, is_empty, u32, last?, ◌-◌, [], ◌∷◌, ◌++◌,
}
use daklak_rs.Text.{Text, text_eq, byte_len, char_indices}
use daklak_rs.Strategy.Types.{BackspaceMethod, OutputSink, is_surrounding}
use daklak_rs.Engine
use daklak_rs.Engine.Context.{InputMethod}
use daklak_rs.Engine.State.{VnkeyEngine}
use daklak_rs.Composer.EditModel
use daklak_rs.Composer.Plan.{
  PendingRaw, PendingEngineEdit, KeyFinishPlan, forward, is_pending_raw, get_pending_raw, observe,
}
use daklak_rs.Composer.Words.{text_before_cursor, current_word_before_cursor}
use daklak_rs.Composer.Quirks.Firefox
use daklak_rs.Composer.Quirks.Firefox.{FirefoxContenteditableQuirk, PendingEcho}
use daklak_rs.Composer.State
use daklak_rs.Composer.State.{Composer}
use daklak_rs.Composer.Keys
use daklak_rs.Composer.Apply
use daklak_rs.Composer.Confirm
use daklak_rs.Composer.Confirm.{RetroEdit}
use daklak_rs.Composer.Frames

-- What holds of `commit_string_functional` and of the quirk's `forward_sticky`, and is kept as the one
-- goes off and as the other comes on.
pub record Latch : Type 1 where
  pub kept : Bool → Bool → Type 0
  pub goes_off : {x y : Bool} → kept x y → kept false y
  pub comes_on : {x y : Bool} → kept x y → kept x true

abbrev pub IsLatched : {E : Type 0} → Latch → Composer E → Type 0
IsLatched latch c = latch.kept c.commit_string_functional c.firefox.forward_sticky

classify-sticky :
    (echo : Option PendingEcho) (q : FirefoxContenteditableQuirk) (t : Text) (recent context : Bool)
    → (Firefox.classify echo q t recent context).forward_sticky ≡ q.forward_sticky
unfolding Firefox.classify Firefox.reset_delete_unit Firefox.arm_stale
classify-sticky none q t recent context = refl
classify-sticky (some echo) q t recent context = same (text_eq t echo.expected) _ _ refl (
    same (not (text_eq t echo.delete_echo) && recent) _ _ refl
      (same (not (text_eq t echo.delete_echo)) _ _ refl refl))
  where
    same :
        (b : Bool) (x y : FirefoxContenteditableQuirk)
        → x.forward_sticky ≡ q.forward_sticky
        → y.forward_sticky ≡ q.forward_sticky
        → (if b then x else y).forward_sticky ≡ q.forward_sticky
    same true x y hx hy = hx
    same false x y hx hy = hy

used-sticky :
    (q : FirefoxContenteditableQuirk)
    → (Firefox.reset_delete_unit_after_use q).forward_sticky ≡ q.forward_sticky
unfolding Firefox.reset_delete_unit_after_use
used-sticky q = ground arith

module _ (latch : Latch) where
  off_or : (b x y : Bool) → latch.kept x y → latch.kept (if b then false else x) y
  off_or true x y h = latch.goes_off h
  off_or false x y h = h

  module _ {E : Type 0} where
    either-IsLatched :
        (b : Bool) (x y : Composer E)
        → IsLatched latch x
        → IsLatched latch y
        → IsLatched latch (if b then x else y)
    either-IsLatched true x y hx hy = hx
    either-IsLatched false x y hx hy = hy

    either-IsLatched_pair :
        {R : Type 0} (b : Bool) (x y : Composer E × R)
        → IsLatched latch x.0
        → IsLatched latch y.0
        → IsLatched latch (if b then x else y).0
    either-IsLatched_pair true x y hx hy = hx
    either-IsLatched_pair false x y hx hy = hy

    pub revalidate-IsLatched :
        (t : Text) (c : Composer E)
        → IsLatched latch c
        → IsLatched latch (Frames.revalidate_live_confirmation t c)
    unfolding Frames.revalidate_live_confirmation
    revalidate-IsLatched t c h = either-IsLatched _ _ c h h

    observe_firefox-IsLatched :
        (t : Text) (recent : Bool) (c : Composer E)
        → IsLatched latch c
        → IsLatched latch (Frames.observe_firefox t recent c)
    unfolding Frames.observe_firefox
    observe_firefox-IsLatched t recent c h =
        let q = Firefox.observe_surrounding c.firefox t recent c.retroactive_context in
        subst
          (λ y.
            latch.kept
              (if q.use_forward_delete || q.forward_sticky
                then false
                else c.commit_string_functional)
              y)
          (sym (
            unfold Firefox.observe_surrounding in
            classify-sticky c.firefox.expected_echo c.firefox t recent c.retroactive_context))
          (off_or (q.use_forward_delete || q.forward_sticky) _ _ h)

    arm_forward-IsLatched :
        (c : Composer E) → IsLatched latch c → IsLatched latch (Apply.arm_forward c)
    unfolding Apply.arm_forward
    arm_forward-IsLatched c h =
        either-IsLatched c.firefox.use_forward_delete _ _ (latch.comes_on h) h

    expect_echo-IsLatched :
        (t : Text) (n : ℕ) (c : Composer E)
        → IsLatched latch c
        → IsLatched latch (Apply.expect_echo t n c)
    unfolding Apply.expect_echo
    expect_echo-IsLatched t n c h =
        either-IsLatched (ltb 0 n && is_surrounding c.edit.strategy.method) _ _ h h

    sync_frame-IsLatched :
        (t : Text) (cursor anchor ch : ℕ) (c : Composer E)
        → IsLatched latch c
        → IsLatched latch (Confirm.sync_frame t cursor anchor ch c)
    unfolding Confirm.sync_frame
    sync_frame-IsLatched t cursor anchor ch c h = h

  module _ {E : Type 0} (vnkey : VnkeyEngine E) where
    seed-IsLatched :
        (w : Text) (c : Composer E) → IsLatched latch c → IsLatched latch (State.seed vnkey w c)
    unfolding State.seed
    seed-IsLatched w c h = either-IsLatched (is_empty w) _ _ h h

    settle-IsLatched :
        (w : Text) (c : Composer E) → IsLatched latch c → IsLatched latch (Confirm.settle vnkey w c)
    unfolding Confirm.settle State.reseed State.reset_engine
    settle-IsLatched w c h = seed-IsLatched w (State.reset_engine vnkey c) h

    replay_raw_key-IsLatched :
        (ch : ℕ) (w t : Text) (cursor anchor : ℕ) (c : Composer E)
        → IsLatched latch c
        → IsLatched latch (Confirm.replay_raw_key vnkey ch w t cursor anchor c).0
    unfolding Confirm.replay_raw_key State.reseed State.reset_engine Confirm.sync_frame
    replay_raw_key-IsLatched ch w t cursor anchor c h =
        let seeded = seed-IsLatched w (State.reset_engine vnkey c) h in
        either-IsLatched_pair _ _ _ seeded (
          settle-IsLatched (w ++ ch ∷ [])
            (Confirm.sync_frame t cursor anchor ch (State.reseed vnkey w c)) seeded)

    confirm_stash-IsLatched :
        (edit : Option PendingEngineEdit) (ch : ℕ) (w t : Text) (cursor anchor : ℕ) (c : Composer E)
        → IsLatched latch c
        → IsLatched latch (Confirm.confirm_stash vnkey edit ch w t cursor anchor c).0
    unfolding Confirm.confirm_stash Confirm.sync_frame
    confirm_stash-IsLatched none ch w t cursor anchor c h =
        replay_raw_key-IsLatched ch w t cursor anchor c h
    confirm_stash-IsLatched (some stash) ch w t cursor anchor c h =
        either-IsLatched_pair _ _ _ h (replay_raw_key-IsLatched ch w t cursor anchor c h)

    confirm_at-IsLatched :
        (p : PendingRaw) (i : ℕ) (t : Text) (cursor anchor : ℕ) (b : Text) (c : Composer E)
        → IsLatched latch c
        → IsLatched latch (Confirm.confirm_at vnkey p i t cursor anchor b c).0
    unfolding Confirm.confirm_at
    confirm_at-IsLatched p i t cursor anchor b c h =
        let synced = Confirm.sync_frame t cursor anchor p.ch c in
        either-IsLatched_pair (not (Confirm.insertion_proven t cursor b p.ch c) || not p.repairable)
          _ _
          (settle-IsLatched (current_word_before_cursor b (u32 (byte_len b))) synced
            (sync_frame-IsLatched t cursor anchor p.ch c h))
          (confirm_stash-IsLatched p.edit p.ch _ t cursor anchor c h)

    confirm_last-IsLatched :
        (p : Option PendingRaw) (l : Option (ℕ × ℕ)) (t : Text) (cursor anchor : ℕ) (b : Text)
        (c : Composer E)
        → IsLatched latch c
        → IsLatched latch (Confirm.confirm_last vnkey p l t cursor anchor b c).0
    unfolding Confirm.confirm_last
    confirm_last-IsLatched none l t cursor anchor b c h = h
    confirm_last-IsLatched (some p) none t cursor anchor b c h = h
    confirm_last-IsLatched (some p) (some (i, actual)) t cursor anchor b c h =
        either-IsLatched_pair (actual == p.ch) _ _ (confirm_at-IsLatched p i t cursor anchor b c h)
          h

    follow_frame-IsLatched :
        (t : Text) (cursor anchor : ℕ) (confirmed deletion reseeds : Bool) (c : Composer E)
        → IsLatched latch c
        → IsLatched latch (Frames.follow_frame vnkey t cursor anchor confirmed deletion reseeds c)
    unfolding Frames.follow_frame State.reset_engine
    follow_frame-IsLatched t cursor anchor true true reseeds c h = h
    follow_frame-IsLatched t cursor anchor false true reseeds c h = h
    follow_frame-IsLatched t cursor anchor confirmed false true c h = settle-IsLatched _ c h
    follow_frame-IsLatched t cursor anchor confirmed false false c h = h

    trust_frame-IsLatched :
        (t : Text) (cursor anchor : ℕ) (confirmed deletion reseeds : Bool) (c : Composer E)
        → IsLatched latch c
        → IsLatched latch (Frames.trust_frame vnkey t cursor anchor confirmed deletion reseeds c)
    unfolding Frames.trust_frame State.reset_engine
    trust_frame-IsLatched t cursor anchor confirmed deletion reseeds c h =
        follow_frame-IsLatched t cursor anchor confirmed deletion reseeds _
          (either-IsLatched (Keys.has_pending_edit c.confirmation) _ _ h h)

    gate_frame-IsLatched :
        (t : Text) (cursor anchor : ℕ) (force recent : Bool) (b : Text) (c : Composer E)
        → IsLatched latch c
        → IsLatched latch (Frames.gate_frame vnkey t cursor anchor force recent b c)
    unfolding Frames.gate_frame
    gate_frame-IsLatched t cursor anchor force recent b c h =
        let c' = Frames.observe_firefox b recent c in
        let observed = observe_firefox-IsLatched b recent c h in
        let confirmed = text_eq b (EditModel.shadow_text c.edit) in
        let deletion = EditModel.deletion_since_prev c.edit t cursor || confirmed in
        let decision =
          observe recent (EditModel.one_char_insertion_since_prev c.edit t cursor) deletion force
            confirmed in
        either-IsLatched decision.trust
          (Frames.trust_frame vnkey t cursor anchor confirmed deletion decision.reseed c') c'
          (trust_frame-IsLatched t cursor anchor confirmed deletion decision.reseed c' observed)
          observed

    after_confirmation-IsLatched :
        (t : Text) (cursor anchor : ℕ) (force recent : Bool) (b : Text)
        (r : Composer E × Option RetroEdit)
        → IsLatched latch r.0
        → IsLatched latch (Frames.after_confirmation vnkey t cursor anchor force recent b r).0
    unfolding Frames.after_confirmation
    after_confirmation-IsLatched t cursor anchor force recent b (c, some e) h = h
    after_confirmation-IsLatched t cursor anchor force recent b (c, none) h =
        either-IsLatched_pair (is_pending_raw c.confirmation) _ _
          (gate_frame-IsLatched t cursor anchor force recent b c h) h

    confirm_pending-IsLatched :
        (t : Text) (cursor anchor : ℕ) (b : Text) (c : Composer E)
        → IsLatched latch c
        → IsLatched latch (Confirm.confirm_pending_raw_key vnkey t cursor anchor b c).0
    unfolding Confirm.confirm_pending_raw_key
    confirm_pending-IsLatched t cursor anchor b c h =
        confirm_last-IsLatched (get_pending_raw c.confirmation) (last? (char_indices 0 b)) t cursor
          anchor b c h

    pub apply_surrounding-IsLatched :
        (t : Text) (cursor anchor : ℕ) (force : Bool) (now : ℕ) (c : Composer E)
        → IsLatched latch c
        → IsLatched latch (Frames.apply_surrounding vnkey t cursor anchor force now c).0
    unfolding Frames.apply_surrounding
    apply_surrounding-IsLatched t cursor anchor force now c h =
        let b = text_before_cursor t cursor in
        let recent = ltb (now - c.last_action_at) 150 in
        let c' = Frames.revalidate_live_confirmation b c in
        let h' = revalidate-IsLatched b c h in
        either-IsLatched_pair (is_pending_raw c'.confirmation && cursor == anchor) _ _
          (after_confirmation-IsLatched t cursor anchor force recent b
            (Confirm.confirm_pending_raw_key vnkey t cursor anchor b c')
            (confirm_pending-IsLatched t cursor anchor b c' h'))
          (gate_frame-IsLatched t cursor anchor force recent b c' h')

    pub refresh-IsLatched :
        (n : ℕ) (c : Composer E)
        → IsLatched latch c
        → IsLatched latch (State.refresh_retroactive_context_after_apply vnkey n c)
    unfolding State.refresh_retroactive_context_after_apply State.reseed State.reset_engine
    refresh-IsLatched n c h =
        either-IsLatched (n == 0 || not c.retroactive_context) _ _ h
          (seed-IsLatched (State.current_shadow_word c) (State.reset_engine vnkey c) h)

    send_edit-IsLatched :
        {S : Type 0} (o : OutputSink S) (forward : Bool) (n : ℕ) (t : Text) (serial time : ℕ)
        (sink : S) (c : Composer E)
        → IsLatched latch c
        → IsLatched latch (Apply.send_edit o forward n t serial time sink c).0
    unfolding Apply.send_edit
    send_edit-IsLatched o true n t serial time sink c h = h
    send_edit-IsLatched o false n t serial time sink c h =
        subst (latch.kept c.commit_string_functional) (sym (used-sticky c.firefox)) h

    -- From the composer that the edit arms.
    pub inner-armed :
        {S : Type 0} (o : OutputSink S) (n : ℕ) (t : Text) (serial time : ℕ) (sink : S)
        (preserve : Bool) (c : Composer E)
        → IsLatched latch (Apply.arm_forward c)
        → IsLatched latch (Apply.apply_to_sink_inner vnkey o n t serial time sink preserve c).0
    unfolding Apply.apply_to_sink_inner
    inner-armed o n t serial time sink preserve c h =
        let armed = Apply.arm_forward c in
        let forwards = Apply.uses_forward_key n t armed in
        let c' = (Apply.send_edit o forwards n t serial time sink armed).0 in
        let sent = send_edit-IsLatched o forwards n t serial time sink armed h in
        expect_echo-IsLatched (EditModel.shadow_text c.edit) n
          (if preserve then c' else State.refresh_retroactive_context_after_apply vnkey n c')
          (either-IsLatched preserve c' (State.refresh_retroactive_context_after_apply vnkey n c')
            sent (refresh-IsLatched n c' sent))

    pub inner-IsLatched :
        {S : Type 0} (o : OutputSink S) (n : ℕ) (t : Text) (serial time : ℕ) (sink : S)
        (preserve : Bool) (c : Composer E)
        → IsLatched latch c
        → IsLatched latch (Apply.apply_to_sink_inner vnkey o n t serial time sink preserve c).0
    inner-IsLatched o n t serial time sink preserve c h =
        inner-armed o n t serial time sink preserve c (arm_forward-IsLatched c h)
