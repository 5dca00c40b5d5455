-- ===== src/Composer/Frames/Repair.antt =====
-- A deferred edit from end to end: the frame that shows the raw key, read by `apply_surrounding`, and
-- its repair, sent by `apply_confirmed_repair_to_sink`, both of crates/daemon/src/composer.rs.
use native.Mathlib.Numerals.{add-one}
use daklak_rs.Prelude.{
  suc, ℕ, ◌+◌, ◌≤◌, ◌<◌, ◌≡◌, ◌≢◌, refl, sym, ap, ◌∙◌, Bool, true, false, [], ◌∷◌, ◌++◌, Option,
  none, some, ==_iff, ◌==◌, u32, u32_mod, usize_max, arith, min, init-append, pop_times,
}
use daklak_rs.Text.{Text, byte_len, slice_to}
use daklak_rs.Text.Slices.{slice_to-append}
use daklak_rs.Engine.State.{VnkeyEngine}
use daklak_rs.Strategy.Types.{bytes}
use daklak_rs.Strategy.Shadow.{observe_surrounding}
use daklak_rs.Strategy.Shadow.Observe.{observed_text, observe-no_selection}
use daklak_rs.Strategy.Shadow.Pop.{kept, kept-init, pop_times-kept}
use daklak_rs.Strategy.Client.{Client, client_sink}
use daklak_rs.Strategy.Client.Refinement.{Mirrors, fresh-Mirrors}
use daklak_rs.Strategy.Tiers
use daklak_rs.Composer.Plan.{
  PendingRaw, PendingEngineEdit, pending_raw, is_live_confirmed, is_pending_raw,
}
use daklak_rs.Composer.Quirks.Firefox.Unit.{IsConsistent}
use daklak_rs.Composer.EditModel
use daklak_rs.Composer.EditModel.{shadow_text}
use daklak_rs.Composer.Words.{current_word_before_cursor, text_before_cursor}
use daklak_rs.Composer.Words.Laws.{text_before_cursor-slice_to}
use daklak_rs.Composer.State.{Composer}
use daklak_rs.Composer.Apply.{apply_confirmed_repair_to_sink}
use daklak_rs.Composer.Apply.Edits.{apply_to_sink_inner-Edits, inner-engine}
use daklak_rs.Composer.Confirm.{RetroEdit, sync_frame}
use daklak_rs.Composer.Confirm.Deferred.{stashed, confirm_pending_raw_key-stash}
use daklak_rs.Composer.Frames.{apply_surrounding, revalidate_live_confirmation, after_confirmation}

-- What the transport does with the answer of a frame: it sends the repair, if there is one.
abbrev pub repair :
    {E : Type 0}
    → VnkeyEngine E
    → ℕ
    → ℕ
    → Client
    → Composer E × Option RetroEdit
    → Composer E × Client
repair vnkey serial time k (c, none) = (c, k)
repair vnkey serial time k (c, some e) =
    apply_confirmed_repair_to_sink vnkey client_sink e.backspaces e.commit serial time k c

revalidate-pending :
    {E : Type 0} (before : Text) (p : PendingRaw) (c : Composer E)
    → c.confirmation ≡ pending_raw p
    → revalidate_live_confirmation before c ≡ c
unfolding revalidate_live_confirmation
revalidate-pending before p c pending =
    let same : is_live_confirmed c.confirmation ≡ false = ap is_live_confirmed pending in
    rw same refl

module _ {E : Type 0} (vnkey : VnkeyEngine E) where
  -- A frame of the client's own text makes the shadow mirror the client.
  synced-Mirrors :
      (k : Client) (ch : ℕ) (c : Composer E)
      → k.selected ≡ []
      → Mirrors
          (sync_frame
            (k.before ++ k.after)
            (byte_len k.before)
            (byte_len k.before)
            ch
            c).edit.strategy.shadow
          k
  unfolding sync_frame EditModel.on_surrounding_text EditModel.record_surrounding
      Tiers.on_surrounding_text
  synced-Mirrors k ch c bare =
      let shadow = c.edit.strategy.shadow in
      let t = k.before ++ k.after in
      let cursor = byte_len k.before in
      let whole : min cursor cursor ≡ cursor = omega arith in
      let (b, ab, ac) = observe-no_selection shadow t cursor in
      fresh-Mirrors (observe_surrounding shadow t cursor cursor).0 k
        (observed_text shadow t cursor cursor
          ∙ ap (slice_to t) whole
          ∙ slice_to-append k.before k.after)
        b ab ac bare

  frame-stashed :
      (p : PendingRaw) (stash : PendingEngineEdit) (x : Text) (force : Bool) (now : ℕ) (k : Client)
      (c : Composer E)
      → c.confirmation ≡ pending_raw p
      → p.edit ≡ some stash
      → p.repairable ≡ true
      → stash.base_word ≡ current_word_before_cursor x (u32 (byte_len x))
      → k.before ≡ x ++ p.ch ∷ []
      → shadow_text c.edit ≡ k.before
      → k.before ++ k.after ≢ c.edit.prev_text
      → let t = k.before ++ k.after in
        let cursor = byte_len k.before in
        apply_surrounding vnkey t cursor cursor force now c ≡ stashed stash t cursor cursor p.ch c
  unfolding apply_surrounding after_confirmation
  frame-stashed p stash x force now k c pending edit repairable base shown shows changed =
      let seen : text_before_cursor (k.before ++ k.after) (byte_len k.before) ≡ x ++ p.ch ∷ [] =
        text_before_cursor-slice_to _ _ ∙ slice_to-append k.before k.after ∙ shown in
      let same : (byte_len k.before == byte_len k.before) ≡ true = (==_iff _ _).1 refl in
      let confirmed =
        confirm_pending_raw_key-stash vnkey p stash x (k.before ++ k.after) (byte_len k.before) c
          pending edit repairable (shows ∙ shown) changed base in
      let waiting : is_pending_raw c.confirmation ≡ true = ap is_pending_raw pending in
      rw (seen, revalidate-pending (x ++ p.ch ∷ []) p c pending, waiting, same, confirmed) refl

  erased-with_key : (t x : Text) (ch n : ℕ) → t ≡ x ++ ch ∷ [] → kept t (n + 1) ≡ pop_times n x
  erased-with_key t x ch n e =
      ap (kept t) (add-one n)
      ∙ ap (λ s. kept s (suc n)) e
      ∙ sym (kept-init (x ++ ch ∷ []) n)
      ∙ ap (λ s. kept s n) (init-append x ch)
      ∙ sym (pop_times-kept n x)

  -- A key that went out raw with its engine edit stashed, on an honest client that counts bytes and has
  -- no selection. The frame reports the client's text, which ends before the cursor in the key after
  -- the text `x`, differs from the last frame's, and is what the shadow expects; the stash was composed
  -- on the last word of `x`. Then the frame's repair leaves the client as the edit would have done on
  -- `x` had it not been deferred: the key and the edit's backspaces go, the commit comes, the text after
  -- the cursor stays. The shadow is the client's text again, and the engine is as the key left it.
  -- The key is repairable, the quirk is consistent, the text before the cursor has under 2 ^ 32 bytes,
  -- and the repair has at most `usize::MAX` backspaces.
  pub repair-Leaves :
      (p : PendingRaw) (stash : PendingEngineEdit) (x : Text) (force : Bool) (now serial time : ℕ)
      (k : Client) (c : Composer E)
      → c.confirmation ≡ pending_raw p
      → p.edit ≡ some stash
      → p.repairable ≡ true
      → stash.base_word ≡ current_word_before_cursor x (u32 (byte_len x))
      → k.before ≡ x ++ p.ch ∷ []
      → shadow_text c.edit ≡ k.before
      → k.before ++ k.after ≢ c.edit.prev_text
      → IsConsistent c.firefox
      → k.unit ≡ bytes
      → k.selected ≡ []
      → byte_len k.before < u32_mod
      → stash.backspaces + 1 ≤ usize_max
      → let cursor = byte_len k.before in
        let (c', k') =
          repair vnkey serial time k
            (apply_surrounding vnkey (k.before ++ k.after) cursor cursor force now c) in
        (k'.before ≡ pop_times stash.backspaces x ++ stash.commit)
        × (k'.after ≡ k.after)
        × (k'.selected ≡ [])
        × Mirrors c'.edit.strategy.shadow k'
        × (c'.engine ≡ c.engine)
  unfolding apply_confirmed_repair_to_sink sync_frame
  repair-Leaves p stash x force now serial time k c pending edit repairable base shown shows changed
        ok unit bare h small =
      let t = k.before ++ k.after in
      let cursor = byte_len k.before in
      let frame =
        frame-stashed p stash x force now k c pending edit repairable base shown shows changed in
      let c' = (stashed stash t cursor cursor p.ch c).0 in
      let n = stash.backspaces + 1 in
      let (b, a, sel, waits, mirrors) =
        apply_to_sink_inner-Edits vnkey n stash.commit serial time k true c' ok unit
          (synced-Mirrors k p.ch c bare) bare h small in
      let kept_engine = inner-engine vnkey client_sink n stash.commit serial time k c' in
      rw frame (
        b ∙ ap (λ s. s ++ stash.commit) (erased-with_key k.before x p.ch stash.backspaces shown),
        a,
        sel,
        mirrors,
        kept_engine,
      )
