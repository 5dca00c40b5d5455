-- ===== src/Composer/Frames/Trust.antt =====
-- Which surrounding frames change the composer of crates/daemon/src/composer.rs, and how.
use daklak_rs.Prelude.{
  ℕ, ◌-◌, ◌≡◌, refl, sym, ap, ◌∙◌, Bool, true, false, not, ◌&&◌, ◌||◌, ltb, if◌then◌else◌,
  Bool-cases, inl, inr, arith, min, none, subst, ◌==◌, ==_iff,
}
use daklak_rs.Text.{Text, text_eq}
use daklak_rs.Text.Slices.{text_eq_iff}
use daklak_rs.Text.Boundaries.{IsLongestFit}
use daklak_rs.Engine.State.{VnkeyEngine}
use daklak_rs.Strategy.Shadow.Observe.{observe_surrounding-text}
use daklak_rs.Strategy.Tiers
use daklak_rs.Composer.EditModel
use daklak_rs.Composer.EditModel.{EditModel, shadow_text}
use daklak_rs.Composer.Plan.{observe, is_pending_raw, is_live_confirmed}
use daklak_rs.Composer.Words.{text_before_cursor}
use daklak_rs.Composer.State.{Composer, reset_engine, reseed, seed}
use daklak_rs.Composer.Confirm.{settle}
use daklak_rs.Composer.Keys.{has_pending_edit}
use daklak_rs.Composer.Frames.{
  revalidate_live_confirmation, observe_firefox, follow_frame, trust_frame, gate_frame,
  apply_surrounding,
}

-- A frame that the gate drops: it comes within 150 ms of an action, types no character at the last
-- cursor, does not show the shadow before its cursor, and is no activation.
abbrev pub IsDropped : {E : Type 0} → Text → ℕ → Bool → ℕ → Composer E → Type 0
IsDropped t cursor force now c =
    (ltb (now - c.last_action_at) 150 ≡ true)
    × (EditModel.one_char_insertion_since_prev c.edit t cursor ≡ false)
    × (text_eq (text_before_cursor t cursor) (shadow_text c.edit) ≡ false)
    × (force ≡ false)

-- What a dropped frame leaves alone: the edit model, with the shadow and the last frame, the engine, the
-- last key and the retroactive context.
abbrev pub Unmoved : {E : Type 0} → Composer E → Composer E → Type 0
Unmoved c c' =
    (c'.edit ≡ c.edit)
    × (c'.engine ≡ c.engine)
    × (c'.last_input_char ≡ c.last_input_char)
    × (c'.retroactive_context ≡ c.retroactive_context)

module _ {E : Type 0} where
  revalidate-Unmoved :
      (before : Text) (c : Composer E) → Unmoved c (revalidate_live_confirmation before c)
  unfolding revalidate_live_confirmation
  revalidate-Unmoved before c =
      elim (Bool-cases
        (is_live_confirmed c.confirmation && not (text_eq before (shadow_text c.edit)))) [
          | inl e ↦ rw e (refl, refl, refl, refl)
          | inr e ↦ rw e (refl, refl, refl, refl)
        ]

  observe_firefox-Unmoved :
      (before : Text) (recent : Bool) (c : Composer E) → Unmoved c (observe_firefox before recent c)
  unfolding observe_firefox
  observe_firefox-Unmoved before recent c = (refl, refl, refl, refl)

revalidate-free :
    {E : Type 0} (before : Text) (c : Composer E)
    → is_pending_raw c.confirmation ≡ false
    → is_pending_raw (revalidate_live_confirmation before c).confirmation ≡ false
unfolding revalidate_live_confirmation
revalidate-free before c free =
    elim (Bool-cases
      (is_live_confirmed c.confirmation && not (text_eq before (shadow_text c.edit)))) [
        | inl e ↦ rw e refl
        | inr e ↦ rw e free
      ]

no_trust :
    (recent typed deletion force confirmed : Bool)
    → recent ≡ true
    → typed ≡ false
    → confirmed ≡ false
    → force ≡ false
    → (observe recent typed deletion force confirmed).trust ≡ false
unfolding observe
no_trust recent typed deletion force confirmed r t s f = rw (r, t, s, f) refl

module _ {E : Type 0} (vnkey : VnkeyEngine E) where
  gate_frame-dropped :
      (t : Text) (cursor anchor : ℕ) (force recent : Bool) (before : Text) (c : Composer E)
      → recent ≡ true
      → EditModel.one_char_insertion_since_prev c.edit t cursor ≡ false
      → text_eq before (shadow_text c.edit) ≡ false
      → force ≡ false
      → gate_frame vnkey t cursor anchor force recent before c ≡ observe_firefox before recent c
  unfolding gate_frame
  gate_frame-dropped t cursor anchor force recent before c r o s f =
      rw
        (no_trust recent (EditModel.one_char_insertion_since_prev c.edit t cursor) _ force
          (text_eq before (shadow_text c.edit)) r o s f)
        refl

  -- A dropped frame, while no key awaits one, leaves the shadow, the last frame, the engine, the last
  -- key and the retroactive context as they were, and returns no repair.
  pub apply_surrounding-IsDropped :
      (t : Text) (cursor anchor : ℕ) (force : Bool) (now : ℕ) (c : Composer E)
      → is_pending_raw c.confirmation ≡ false
      → IsDropped t cursor force now c
      → let (c', r) = apply_surrounding vnkey t cursor anchor force now c in
        Unmoved c c' × (r ≡ none)
  unfolding apply_surrounding
  apply_surrounding-IsDropped t cursor anchor force now c free
        (recent, untyped, unknown, unforced) =
      let before = text_before_cursor t cursor in
      let c1 = revalidate_live_confirmation before c in
      let (e1, g1, l1, r1) = revalidate-Unmoved before c in
      let dropped =
        gate_frame-dropped t cursor anchor force (ltb (now - c.last_action_at) 150) before c1 recent
          (ap (λ e. EditModel.one_char_insertion_since_prev e t cursor) e1 ∙ untyped)
          (ap (λ e. text_eq before (shadow_text e)) e1 ∙ unknown) unforced in
      let (e2, g2, l2, r2) = observe_firefox-Unmoved before (ltb (now - c.last_action_at) 150) c1 in
      rw (revalidate-free before c free, dropped) ((e2 ∙ e1, g2 ∙ g1, l2 ∙ l1, r2 ∙ r1), refl)

  seed-edit : (w : Text) (c : Composer E) → (seed vnkey w c).edit ≡ c.edit
  unfolding seed
  seed-edit w c = ground arith

  settle-edit : (w : Text) (c : Composer E) → (settle vnkey w c).edit ≡ c.edit
  unfolding settle reseed reset_engine
  settle-edit w c = seed-edit w (reset_engine vnkey c)

  follow_frame-edit :
      (t : Text) (cursor anchor : ℕ) (confirmed deletion reseeds : Bool) (c : Composer E)
      → (follow_frame vnkey t cursor anchor confirmed deletion reseeds c).edit ≡ c.edit
  unfolding follow_frame reset_engine
  follow_frame-edit t cursor anchor true true reseeds c = refl
  follow_frame-edit t cursor anchor false true reseeds c = refl
  follow_frame-edit t cursor anchor confirmed false true c = settle-edit _ c
  follow_frame-edit t cursor anchor confirmed false false c = refl

  superseded-edit :
      (b : Bool) (c : Composer E)
      → (if b then record (reset_engine vnkey c) { retroactive_context = false } else c).edit
        ≡ c.edit
  unfolding reset_engine
  superseded-edit true c = refl
  superseded-edit false c = refl

  trust_frame-edit :
      (t : Text) (cursor anchor : ℕ) (confirmed deletion reseeds : Bool) (c : Composer E)
      → (trust_frame vnkey t cursor anchor confirmed deletion reseeds c).edit
        ≡ EditModel.record_surrounding
            (EditModel.on_surrounding_text c.edit t cursor anchor)
            t
            cursor
            anchor
  unfolding trust_frame
  trust_frame-edit t cursor anchor confirmed deletion reseeds c =
      ap (λ e. EditModel.record_surrounding e t cursor anchor)
        (follow_frame-edit t cursor anchor confirmed deletion reseeds _
          ∙ superseded-edit (has_pending_edit c.confirmation) _)

-- Otherwise the frame is trusted.
abbrev pub is_trusted : {E : Type 0} → Text → ℕ → Bool → ℕ → Composer E → Bool
is_trusted t cursor force now c = not (
    ltb (now - c.last_action_at) 150
    && not (EditModel.one_char_insertion_since_prev c.edit t cursor)
    && not (text_eq (text_before_cursor t cursor) (shadow_text c.edit))
    && not force)

-- What the gate makes of a frame, from the edit model, and what a trusted frame makes of that.
abbrev gate_trust : Text → ℕ → Bool → Bool → Text → EditModel → Bool
gate_trust t cursor force recent before e =
    (observe recent (EditModel.one_char_insertion_since_prev e t cursor)
      (EditModel.deletion_since_prev e t cursor || text_eq before (shadow_text e)) force
      (text_eq before (shadow_text e))).trust

abbrev pub recorded : Text → ℕ → ℕ → EditModel → EditModel
recorded t cursor anchor e =
    EditModel.record_surrounding (EditModel.on_surrounding_text e t cursor anchor) t cursor anchor

recorded_lem :
    (t : Text) (cursor anchor : ℕ) (e : EditModel)
    → IsLongestFit t (min cursor anchor) (shadow_text (recorded t cursor anchor e))
      × (EditModel.is_duplicate_frame (recorded t cursor anchor e) t cursor anchor ≡ true)
unfolding EditModel.record_surrounding EditModel.on_surrounding_text EditModel.is_duplicate_frame
    Tiers.on_surrounding_text
recorded_lem t cursor anchor e =
    let same_text : text_eq t t ≡ true = (text_eq_iff t t).1 refl in
    let same_cursor : (cursor == cursor) ≡ true = (==_iff _ _).1 refl in
    let same_anchor : (anchor == anchor) ≡ true = (==_iff _ _).1 refl in
    (
      (observe_surrounding-text e.strategy.shadow t cursor anchor).0,
      rw (same_text, same_cursor, same_anchor) refl,
    )

trusts :
    (recent typed deletion force confirmed : Bool)
    → not (recent && not typed && not confirmed && not force) ≡ true
    → (observe recent typed deletion force confirmed).trust ≡ true
unfolding observe
trusts recent typed deletion force confirmed h = h

module _ {E : Type 0} (vnkey : VnkeyEngine E) where
  gate_frame-trusted :
      (t : Text) (cursor anchor : ℕ) (force recent : Bool) (before : Text) (c : Composer E)
      → gate_trust t cursor force recent before c.edit ≡ true
      → (gate_frame vnkey t cursor anchor force recent before c).edit
        ≡ recorded t cursor anchor c.edit
  unfolding gate_frame
  gate_frame-trusted t cursor anchor force recent before c h = rw h (
      trust_frame-edit vnkey t cursor anchor _ _ _ (observe_firefox before recent c)
      ∙ ap (recorded t cursor anchor) (observe_firefox-Unmoved before recent c).0)

  pub apply_surrounding-edit :
      (t : Text) (cursor anchor : ℕ) (force : Bool) (now : ℕ) (c : Composer E)
      → is_pending_raw c.confirmation ≡ false
      → is_trusted t cursor force now c ≡ true
      → (apply_surrounding vnkey t cursor anchor force now c).0.edit
        ≡ recorded t cursor anchor c.edit
  unfolding apply_surrounding
  apply_surrounding-edit t cursor anchor force now c free trusted =
      let before = text_before_cursor t cursor in
      let recent = ltb (now - c.last_action_at) 150 in
      let c1 = revalidate_live_confirmation before c in
      let same = (revalidate-Unmoved before c).0 in
      let trust =
        subst (λ e. gate_trust t cursor force recent before e ≡ true) (sym same)
          (trusts recent _ _ force _ trusted) in
      rw (revalidate-free before c free) (
        gate_frame-trusted t cursor anchor force recent before c1 trust
        ∙ ap (recorded t cursor anchor) same)

  -- A frame that the gate does not drop, while no key awaits one, becomes the last frame, whatever it
  -- does to the engine: the same frame again is a duplicate. The shadow is then the longest run of whole
  -- characters of its text that ends at or before the cursor and the anchor.
  pub apply_surrounding-is_trusted :
      (t : Text) (cursor anchor : ℕ) (force : Bool) (now : ℕ) (c : Composer E)
      → is_pending_raw c.confirmation ≡ false
      → is_trusted t cursor force now c ≡ true
      → let c' = (apply_surrounding vnkey t cursor anchor force now c).0 in
        IsLongestFit t (min cursor anchor) (shadow_text c'.edit)
        × (EditModel.is_duplicate_frame c'.edit t cursor anchor ≡ true)
  apply_surrounding-is_trusted t cursor anchor force now c free trusted =
      subst
        (λ e.
          IsLongestFit t (min cursor anchor) (shadow_text e)
          × (EditModel.is_duplicate_frame e t cursor anchor ≡ true))
        (sym (apply_surrounding-edit t cursor anchor force now c free trusted))
        (recorded_lem t cursor anchor c.edit)
