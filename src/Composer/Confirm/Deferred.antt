-- ===== src/Composer/Confirm/Deferred.antt =====
-- A deferred edit: a key that went out raw, the frame that shows it, and the repair that
-- `confirm_pending_raw_key` of crates/daemon/src/composer.rs then returns.
use daklak_rs.Prelude.{
  ℕ, ◌+◌, ◌≡◌, ◌≢◌, refl, sym, ap, ◌∙◌, Bool, true, false, ◌||◌, [], ◌∷◌, ◌++◌, Option, some, last?,
  ==_iff, ◌==◌, u32, Bool-cases, inl, inr, arith,
}
use daklak_rs.Text.{Text, len_utf8, byte_len, text_eq, char_indices}
use daklak_rs.Text.Slices.{text_eq_iff, slice_to-append}
use daklak_rs.Engine.State.{VnkeyEngine}
use daklak_rs.Composer.Plan.{
  PendingRaw, PendingEngineEdit, pending_raw, frame_derived, get_pending_raw,
}
use daklak_rs.Composer.EditModel
use daklak_rs.Composer.EditModel.{shadow_text}
use daklak_rs.Composer.Words.{current_word_before_cursor}
use daklak_rs.Composer.State.{Composer}
use daklak_rs.Composer.Confirm.{
  RetroEdit, insertion_proven, sync_frame, confirm_stash, confirm_at, confirm_last,
  confirm_pending_raw_key,
}

last-char_indices :
    (n : ℕ) (x : Text) (ch : ℕ) → last? (char_indices n (x ++ ch ∷ [])) ≡ some (n + byte_len x, ch)
unfolding char_indices byte_len
last-char_indices n [] ch = let same : n ≡ n + 0 = omega arith in rw (← same) refl
last-char_indices n (a ∷ []) ch =
    let same : n + len_utf8 a ≡ n + (len_utf8 a + 0) = omega arith in ap (λ k. some (k, ch)) same
last-char_indices n (a ∷ b ∷ x) ch =
    let same : n + len_utf8 a + byte_len (b ∷ x) ≡ n + byte_len (a ∷ b ∷ x) = omega arith in
    last-char_indices (n + len_utf8 a) (b ∷ x) ch ∙ ap (λ k. some (k, ch)) same

text_eq_refl : (t : Text) → text_eq t t ≡ true
text_eq_refl t = (text_eq_iff t t).1 refl

text_eq-false : (s t : Text) → s ≢ t → text_eq s t ≡ false
text_eq-false s t h = elim (Bool-cases (text_eq s t)) [
  | inl e ↦ absurd (h ((text_eq_iff s t).0 e))
  | inr e ↦ e
]

or_true : (b : Bool) → (b || true) ≡ true
or_true true = refl
or_true false = refl

-- What a stash that the frame proves leads to.
abbrev pub stashed :
    {E : Type 0} → PendingEngineEdit → Text → ℕ → ℕ → ℕ → Composer E → Composer E × Option RetroEdit
stashed stash t cursor anchor ch c = (
  record (sync_frame t cursor anchor ch c) {
    retroactive_context = true;
    confirmation = frame_derived;
  },
  some (record { backspaces = stash.backspaces + 1; commit = stash.commit }),
)

-- A frame that changed the document, and has the shadow before its cursor, proves the insertion.
shadow_proves :
    {E : Type 0} (t : Text) (cursor : ℕ) (before : Text) (ch : ℕ) (c : Composer E)
    → before ≡ shadow_text c.edit
    → t ≢ c.edit.prev_text
    → insertion_proven t cursor before ch c ≡ true
unfolding insertion_proven
shadow_proves t cursor before ch c shows changed =
    let same : text_eq before (shadow_text c.edit) ≡ true = (text_eq_iff _ _).1 shows in
    let other : text_eq t c.edit.prev_text ≡ false = text_eq-false t c.edit.prev_text changed in
    rw (same, other) (or_true (EditModel.confirms_inserted_char c.edit t cursor ch))

module _ {E : Type 0} (vnkey : VnkeyEngine E) where
  confirm_stash-same :
      (edit : Option PendingEngineEdit) (stash : PendingEngineEdit) (ch : ℕ) (base t : Text)
      (cursor : ℕ) (c : Composer E)
      → edit ≡ some stash
      → stash.base_word ≡ base
      → confirm_stash vnkey edit ch base t cursor cursor c ≡ stashed stash t cursor cursor ch c
  unfolding confirm_stash
  confirm_stash-same edit stash ch base t cursor c e same =
      let match : text_eq stash.base_word base ≡ true = (text_eq_iff _ _).1 same in
      ap (λ x. confirm_stash vnkey x ch base t cursor cursor c) e ∙ (rw match refl)

  confirm_at-stash :
      (p : PendingRaw) (stash : PendingEngineEdit) (x t : Text) (cursor : ℕ) (c : Composer E)
      → p.edit ≡ some stash
      → p.repairable ≡ true
      → shadow_text c.edit ≡ x ++ p.ch ∷ []
      → t ≢ c.edit.prev_text
      → stash.base_word ≡ current_word_before_cursor x (u32 (byte_len x))
      → confirm_at vnkey p (byte_len x) t cursor cursor (x ++ p.ch ∷ []) c
        ≡ stashed stash t cursor cursor p.ch c
  unfolding confirm_at
  confirm_at-stash p stash x t cursor c edit repairable shows changed base =
      let proven = shadow_proves t cursor (x ++ p.ch ∷ []) p.ch c (sym shows) changed in
      rw (proven, repairable, slice_to-append x (p.ch ∷ []))
        (confirm_stash-same p.edit stash p.ch _ t cursor c edit base)

  pub confirm_pending_raw_key-stash :
      (p : PendingRaw) (stash : PendingEngineEdit) (x t : Text) (cursor : ℕ) (c : Composer E)
      → c.confirmation ≡ pending_raw p
      → p.edit ≡ some stash
      → p.repairable ≡ true
      → shadow_text c.edit ≡ x ++ p.ch ∷ []
      → t ≢ c.edit.prev_text
      → stash.base_word ≡ current_word_before_cursor x (u32 (byte_len x))
      → confirm_pending_raw_key vnkey t cursor cursor (x ++ p.ch ∷ []) c
        ≡ stashed stash t cursor cursor p.ch c
  unfolding confirm_pending_raw_key confirm_last get_pending_raw
  confirm_pending_raw_key-stash p stash x t cursor c pending edit repairable shows changed base =
      let at_ch : (p.ch == p.ch) ≡ true = (==_iff p.ch p.ch).1 refl in
      let where_it_is : 0 + byte_len x ≡ byte_len x = omega arith in
      ap
        (λ q.
          confirm_last vnkey (get_pending_raw q) (last? (char_indices 0 (x ++ p.ch ∷ []))) t cursor
            cursor (x ++ p.ch ∷ []) c)
        pending
      ∙ ap (λ q. confirm_last vnkey (some p) q t cursor cursor (x ++ p.ch ∷ []) c)
          (last-char_indices 0 x p.ch)
      ∙ (rw (at_ch, where_it_is)
          (confirm_at-stash p stash x t cursor c edit repairable shows changed base))
