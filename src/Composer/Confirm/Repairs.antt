-- ===== src/Composer/Confirm/Repairs.antt =====
-- What a frame's repair does to the word on the screen: the edits of crates/daemon/src/composer.rs
-- from `confirm_pending_raw_key`.
use daklak_rs.Prelude.{
  ℕ, zero, suc, ◌-◌, ◌≤◌, ◌≡◌, refl, ap, sym, ◌∙◌, inl, inr, true, ◌&&◌, [], ◌∷◌, ◌++◌, Option,
  none, some, ◌==◌, ==_iff, arith, length, take, drop, is_empty, append-nil, take-append-drop,
  subst, Bool-cases,
}
use daklak_rs.Text.{Text}
use daklak_rs.Strategy.Shadow.Pop.{kept, kept_zero}
use daklak_rs.Composer.Confirm.{RetroEdit, common_prefix, retro_edit}

-- An edit of `n` backspaces and the text `t` turns one word into the other.
abbrev pub Turns : Text → Text → ℕ → Text → Type 0
Turns screen desired n t = (n ≤ length screen) × (kept screen n ++ t ≡ desired)

-- What the answer of `retro_edit` must do: no edit only where there is nothing to do, and else the edit
-- with the fewest backspaces.
abbrev pub Repairs : Text → Text → Option RetroEdit → Type 0
Repairs screen desired none = screen ≡ desired
Repairs screen desired (some e) =
    Turns screen desired e.backspaces e.commit
    × ((n : ℕ) (t : Text) → Turns screen desired n t → e.backspaces ≤ n)

-- The common prefix is one, of both texts.
common_prefix_le : (s d : Text) → common_prefix s d ≤ length s
unfolding common_prefix
common_prefix_le [] d = omega arith
common_prefix_le (a ∷ s) [] = omega arith
common_prefix_le (a ∷ s) (b ∷ d) = ground (arith, common_prefix_le s d)

take-common_prefix : (s d : Text) → take (common_prefix s d) s ≡ take (common_prefix s d) d
unfolding common_prefix
take-common_prefix [] d = refl
take-common_prefix (a ∷ s) [] = refl
take-common_prefix (a ∷ s) (b ∷ d) = elim (Bool-cases (a == b)) [
  | inl e ↦
      let same = (==_iff a b).0 e in
      rw e
        (ap (λ x. x ∷ take (common_prefix s d) s) same ∙ ap (λ t. b ∷ t) (take-common_prefix s d))
  | inr e ↦ rw e refl
]

-- No common prefix is longer.
common_prefix_max : (n : ℕ) (s u : Text) → n ≤ length s → n ≤ common_prefix s (take n s ++ u)
unfolding common_prefix
common_prefix_max zero s u h = omega arith
common_prefix_max (suc n) [] u h = absurd (omega arith)
common_prefix_max (suc n) (a ∷ s) u h = ground (arith, common_prefix_max n s u)

-- The edit that goes back to the common prefix.
Turns-at_prefix :
    (s d : Text) → Turns s d (length s - common_prefix s d) (drop (common_prefix s d) d)
Turns-at_prefix s d =
    let p = common_prefix s d in
    let back : length s - (length s - p) ≡ p = omega (arith, common_prefix_le s d) in
    (
      omega arith,
      ap (λ k. take k s ++ drop p d) back
          ∙ ap (λ t. t ++ drop p d) (take-common_prefix s d)
          ∙ take-append-drop p d,
    )

Turns-no_shorter :
    (s d : Text) (n : ℕ) (t : Text) → Turns s d n t → length s - common_prefix s d ≤ n
Turns-no_shorter s d n t (le, e) =
    let long = common_prefix_max (length s - n) s t (omega arith) in
    omega (arith, subst (λ x. length s - n ≤ common_prefix s x) e long)

Turns-nothing :
    (s d : Text) (n : ℕ) (t : Text) → Turns s d n t → (n == 0 && is_empty t) ≡ true → s ≡ d
Turns-nothing s d zero [] (le, e) h = sym (append-nil (kept s 0) ∙ kept_zero s) ∙ e
Turns-nothing s d zero (x ∷ t) turns h = cc
Turns-nothing s d (suc n) t turns h = absurd (ground arith)

-- The answer of `retro_edit` is nothing only where the screen shows the word desired, and else it is
-- an edit that turns the one into the other, and no edit that does takes fewer backspaces.
pub retro_edit-Repairs :
    (screen desired : Text) → Repairs screen desired (retro_edit screen desired)
unfolding retro_edit
retro_edit-Repairs s d =
    let p = common_prefix s d in
    let turns = Turns-at_prefix s d in
    elim (Bool-cases (length s - p == 0 && is_empty (drop p d))) [
      | inl e ↦ rw e (Turns-nothing s d _ _ turns e)
      | inr e ↦ rw e (turns, Turns-no_shorter s d)
    ]
