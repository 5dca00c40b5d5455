-- ===== src/Engine/State/Gate.antt =====
-- The render gate of crates/engine/src/lib.rs: when seeding the engine from composed text feeds it.
use daklak_rs.Prelude.{
  ℕ, ◌-◌, ◌≡◌, refl, sym, ap, ◌∙◌, subst, ◌⊎◌, inl, inr, Bool, true, false, not, ◌&&◌, [], ◌∷◌,
  ◌++◌, Bool-cases, if◌then◌else◌, length, take,
}
use daklak_rs.Text.{Text, text_eq}
use daklak_rs.Text.Slices.{text_eq_iff}
use daklak_rs.Strategy.Shadow.Pop.{pop_times-kept}
use daklak_rs.Engine.Context.{InputMethod, telex, vni, viqr, context_from_surrounding}
use daklak_rs.Engine.KeyMap.{telex_key_map}
use daklak_rs.Engine.State.{
  VnkeyEngine, EngineState, ProcessResult, is_telex, show_key, process_key, new_with_options,
  set_modern_style, type_keys, render, feed_context_gated,
}

-- A text without its last characters.
abbrev pub shorter : ℕ → Text → Text
shorter n t = take (length t - n) t

-- What is on the screen once keys are typed into an engine: a key that the engine consumes takes the
-- characters it says from the end and adds its commit, another key is added itself.
pub data Shows {E : Type 0} (vnkey : VnkeyEngine E) : E → Text → Text → Text → Type 0 where
  all_typed : {e : E} {screen : Text} → Shows vnkey e screen [] screen
  edited :
      {e : E} {screen raw t : Text} {ch : ℕ}
      → (vnkey.process e ch).1.consumed ≡ true
      → Shows vnkey
          (vnkey.process e ch).0
          (shorter (vnkey.process e ch).1.backspaces screen ++ (vnkey.process e ch).1.commit)
          raw
          t
      → Shows vnkey e screen (ch ∷ raw) t
  inserted :
      {e : E} {screen raw t : Text} {ch : ℕ}
      → (vnkey.process e ch).1.consumed ≡ false
      → Shows vnkey (vnkey.process e ch).0 (screen ++ ch ∷ []) raw t
      → Shows vnkey e screen (ch ∷ raw) t

show_key_edited :
    (r : ProcessResult) (ch : ℕ) (screen : Text)
    → r.consumed ≡ true
    → show_key r ch screen ≡ shorter r.backspaces screen ++ r.commit
show_key_edited r ch screen e = rw e (ap (λ x. x ++ r.commit) (pop_times-kept r.backspaces screen))

show_key_inserted :
    (r : ProcessResult) (ch : ℕ) (screen : Text)
    → r.consumed ≡ false
    → show_key r ch screen ≡ screen ++ ch ∷ []
show_key_inserted r ch screen e = rw e refl

module _ {E : Type 0} (vnkey : VnkeyEngine E) where
  open vnkey use {
    fresh, choose_method, set_user_key_map, set_viet_mode, put_modern_style, telex_mapping,
    normal_action, vne_count, feed,
  }

  -- The engine's own table of a method, or Telex without its bracket keys.
  abbrev pub chosen_engine : InputMethod → Bool → E
  chosen_engine telex true = choose_method fresh telex
  chosen_engine telex false =
      set_user_key_map (choose_method fresh telex)
        (telex_key_map telex_mapping normal_action vne_count false)
  chosen_engine vni _ = choose_method fresh vni
  chosen_engine viqr _ = choose_method fresh viqr

  -- A fresh engine of the same configuration, in Vietnamese mode.
  abbrev pub fresh_engine : EngineState E → E
  fresh_engine s =
      put_modern_style (set_viet_mode (chosen_engine s.method s.bracket_shortcuts) true)
        s.modern_style

  fresh_engine_lem :
      (s : EngineState E)
      → (set_modern_style vnkey
          (new_with_options vnkey s.method s.bracket_shortcuts)
          s.modern_style).engine
        ≡ fresh_engine s
  unfolding set_modern_style new_with_options
  fresh_engine_lem s =
      ap (λ e. put_modern_style (set_viet_mode e true) s.modern_style)
        (by_options s.method s.bracket_shortcuts)
    where
      by_options :
          (m : InputMethod) (brackets : Bool)
          → (if is_telex m && not brackets
              then set_user_key_map
                  (choose_method fresh m)
                  (telex_key_map telex_mapping normal_action vne_count false)
              else choose_method fresh m)
            ≡ chosen_engine m brackets
      by_options telex true = refl
      by_options telex false = refl
      by_options vni brackets = refl
      by_options viqr brackets = refl

  type_keys-Shows :
      (raw : Text) (s : EngineState E) (screen : Text)
      → Shows vnkey s.engine screen raw (type_keys vnkey s raw screen).1
  unfolding type_keys process_key
  type_keys-Shows [] s screen = all_typed
  type_keys-Shows (ch ∷ raw) s screen =
      let (e', r) = vnkey.process s.engine ch in
      let s' : EngineState E = record s { engine = e' } in
      let rest = type_keys-Shows raw s' (show_key r ch screen) in
      let shown =
        λ (x : Text). Shows vnkey e' x raw (type_keys vnkey s' raw (show_key r ch screen)).1 in
      elim (Bool-cases r.consumed) [
        | inl e ↦ edited e (subst shown (show_key_edited r ch screen e) rest)
        | inr e ↦ inserted e (subst shown (show_key_inserted r ch screen e) rest)
      ]

  Shows-type_keys :
      {e : E} {screen raw t : Text} (s : EngineState E)
      → Shows vnkey e screen raw t
      → (type_keys vnkey (record s { engine = e }) raw screen).1 ≡ t
  unfolding type_keys process_key
  Shows-type_keys s all_typed = refl
  Shows-type_keys {e = e} {screen = screen} s (edited {raw = raw} {ch = ch} consumed rest) =
      let (e', r) = vnkey.process e ch in
      ap (λ x. (type_keys vnkey (record s { engine = e' }) raw x).1)
        (show_key_edited r ch screen consumed)
      ∙ Shows-type_keys s rest
  Shows-type_keys {e = e} {screen = screen} s (inserted {raw = raw} {ch = ch} plain rest) =
      let (e', r) = vnkey.process e ch in
      ap (λ x. (type_keys vnkey (record s { engine = e' }) raw x).1)
        (show_key_inserted r ch screen plain)
      ∙ Shows-type_keys s rest

  render-Shows :
      (s : EngineState E) (raw : Text) → Shows vnkey (fresh_engine s) [] raw (render vnkey s raw)
  unfolding render
  render-Shows s raw =
      subst (λ e. Shows vnkey e [] raw (render vnkey s raw)) (fresh_engine_lem s)
        (unfold render in type_keys-Shows raw _ [])

  Shows-render :
      (s : EngineState E) (raw t : Text)
      → Shows vnkey (fresh_engine s) [] raw t
      → render vnkey s raw ≡ t
  unfolding render
  Shows-render s raw t h =
      Shows-type_keys
        (set_modern_style vnkey (new_with_options vnkey s.method s.bracket_shortcuts)
          s.modern_style)
        (subst (λ e. Shows vnkey e [] raw t) (sym (fresh_engine_lem s)) h)

  -- Seeding from composed text feeds the engine the keys of the text where they, typed into a fresh engine
  -- of the same method, bracket option and style, show exactly that text, and answers what the engine
  -- says of them; where they do not, it leaves the engine as it was and reports failure.
  pub feed_context_gated_cases :
      (s : EngineState E) (t : Text)
      → let keys = (context_from_surrounding t s.method).0 in
        let (fed, done) = feed s.engine keys in
        (Shows vnkey (fresh_engine s) [] keys t
          × (feed_context_gated vnkey s t ≡ (record s { engine = fed }, done)))
        ⊎ ((¬ Shows vnkey (fresh_engine s) [] keys t) × (feed_context_gated vnkey s t ≡ (s, false)))
  unfolding feed_context_gated
  feed_context_gated_cases s t =
      let keys = (context_from_surrounding t s.method).0 in
      elim (Bool-cases (text_eq (render vnkey s keys) t)) [
        | inl e ↦
            let shown : render vnkey s keys ≡ t = (text_eq_iff _ _).0 e in
            inl
              (subst (Shows vnkey (fresh_engine s) [] keys) shown (render-Shows s keys), rw e refl)
        | inr e ↦
            inr (λ h. let same = (text_eq_iff _ _).1 (Shows-render s keys t h) in cc, rw e refl)
      ]
