-- ===== src/Engine/KeyMap.antt =====
-- `telex_key_map` of crates/engine/src/telex.rs. The mapping table, its default action and the bound of
-- the Vietnamese actions belong to vnkey-engine and are arguments. An action is a number.
use daklak_rs.Prelude.{
  ℕ, ◌+◌, ◌-◌, ◌≡◌, refl, Bool, true, false, not, ◌&&◌, ◌||◌, List, [], ◌∷◌, arith, ltb, leb, ◌==◌,
  if◌then◌else◌, ◌∙◌,
}

pub record Entry : Type 0 where
  pub key : ℕ
  pub action : ℕ

-- An array of 256 actions, by index.
abbrev pub ActionMap : Type 0
ActionMap = ℕ → ℕ

abbrev put : ActionMap → ℕ → ℕ → ActionMap
put m k a = λ j. if j == k then a else m j

abbrev pub is_bracket : ℕ → Bool
is_bracket key = key == b'[' || key == b']' || key == b'{' || key == b'}'

abbrev is_lower : ℕ → Bool
is_lower c = leb b'a' c && leb c b'z'

abbrev is_upper : ℕ → Bool
is_upper c = leb b'A' c && leb c b'Z'

-- The other case of a Vietnamese letter key gets the same action.
both_cases : ℕ → Entry → ActionMap → ActionMap
both_cases vne_count e m =
    if ltb e.action vne_count
    then if is_lower e.key
      then put m (e.key - 32) e.action
      else if is_upper e.key
      then put m (e.key + 32) e.action
      else m
    else m

key_map_entry : ℕ → Bool → Entry → ActionMap → ActionMap
unfolding both_cases
key_map_entry vne_count bracket_shortcuts e m =
    if not bracket_shortcuts && is_bracket e.key
    then m
    else both_cases vne_count e (put m e.key e.action)

key_map_loop : ℕ → Bool → List Entry → ActionMap → ActionMap
key_map_loop vne_count bracket_shortcuts [] m = m
key_map_loop vne_count bracket_shortcuts (e ∷ es) m =
    key_map_loop vne_count bracket_shortcuts es (key_map_entry vne_count bracket_shortcuts e m)

unfoldable pub telex_key_map : List Entry → ℕ → ℕ → Bool → ActionMap
unfolding key_map_loop key_map_entry
telex_key_map telex_mapping normal vne_count bracket_shortcuts =
    key_map_loop vne_count bracket_shortcuts telex_mapping (λ j. normal)

entry_bracket :
    (vne_count : ℕ) (e : Entry) (m : ActionMap) (j : ℕ)
    → is_bracket j ≡ true
    → key_map_entry vne_count false e m j ≡ m j
unfolding key_map_entry
entry_bracket vne_count e m j h = ground arith

-- With the bracket shortcuts off, the four bracket keys keep the default action, whatever the mapping
-- table says of them or of any other key.
pub telex_key_map_brackets :
    (telex_mapping : List Entry) (normal vne_count : ℕ) (j : ℕ)
    → is_bracket j ≡ true
    → telex_key_map telex_mapping normal vne_count false j ≡ normal
unfolding telex_key_map
telex_key_map_brackets telex_mapping normal vne_count j h = kept telex_mapping (λ j. normal) refl
  where
    kept :
        (es : List Entry) (m : ActionMap)
        → m j ≡ normal
        → key_map_loop vne_count false es m j ≡ normal
    kept [] m e = e
    kept (x ∷ es) m e =
        kept es (key_map_entry vne_count false x m) (entry_bracket vne_count x m j h ∙ e)
