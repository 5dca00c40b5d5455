-- ===== src/Keymap/RoundTrip.antt =====
-- The keys that `char_to_emit` names, read back through the keymap that the same crate builds.
use daklak_rs.Prelude.{
  ℕ, suc, ◌+◌, ◌≤◌, ◌<◌, ◌≡◌, refl, ap, sym, ◌∙◌, ◌≢◌, ◌⊎◌, inl, inr, Bool, true, false, not, ◌&&◌,
  ◌||◌, List, [], ◌∷◌, Option, none, some, arith, leb, ◌==◌, all, all_below, all_below_sound,
  is_some, is_empty, Bool-cases,
}
use daklak_rs.Text.{Text}
use daklak_rs.Engine.Arm.{match_arms}
use daklak_rs.Engine.Telex.{telex_arms, telex_chars_from_composed}
use daklak_rs.Keymap.Inventory.{vn_lower, vn_upper, safe_keycodes, ascii_arms, level5_shift_evdev}
use daklak_rs.Keymap.{
  EmitSpec, Emit, panic, absent, emit, position, locate_vn, match_ascii, ascii_evdev, char_to_emit,
  append_symbol_rows,
}
use daklak_rs.Keymap.Layout.{typed}

unfoldable pub option_is : Option ℕ → ℕ → Bool
option_is none c = false
option_is (some x) c = x == c

-- What is to be checked of a character.
emits_well : Emit → ℕ → Bool
emits_well panic c = false
emits_well absent c = true
emits_well (emit s) c =
    option_is (typed s.keycode s.mods) c
    && leb (s.keycode + 8) 255
    && not (s.keycode == level5_shift_evdev)

checked : ℕ → Bool
unfolding emits_well option_is typed char_to_emit position
checked c = emits_well (char_to_emit c) c

position-all :
    (P : ℕ → Bool) (xs : List ℕ) (i c : ℕ)
    → all P xs ≡ true
    → (position i c xs ≡ none) ⊎ (P c ≡ true)
unfolding position
position-all P [] i c h = inl refl
position-all P (x ∷ xs) i c h = ground (arith, position-all P xs (suc i) c)

ascii_all :
    (P : ℕ → Bool) (arms : List (ℕ × ℕ × ℕ)) (c : ℕ)
    → all (λ r. P r.0) arms ≡ true
    → (match_ascii c arms ≡ none) ⊎ (P c ≡ true)
unfolding match_ascii
ascii_all P [] c h = inl refl
ascii_all P ((x, kc, mods) ∷ arms) c h = ground (arith, ascii_all P arms c)

lower_checked : all checked vn_lower ≡ true
unfolding checked vn_lower append_symbol_rows safe_keycodes
lower_checked = refl

upper_checked : all checked vn_upper ≡ true
unfolding checked vn_upper append_symbol_rows safe_keycodes
upper_checked = refl

ascii_checked : all (λ r. checked r.0) ascii_arms ≡ true
unfolding checked ascii_arms append_symbol_rows safe_keycodes
ascii_checked = refl

every_checked : (c : ℕ) → (char_to_emit c ≡ absent) ⊎ (checked c ≡ true)
unfolding char_to_emit
every_checked c = elim (position-all checked vn_lower 0 c lower_checked) [
  | inr ok ↦ inr ok
  | inl low ↦ elim (position-all checked vn_upper 0 c upper_checked) [
    | inr ok ↦ inr ok
    | inl up ↦ elim (ascii_all checked ascii_arms c ascii_checked) [
      | inr ok ↦ inr ok
      | inl ascii ↦ inl (rw (low, up, ascii))
    ]
  ]
]

option_parts :
    (o : Option ℕ) (kc c : ℕ)
    → (option_is o c && leb (kc + 8) 255 && not (kc == level5_shift_evdev)) ≡ true
    → (o ≡ some c) × (kc + 8 ≤ 255) × (kc ≢ level5_shift_evdev)
unfolding option_is
option_parts none kc c h = cc
option_parts (some x) kc c h = (ground arith, ground arith, λ q. ground arith)

checked_emit :
    (c : ℕ) (s : EmitSpec)
    → char_to_emit c ≡ emit s
    → checked c ≡ true
    → (typed s.keycode s.mods ≡ some c) × (s.keycode + 8 ≤ 255) × (s.keycode ≢ level5_shift_evdev)
unfolding checked
checked_emit c s e h =
    option_parts (typed s.keycode s.mods) s.keycode c (sym (ap (λ r. emits_well r c) e) ∙ h)

-- `char_to_emit` finds a key for every index it computes: it never reads past its keycode table.
pub char_to_emit-ne-panic : (c : ℕ) → char_to_emit c ≢ panic
unfolding checked
char_to_emit-ne-panic c e = elim (every_checked c) [
  | inl none_found ↦ cc
  | inr ok ↦ cc (rw (ap (λ r. emits_well r c) e) at ok)
]

-- A key and mask that `char_to_emit` names for a character type just that character in the keymap that
-- the crate builds: in the row that `append_symbol_rows` writes for the key, found by the key's XKB name,
-- or, for a key that it writes no row for, in the US layout that the keymap includes. The key fits the 8
-- bits of an X11 keycode (evdev + 8), and is not the one that carries the fifth level.
pub char_to_emit-typed :
    (c : ℕ) (s : EmitSpec)
    → char_to_emit c ≡ emit s
    → (typed s.keycode s.mods ≡ some c) × (s.keycode + 8 ≤ 255) × (s.keycode ≢ level5_shift_evdev)
char_to_emit-typed c s e = elim (every_checked c) [
  | inl none_found ↦ cc
  | inr ok ↦ checked_emit c s e ok
]

-- Printable ASCII, and nothing else, is in the ASCII table.
printable : ℕ → Bool
printable c = leb 0x20 c && leb c 0x7e

has_key : ℕ → Bool
unfolding ascii_evdev printable
has_key c = is_some (ascii_evdev c) || not (printable c)

every_printable : all_below 0x7f has_key ≡ true
unfolding has_key
every_printable = refl

only_printable : all (λ r. printable r.0) ascii_arms ≡ true
unfolding printable ascii_arms
only_printable = refl

-- The base layout has a key for the printable ASCII characters, 0x20 to 0x7e, and for no other.
pub ascii_evdev_printable : (c : ℕ) → is_some (ascii_evdev c) ≡ (leb 0x20 c && leb c 0x7e)
unfolding printable
ascii_evdev_printable c = elim (Bool-cases (leb 0x20 c && leb c 0x7e)) [
  | inl yes_ascii ↦
      let below : c < 0x7f = ground arith in
      let found = all_below_sound 0x7f has_key c every_printable below in
      unfold has_key in ground arith
  | inr other ↦ elim (ascii_all printable ascii_arms c only_printable) [
    | inl e ↦ unfold ascii_evdev in rw (e, other)
    | inr h ↦ cc
  ]
]

-- The inventory of the keymap and the reversal tables of the engine name the same letters.
reversible : ℕ → Bool
unfolding telex_chars_from_composed
reversible c = not (is_empty (telex_chars_from_composed c))

lower_reversible : all reversible vn_lower ≡ true
unfolding reversible vn_lower
lower_reversible = refl

upper_reversible : all reversible vn_upper ≡ true
unfolding reversible vn_upper
upper_reversible = refl

arms_located : all (λ r. is_some (locate_vn r.0)) telex_arms ≡ true
unfolding locate_vn telex_arms
arms_located = refl

arm_all :
    (P : ℕ → Bool) (arms : List (ℕ × Text)) (c : ℕ)
    → all (λ r. P r.0) arms ≡ true
    → (match_arms c arms ≡ []) ⊎ (P c ≡ true)
unfolding match_arms
arm_all P [] c h = inl refl
arm_all P ((x, keys) ∷ arms) c h = ground (arith, arm_all P arms c)

not_located :
    (c : ℕ)
    → position 0 c vn_lower ≡ none
    → position 0 c vn_upper ≡ none
    → is_some (locate_vn c) ≡ false
unfolding locate_vn
not_located c low up = rw (low, up)

located : (c : ℕ) → reversible c ≡ true → is_some (locate_vn c) ≡ true
unfolding reversible
located c ok = elim (arm_all (λ x. is_some (locate_vn x)) telex_arms c arms_located) [
  | inl e ↦ cc (sym (ap (λ t. not (is_empty t)) e) ∙ ok)
  | inr found ↦ found
]

not_reversible :
    (c : ℕ) → is_some (locate_vn c) ≡ false → not (is_empty (telex_chars_from_composed c)) ≡ false
unfolding telex_chars_from_composed
not_reversible c nowhere = elim (arm_all (λ x. is_some (locate_vn x)) telex_arms c arms_located) [
  | inl e ↦ rw e
  | inr found ↦ cc
]

-- A Vietnamese letter can be put out as one key of the keymap exactly if the engine can be seeded with
-- it: the inventory of the keymap and the domain of the reversal tables are the same.
pub locate_vn-reversible :
    (c : ℕ) → is_some (locate_vn c) ≡ not (is_empty (telex_chars_from_composed c))
locate_vn-reversible c = elim (position-all reversible vn_lower 0 c lower_reversible) [
  | inr ok ↦ located c ok ∙ sym (unfold reversible in ok)
  | inl low ↦ elim (position-all reversible vn_upper 0 c upper_reversible) [
    | inr ok ↦ located c ok ∙ sym (unfold reversible in ok)
    | inl up ↦ let nowhere = not_located c low up in nowhere ∙ sym (not_reversible c nowhere)
  ]
]
