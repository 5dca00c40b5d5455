-- ===== src/Keymap.antt =====
-- crates/keymap/src/lib.rs: the synthetic keymap, as the keysyms that it binds and the keys that
-- reach them. The text around the keysyms is left out. An index out of range, which panics, is `none`.
pub mod Inventory
pub mod Layout
pub mod RoundTrip
pub mod Xkb
pub mod Toy
mod Examples
use Prim.Native.Nat.{bit_or}
use daklak_rs.Prelude.{
  ℕ, zero, suc, ◌+◌, ◌-◌, ◌*◌, ◌/◌, ◌%◌, List, [], ◌∷◌, Option, none, some, ltb, ◌==◌,
  if◌then◌else◌, length, get_elem?, take,
}
use daklak_rs.Text.{Text}
use daklak_rs.Keymap.Inventory.{
  mod_shift, mod_level3, mod_level5, safe_keycodes, safe_keycode_names, vn_lower, vn_upper,
  ascii_arms,
}

pub record EmitSpec : Type 0 where
  pub keycode : ℕ
  pub mods : ℕ

unfoldable pub slots_needed : ℕ
slots_needed = (length vn_lower + 3) / 4

unfoldable pub slot_keycode : ℕ → Option ℕ
slot_keycode slot = get_elem? safe_keycodes slot

abbrev pub daklak_slot_keycodes : List ℕ
daklak_slot_keycodes = safe_keycodes

unfoldable pub level_mods : ℕ → ℕ
level_mods lv =
    if lv == 1
    then 0
    else if lv == 2
    then mod_shift
    else if lv == 3
    then mod_level3
    else if lv == 4
    then bit_or mod_shift mod_level3
    else if lv == 5
    then mod_level5
    else if lv == 6
    then bit_or mod_shift mod_level5
    else if lv == 7
    then bit_or mod_level3 mod_level5
    else if lv == 8
    then bit_or (bit_or mod_shift mod_level3) mod_level5
    else 0

-- `iter().position(|&x| x == c)`, counted from `i`.
unfoldable pub position : ℕ → ℕ → List ℕ → Option ℕ
position i c [] = none
position i c (x ∷ xs) = if x == c then some i else position (suc i) c xs

-- The slot of an index of the inventory, and its level: odd for lower case, even for upper.
abbrev pub placed : Option ℕ → ℕ → Option (ℕ × ℕ) → Option (ℕ × ℕ)
placed none base other = other
placed (some i) base other = some (i / 4, i % 4 * 2 + base)

unfoldable pub locate_vn : ℕ → Option (ℕ × ℕ)
unfolding position vn_lower vn_upper
locate_vn c = placed (position 0 c vn_lower) 1 (placed (position 0 c vn_upper) 2 none)

unfoldable pub match_ascii : ℕ → List (ℕ × ℕ × ℕ) → Option (ℕ × ℕ)
match_ascii c [] = none
match_ascii c ((x, kc, mods) ∷ arms) = if c == x then some (kc, mods) else match_ascii c arms

unfoldable pub ascii_evdev : ℕ → Option (ℕ × ℕ)
unfolding match_ascii ascii_arms
ascii_evdev c = match_ascii c ascii_arms

-- What `char_to_emit` comes to: it may panic on a slot, know no key, or name one.
pub data Emit : Type 0 where
  panic absent : Emit
  emit : EmitSpec → Emit

abbrev slot_emit : Option ℕ → ℕ → Emit
slot_emit none mods = panic
slot_emit (some kc) mods = emit (record { keycode = kc; mods = mods })

abbrev ascii_emit : Option (ℕ × ℕ) → Emit
ascii_emit none = absent
ascii_emit (some (kc, mods)) = emit (record { keycode = kc; mods = mods })

abbrev located_emit : Option (ℕ × ℕ) → Option (ℕ × ℕ) → Emit
unfolding slot_keycode level_mods
located_emit none ascii = ascii_emit ascii
located_emit (some (slot, level)) ascii = slot_emit (slot_keycode slot) (level_mods level)

unfoldable pub char_to_emit : ℕ → Emit
unfolding locate_vn ascii_evdev slot_keycode level_mods
char_to_emit c = located_emit (locate_vn c) (ascii_evdev c)

unfoldable pub vn_pairs : ℕ
unfolding vn_lower
vn_pairs = length vn_lower

abbrev pub void_symbol : ℕ
void_symbol = 0xffffff

-- The keysym of an index of the inventory in one case: padding where the inventory ends.
abbrev pub keysym_or_void : Option ℕ → ℕ
keysym_or_void none = void_symbol
keysym_or_void (some c) = c

pair_keysyms : ℕ → List ℕ → List ℕ
pair_keysyms idx rest =
    if ltb idx (length vn_lower)
    then keysym_or_void (get_elem? vn_lower idx) ∷ keysym_or_void (get_elem? vn_upper idx) ∷ rest
    else void_symbol ∷ void_symbol ∷ rest

-- The eight keysyms that `append_symbol_rows` binds to slot `i`.
unfoldable pub row_keysyms : ℕ → List ℕ
unfolding pair_keysyms vn_lower vn_upper
row_keysyms i =
    pair_keysyms (i * 4)
      (pair_keysyms (i * 4 + 1) (pair_keysyms (i * 4 + 2) (pair_keysyms (i * 4 + 3) [])))

rows_from : ℕ → List Text → List (Text × List ℕ)
rows_from i [] = []
rows_from i (name ∷ names) = (name, row_keysyms i) ∷ rows_from (suc i) names

-- The rows, each a key name and its keysyms.
unfoldable pub append_symbol_rows : List (Text × List ℕ)
unfolding rows_from row_keysyms slots_needed safe_keycode_names
append_symbol_rows = rows_from 0 (take slots_needed safe_keycode_names)

-- The mask to set for the key and the mask to set back; none at the first level.
unfoldable pub plan_mod_dance : ℕ → ℕ → Option (ℕ × ℕ)
plan_mod_dance dep spec_mods = if spec_mods == 0 then none else some (bit_or dep spec_mods, dep)
