-- ===== src/Keymap/Layout.antt =====
-- What a client types in the keymap of crates/keymap/src/lib.rs: the rows of `append_symbol_rows`, which
-- name their keys as XKB does, over the `us` layout that the keymap includes. This is a specification: the
-- US keyboard by its rows, and the evdev keycodes of the named keys, neither read off the crate's tables.
use daklak_rs.Prelude.{
  ℕ, suc, ◌+◌, ◌*◌, ◌/◌, ◌%◌, List, [], ◌∷◌, ◌++◌, Option, none, some, ◌==◌, if◌then◌else◌,
  get_elem?,
}
use daklak_rs.Text.{Text, codes, text_eq}
use daklak_rs.Keymap.{append_symbol_rows}

-- The rows of a US keyboard: the evdev keycode of the first key, and the characters of the keys from
-- left to right, without and with Shift.
abbrev us_rows : List (ℕ × Text × Text)
us_rows =
    (2, codes "1234567890-=", codes "!@#$%^&*()_+")
    ∷ (16, codes "qwertyuiop[]", codes "QWERTYUIOP{}")
    ∷ (30, codes "asdfghjkl;'`", codes "ASDFGHJKL:" ++ 0x22 ∷ codes "~")
    ∷ (43, 0x5c ∷ codes "zxcvbnm,./", codes "|ZXCVBNM<>?")
    ∷ (57, codes " ", codes " ")
    ∷ []

-- The character of a key in a row that starts at key `first`.
at_key : ℕ → ℕ → Text → Option ℕ
at_key kc first [] = none
at_key kc first (c ∷ cs) = if kc == first then some c else at_key kc (suc first) cs

or_else : Option ℕ → Option ℕ → Option ℕ
or_else none o = o
or_else (some c) o = some c

-- The layout knows Shift alone.
us_char : ℕ → ℕ → List (ℕ × Text × Text) → Option ℕ
unfolding at_key or_else
us_char kc mods [] = none
us_char kc mods ((first, plain, shifted) ∷ rows) =
    if mods == 0
    then or_else (at_key kc first plain) (us_char kc mods rows)
    else if mods == 1
    then or_else (at_key kc first shifted) (us_char kc mods rows)
    else none

-- The evdev keycodes of the XKB names.
abbrev key_names : List (ℕ × Text)
key_names =
    (85, codes "ZEHA")
    ∷ (86, codes "LSGT")
    ∷ (89, codes "AB11")
    ∷ (90, codes "KATA")
    ∷ (91, codes "HIRA")
    ∷ (92, codes "HENK")
    ∷ (93, codes "HKTG")
    ∷ (94, codes "MUHE")
    ∷ (122, codes "HNGL")
    ∷ (123, codes "HJCV")
    ∷ (124, codes "AE13")
    ∷ (183, codes "FK13")
    ∷ (184, codes "FK14")
    ∷ (185, codes "FK15")
    ∷ (186, codes "FK16")
    ∷ (187, codes "FK17")
    ∷ (188, codes "FK18")
    ∷ (189, codes "FK19")
    ∷ []

name_of : ℕ → List (ℕ × Text) → Option Text
name_of kc [] = none
name_of kc ((k, name) ∷ names) = if kc == k then some name else name_of kc names

row_of : Text → List (Text × List ℕ) → Option (List ℕ)
unfolding text_eq
row_of name [] = none
row_of name ((n, keysyms) ∷ rows) = if text_eq name n then some keysyms else row_of name rows

named_row : Option Text → List (Text × List ℕ) → Option (List ℕ)
unfolding row_of
named_row none rows = none
named_row (some name) rows = row_of name rows

-- The level that a mask selects, from 0: Shift, LevelThree and LevelFive are its bits.
abbrev pub level_of : ℕ → ℕ
level_of mods = mods % 2 + mods / 0x80 % 2 * 2 + mods / 0x20 % 2 * 4

in_row : Option (List ℕ) → ℕ → ℕ → Option ℕ
unfolding us_char
in_row none kc mods = us_char kc mods us_rows
in_row (some keysyms) kc mods = get_elem? keysyms (level_of mods)

-- The keysym that a client reads: a key with a row of the crate's has its levels, the others the layout's.
unfoldable pub typed : ℕ → ℕ → Option ℕ
unfolding in_row named_row name_of append_symbol_rows
typed kc mods = in_row (named_row (name_of kc key_names) append_symbol_rows) kc mods
