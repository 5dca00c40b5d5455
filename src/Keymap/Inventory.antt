-- ===== src/Keymap/Inventory.antt =====
-- The character inventory and the fixed tables of crates/keymap/src/lib.rs.
use Prim.Native.Char.{code}
use daklak_rs.Prelude.{ℕ, List, [], ◌∷◌}
use daklak_rs.Text.{Text, codes}

abbrev pub mod_shift : ℕ
mod_shift = 0x01

abbrev pub mod_level3 : ℕ
mod_level3 = 0x80

abbrev pub mod_level5 : ℕ
mod_level5 = 0x20

-- `KEY_HENKAN`, which selects the fifth level.
abbrev pub level5_shift_evdev : ℕ
level5_shift_evdev = 92

unfoldable pub safe_keycodes : List ℕ
safe_keycodes =
    85 ∷ 86 ∷ 89 ∷ 90 ∷ 91 ∷ 93 ∷ 94 ∷ 124 ∷ 183 ∷ 184 ∷ 185 ∷ 186 ∷ 187 ∷ 188 ∷ 189 ∷ 122 ∷ 123
    ∷ []

unfoldable pub safe_keycode_names : List Text
safe_keycode_names =
    codes "ZEHA"
    ∷ codes "LSGT"
    ∷ codes "AB11"
    ∷ codes "KATA"
    ∷ codes "HIRA"
    ∷ codes "HKTG"
    ∷ codes "MUHE"
    ∷ codes "AE13"
    ∷ codes "FK13"
    ∷ codes "FK14"
    ∷ codes "FK15"
    ∷ codes "FK16"
    ∷ codes "FK17"
    ∷ codes "FK18"
    ∷ codes "FK19"
    ∷ codes "HNGL"
    ∷ codes "HJCV"
    ∷ []

unfoldable pub vn_lower : List ℕ
vn_lower = codes "àáảãạâầấẩẫậăằắẳẵặèéẻẽẹêềếểễệìíỉĩịòóỏõọôồốổỗộơờớởỡợùúủũụưừứửữựỳýỷỹỵđ"

unfoldable pub vn_upper : List ℕ
vn_upper = codes "ÀÁẢÃẠÂẦẤẨẪẬĂẰẮẲẴẶÈÉẺẼẸÊỀẾỂỄỆÌÍỈĨỊÒÓỎÕỌÔỒỐỔỖỘƠỜỚỞỠỢÙÚỦŨỤƯỪỨỬỮỰỲÝỶỸỴĐ"

-- The arms of `ascii_evdev`: a character, its evdev keycode and its modifier mask.
unfoldable pub ascii_arms : List (ℕ × ℕ × ℕ)
ascii_arms =
    ((code "a"), 30, 0)
    ∷ ((code "b"), 48, 0)
    ∷ ((code "c"), 46, 0)
    ∷ ((code "d"), 32, 0)
    ∷ ((code "e"), 18, 0)
    ∷ ((code "f"), 33, 0)
    ∷ ((code "g"), 34, 0)
    ∷ ((code "h"), 35, 0)
    ∷ ((code "i"), 23, 0)
    ∷ ((code "j"), 36, 0)
    ∷ ((code "k"), 37, 0)
    ∷ ((code "l"), 38, 0)
    ∷ ((code "m"), 50, 0)
    ∷ ((code "n"), 49, 0)
    ∷ ((code "o"), 24, 0)
    ∷ ((code "p"), 25, 0)
    ∷ ((code "q"), 16, 0)
    ∷ ((code "r"), 19, 0)
    ∷ ((code "s"), 31, 0)
    ∷ ((code "t"), 20, 0)
    ∷ ((code "u"), 22, 0)
    ∷ ((code "v"), 47, 0)
    ∷ ((code "w"), 17, 0)
    ∷ ((code "x"), 45, 0)
    ∷ ((code "y"), 21, 0)
    ∷ ((code "z"), 44, 0)
    ∷ ((code "A"), 30, mod_shift)
    ∷ ((code "B"), 48, mod_shift)
    ∷ ((code "C"), 46, mod_shift)
    ∷ ((code "D"), 32, mod_shift)
    ∷ ((code "E"), 18, mod_shift)
    ∷ ((code "F"), 33, mod_shift)
    ∷ ((code "G"), 34, mod_shift)
    ∷ ((code "H"), 35, mod_shift)
    ∷ ((code "I"), 23, mod_shift)
    ∷ ((code "J"), 36, mod_shift)
    ∷ ((code "K"), 37, mod_shift)
    ∷ ((code "L"), 38, mod_shift)
    ∷ ((code "M"), 50, mod_shift)
    ∷ ((code "N"), 49, mod_shift)
    ∷ ((code "O"), 24, mod_shift)
    ∷ ((code "P"), 25, mod_shift)
    ∷ ((code "Q"), 16, mod_shift)
    ∷ ((code "R"), 19, mod_shift)
    ∷ ((code "S"), 31, mod_shift)
    ∷ ((code "T"), 20, mod_shift)
    ∷ ((code "U"), 22, mod_shift)
    ∷ ((code "V"), 47, mod_shift)
    ∷ ((code "W"), 17, mod_shift)
    ∷ ((code "X"), 45, mod_shift)
    ∷ ((code "Y"), 21, mod_shift)
    ∷ ((code "Z"), 44, mod_shift)
    ∷ ((code "1"), 2, 0)
    ∷ ((code "2"), 3, 0)
    ∷ ((code "3"), 4, 0)
    ∷ ((code "4"), 5, 0)
    ∷ ((code "5"), 6, 0)
    ∷ ((code "6"), 7, 0)
    ∷ ((code "7"), 8, 0)
    ∷ ((code "8"), 9, 0)
    ∷ ((code "9"), 10, 0)
    ∷ ((code "0"), 11, 0)
    ∷ ((code "!"), 2, mod_shift)
    ∷ ((code "@"), 3, mod_shift)
    ∷ ((code "#"), 4, mod_shift)
    ∷ ((code "$"), 5, mod_shift)
    ∷ ((code "%"), 6, mod_shift)
    ∷ ((code "^"), 7, mod_shift)
    ∷ ((code "&"), 8, mod_shift)
    ∷ ((code "*"), 9, mod_shift)
    ∷ ((code "("), 10, mod_shift)
    ∷ ((code ")"), 11, mod_shift)
    ∷ ((code " "), 57, 0)
    ∷ ((code "-"), 12, 0)
    ∷ ((code "_"), 12, mod_shift)
    ∷ ((code "="), 13, 0)
    ∷ ((code "+"), 13, mod_shift)
    ∷ ((code "["), 26, 0)
    ∷ ((code "{"), 26, mod_shift)
    ∷ ((code "]"), 27, 0)
    ∷ ((code "}"), 27, mod_shift)
    ∷ ((code ";"), 39, 0)
    ∷ ((code ":"), 39, mod_shift)
    ∷ ((code "'"), 40, 0)
    ∷ (0x22, 40, mod_shift)
    ∷ ((code "`"), 41, 0)
    ∷ ((code "~"), 41, mod_shift)
    ∷ (0x5c, 43, 0)
    ∷ ((code "|"), 43, mod_shift)
    ∷ ((code ","), 51, 0)
    ∷ ((code "<"), 51, mod_shift)
    ∷ ((code "."), 52, 0)
    ∷ ((code ">"), 52, mod_shift)
    ∷ ((code "/"), 53, 0)
    ∷ ((code "?"), 53, mod_shift)
    ∷ []
