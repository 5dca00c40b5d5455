-- ===== src/Text.antt =====
-- Text as the source's `str` and `String` have it: Unicode scalars, with positions in UTF-8 bytes.
-- What is here is the part of the Rust standard library that the program computes with.
pub mod Slices
pub mod Boundaries
use Prim.Native.Char.{code}
use Prim.Native.String.{String}
use daklak_rs.Prelude.{
  ℕ, zero, suc, ◌+◌, ◌-◌, ◌/◌, ◌%◌, Bool, true, false, ◌&&◌, ◌||◌, List, [], ◌∷◌, ◌++◌, Option,
  none, some, ltb, leb, ◌==◌, if◌then◌else◌,
}

abbrev pub Text : Type 0
Text = List ℕ

-- The scalars of a text literal.
abbrev pub codes : String → Text
codes String.[] = []
codes (String.◌∷◌ c s) = code c ∷ codes s

-- `char::len_utf8`.
unfoldable pub len_utf8 : ℕ → ℕ
len_utf8 c = if ltb c 0x80 then 1 else if ltb c 0x800 then 2 else if ltb c 0x10000 then 3 else 4

-- The UTF-8 bytes of a scalar.
unfoldable pub encode : ℕ → List ℕ
encode c =
    if ltb c 0x80
    then c ∷ []
    else if ltb c 0x800
    then (0xc0 + c / 64) ∷ (0x80 + c % 64) ∷ []
    else if ltb c 0x10000
    then (0xe0 + c / 4096) ∷ (0x80 + c / 64 % 64) ∷ (0x80 + c % 64) ∷ []
    else (0xf0 + c / 262144) ∷ (0x80 + c / 4096 % 64) ∷ (0x80 + c / 64 % 64) ∷ (0x80 + c % 64) ∷ []

-- `str::len`.
unfoldable pub byte_len : Text → ℕ
byte_len [] = 0
byte_len (c ∷ cs) = len_utf8 c + byte_len cs

-- `str::as_bytes`.
unfoldable pub as_bytes : Text → List ℕ
as_bytes [] = []
as_bytes (c ∷ cs) = encode c ++ as_bytes cs

-- `str::is_char_boundary`.
unfoldable pub is_char_boundary : Text → ℕ → Bool
is_char_boundary t zero = true
is_char_boundary [] (suc i) = false
is_char_boundary (c ∷ cs) (suc i) =
    leb (len_utf8 c) (suc i) && is_char_boundary cs (suc i - len_utf8 c)

-- `&text[..i]` and `&text[i..]`, at a boundary `i`.
unfoldable pub slice_to : Text → ℕ → Text
slice_to [] i = []
slice_to (c ∷ cs) i = if leb (len_utf8 c) i then c ∷ slice_to cs (i - len_utf8 c) else []

unfoldable pub slice_from : Text → ℕ → Text
slice_from [] i = []
slice_from (c ∷ cs) i = if leb (len_utf8 c) i then slice_from cs (i - len_utf8 c) else c ∷ cs

-- The largest boundary up to `i`: `(0..=i).rev().find(|i| text.is_char_boundary(*i)).unwrap_or(0)`.
unfoldable pub floor_boundary : Text → ℕ → ℕ
floor_boundary t zero = 0
floor_boundary t (suc i) = if is_char_boundary t (suc i) then suc i else floor_boundary t i

-- `&text[i..j]`.
unfoldable pub slice : Text → ℕ → ℕ → Text
slice t i j = slice_from (slice_to t j) i

-- `text.get(..i)` and `text.get(i..)`.
unfoldable pub get_to : Text → ℕ → Option Text
get_to t i = if is_char_boundary t i then some (slice_to t i) else none

unfoldable pub get_from : Text → ℕ → Option Text
get_from t i = if is_char_boundary t i then some (slice_from t i) else none

-- `str::char_indices`, counted from an offset.
unfoldable pub char_indices : ℕ → Text → List (ℕ × ℕ)
char_indices i [] = []
char_indices i (c ∷ cs) = (i, c) ∷ char_indices (i + len_utf8 c) cs

-- `Iterator::find`.
unfoldable pub find {ℓ} : {A : Type ℓ} → (A → Bool) → List A → Option A
find p [] = none
find p (x ∷ xs) = if p x then some x else find p xs

-- `char::is_whitespace`: the White_Space property of Unicode.
unfoldable pub is_whitespace : ℕ → Bool
is_whitespace c =
    (leb 0x9 c && leb c 0xd)
    || c == 0x20
    || c == 0x85
    || c == 0xa0
    || c == 0x1680
    || (leb 0x2000 c && leb c 0x200a)
    || c == 0x2028
    || c == 0x2029
    || c == 0x202f
    || c == 0x205f
    || c == 0x3000

-- `char::is_ascii_alphabetic`.
unfoldable pub is_ascii_alphabetic : ℕ → Bool
is_ascii_alphabetic c = (leb 0x41 c && leb c 0x5a) || (leb 0x61 c && leb c 0x7a)

-- `char::is_ascii`.
abbrev pub is_ascii : ℕ → Bool
is_ascii c = ltb c 0x80

-- `==` of two texts.
unfoldable pub text_eq : Text → Text → Bool
text_eq [] [] = true
text_eq [] (d ∷ ds) = false
text_eq (c ∷ cs) [] = false
text_eq (c ∷ cs) (d ∷ ds) = (c == d) && text_eq cs ds

-- `==` of two optional texts.
unfoldable pub option_text_eq : Option Text → Option Text → Bool
option_text_eq none none = true
option_text_eq none (some t) = false
option_text_eq (some s) none = false
option_text_eq (some s) (some t) = text_eq s t

-- `char::is_ascii_alphanumeric`.
unfoldable pub is_ascii_alphanumeric : ℕ → Bool
unfolding is_ascii_alphabetic
is_ascii_alphanumeric c = is_ascii_alphabetic c || (leb 0x30 c && leb c 0x39)
