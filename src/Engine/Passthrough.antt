-- ===== src/Engine/Passthrough.antt =====
-- `ascii_passthrough` of crates/engine/src/lib.rs: letters and digits stand for themselves.
use daklak_rs.Prelude.{ℕ, List, [], ◌∷◌}
use daklak_rs.Text.{Text}
use daklak_rs.Engine.Arm.{arm, match_arms}

unfoldable pub ascii_arms : List (ℕ × Text)
ascii_arms =
    arm "A" "A"
    ∷ arm "B" "B"
    ∷ arm "C" "C"
    ∷ arm "D" "D"
    ∷ arm "E" "E"
    ∷ arm "F" "F"
    ∷ arm "G" "G"
    ∷ arm "H" "H"
    ∷ arm "I" "I"
    ∷ arm "J" "J"
    ∷ arm "K" "K"
    ∷ arm "L" "L"
    ∷ arm "M" "M"
    ∷ arm "N" "N"
    ∷ arm "O" "O"
    ∷ arm "P" "P"
    ∷ arm "Q" "Q"
    ∷ arm "R" "R"
    ∷ arm "S" "S"
    ∷ arm "T" "T"
    ∷ arm "U" "U"
    ∷ arm "V" "V"
    ∷ arm "W" "W"
    ∷ arm "X" "X"
    ∷ arm "Y" "Y"
    ∷ arm "Z" "Z"
    ∷ arm "a" "a"
    ∷ arm "b" "b"
    ∷ arm "c" "c"
    ∷ arm "d" "d"
    ∷ arm "e" "e"
    ∷ arm "f" "f"
    ∷ arm "g" "g"
    ∷ arm "h" "h"
    ∷ arm "i" "i"
    ∷ arm "j" "j"
    ∷ arm "k" "k"
    ∷ arm "l" "l"
    ∷ arm "m" "m"
    ∷ arm "n" "n"
    ∷ arm "o" "o"
    ∷ arm "p" "p"
    ∷ arm "q" "q"
    ∷ arm "r" "r"
    ∷ arm "s" "s"
    ∷ arm "t" "t"
    ∷ arm "u" "u"
    ∷ arm "v" "v"
    ∷ arm "w" "w"
    ∷ arm "x" "x"
    ∷ arm "y" "y"
    ∷ arm "z" "z"
    ∷ arm "0" "0"
    ∷ arm "1" "1"
    ∷ arm "2" "2"
    ∷ arm "3" "3"
    ∷ arm "4" "4"
    ∷ arm "5" "5"
    ∷ arm "6" "6"
    ∷ arm "7" "7"
    ∷ arm "8" "8"
    ∷ arm "9" "9"
    ∷ []

unfoldable pub ascii_passthrough : ℕ → Text
unfolding ascii_arms match_arms
ascii_passthrough ch = match_arms ch ascii_arms
