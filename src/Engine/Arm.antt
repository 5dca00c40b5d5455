-- ===== src/Engine/Arm.antt =====
-- A `match` on a character whose arms are text literals.
use Prim.Native.Char.{Char, code}
use Prim.Native.String.{String}
use daklak_rs.Prelude.{ℕ, List, [], ◌∷◌, ◌==◌, if◌then◌else◌}
use daklak_rs.Text.{Text, codes}

abbrev pub arm : Char → String → ℕ × Text
arm c keys = (code c, codes keys)

-- The first arm for the character; the empty text where there is none.
unfoldable pub match_arms : ℕ → List (ℕ × Text) → Text
match_arms ch [] = []
match_arms ch ((c, keys) ∷ arms) = if ch == c then keys else match_arms ch arms
