-- ===== src/Engine/Context.antt =====
-- crates/engine/src/lib.rs: the input methods, and the reconstruction of keystrokes from composed
-- text.
pub mod Tables
pub mod Laws
use daklak_rs.Prelude.{ℕ, Bool, true, false, List, [], ◌∷◌, ◌++◌, is_empty, u8, if◌then◌else◌}
use daklak_rs.Text.{Text, byte_len}
use daklak_rs.Engine.Telex.{telex_chars_from_composed}
use daklak_rs.Engine.Vni.{vni_chars_from_composed}
use daklak_rs.Engine.Viqr.{viqr_chars_from_composed}
use daklak_rs.Engine.Passthrough.{ascii_passthrough}

pub data InputMethod : Type 0 where
  telex vni viqr : InputMethod

abbrev pub vietnamese_chars : ℕ → InputMethod → Text
vietnamese_chars ch telex = telex_chars_from_composed ch
vietnamese_chars ch vni = vni_chars_from_composed ch
vietnamese_chars ch viqr = viqr_chars_from_composed ch

unfoldable pub chars_from_composed : ℕ → InputMethod → Text
chars_from_composed ch method =
    let vietnamese = vietnamese_chars ch method in
    if is_empty vietnamese then ascii_passthrough ch else vietnamese

-- The loop of `context_from_surrounding`, over what it has collected.
unfoldable pub context_loop : InputMethod → Text → Text → List ℕ → Text × List ℕ
context_loop method [] result widths = (result, widths)
context_loop method (ch ∷ chars) result widths =
    let keys = chars_from_composed ch method in
    context_loop method chars (if is_empty keys then result else result ++ keys)
      (if is_empty keys then widths else widths ++ u8 (byte_len keys) ∷ [])

unfoldable pub context_from_surrounding : Text → InputMethod → Text × List ℕ
unfolding context_loop
context_from_surrounding t method = context_loop method t [] []

unfoldable pub telex_context_from_surrounding : Text → Text × List ℕ
unfolding context_from_surrounding
telex_context_from_surrounding t = context_from_surrounding t telex

unfoldable pub vni_context_from_surrounding : Text → Text × List ℕ
unfolding context_from_surrounding
vni_context_from_surrounding t = context_from_surrounding t vni
