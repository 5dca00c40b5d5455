-- ===== src/Engine/Examples.antt =====
-- The theorems on crates/engine at concrete inputs.
use daklak_rs.Prelude.{ℕ, ◌≡◌, ◌≢◌, refl, ◌⊎◌, List, [], ◌∷◌, true, false, ap, is_empty}
use daklak_rs.Text.{Text}
use daklak_rs.Engine.Vni.{vni_chars_from_composed}
use daklak_rs.Engine.Context.{telex, vni, chars_from_composed, context_from_surrounding}
use daklak_rs.Engine.Context.Tables.{
  respell, chars_from_composed-respell, chars_from_composed-injective,
}
use daklak_rs.Engine.Telex.{telex_chars_from_composed}
use daklak_rs.Engine.KeyMap.{Entry}
use daklak_rs.Engine.State.{feed_context_gated, EngineState}
use daklak_rs.Engine.State.Gate.{Shows, fresh_engine, feed_context_gated_cases}
use daklak_rs.Engine.Toy.{toy_engine}

-- ế, and the texts "việt" and " nam".
abbrev e_acute : ℕ
e_acute = 0x1ebf

abbrev viet : Text
viet = b'v' ∷ b'i' ∷ 0x1ec7 ∷ b't' ∷ []

abbrev nam : Text
nam = b' ' ∷ b'n' ∷ b'a' ∷ b'm' ∷ []

chars_from_composed-respell_example :
    chars_from_composed e_acute vni ≡ respell vni (chars_from_composed e_acute telex)
chars_from_composed-respell_example = chars_from_composed-respell e_acute vni

spelled_some : chars_from_composed e_acute vni ≢ []
unfolding chars_from_composed vni_chars_from_composed
spelled_some = λ e. let full : false ≡ true = ap is_empty e in cc

chars_from_composed-injective_example : e_acute ≡ e_acute
chars_from_composed-injective_example =
    chars_from_composed-injective vni e_acute e_acute refl spelled_some

abbrev iso : Text
iso = b'i' ∷ b's' ∷ b'o' ∷ b'8' ∷ []

abbrev bracket_mapping : List Entry
bracket_mapping = record { key = b'w'; action = 9 } ∷ record { key = b'['; action = 7 } ∷ []

abbrev idle : EngineState Text
idle = record { engine = []; method = telex; bracket_shortcuts = true; modern_style = true }

feed_context_gated_cases_example :
    (Shows toy_engine (fresh_engine toy_engine idle) [] (b'a' ∷ b'a' ∷ []) (0xe2 ∷ [])
      × (feed_context_gated toy_engine idle (0xe2 ∷ [])
          ≡ (record idle { engine = b'a' ∷ b'a' ∷ [] }, true)))
    ⊎ ((¬ Shows toy_engine (fresh_engine toy_engine idle) [] (b'a' ∷ b'a' ∷ []) (0xe2 ∷ []))
        × (feed_context_gated toy_engine idle (0xe2 ∷ []) ≡ (idle, false)))
unfolding context_from_surrounding chars_from_composed telex_chars_from_composed
feed_context_gated_cases_example = feed_context_gated_cases toy_engine idle (0xe2 ∷ [])
