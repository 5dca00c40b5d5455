-- ===== src/Strategy/Examples.antt =====
-- The theorems on crates/edit-strategy at concrete inputs.
use native.Mathlib.Omega.{arith}
use daklak_rs.Prelude.{◌≡◌, ◌++◌, refl, [], ◌∷◌, false, some, none, min}
use daklak_rs.Text.{Text, byte_len, len_utf8}
use daklak_rs.Text.Boundaries.{IsLongestFit}
use daklak_rs.Strategy.Types.{surrounding_text, bytes}
use daklak_rs.Strategy.Shadow.{ShadowBuffer, observe_surrounding}
use daklak_rs.Strategy.Shadow.Observe.{observe_surrounding-text}
use daklak_rs.Strategy.Tiers.{Strategy, apply}
use daklak_rs.Strategy.Client.{Client, client_sink}
use daklak_rs.Strategy.Client.Refinement.{Mirrors, Edits, apply-Edits}

-- "cô" before the cursor, "m" selected after it.
abbrev co : Text
co = b'c' ∷ 0xf4 ∷ []

abbrev shadow : ShadowBuffer
shadow = record {
  text = co;
  last_cursor = none;
  selected_before_chars = 0;
  selected_after_bytes = 1;
  selected_after_chars = 1;
  pending_commit = false;
}

abbrev client : Client
client = record {
  before = co;
  selected = b'm' ∷ [];
  after = b'!' ∷ [];
  unit = bytes;
  keysyms = false;
  key_channel = false;
}

abbrev strategy : Strategy
strategy = record { method = surrounding_text; shadow = shadow; modifiers = 0 }

mirrored : Mirrors shadow client
unfolding byte_len len_utf8
mirrored = record { same_text = refl; none_before = refl; after_bytes = refl; after_chars = refl }

apply-Edits_example :
    let (s', c') = apply client_sink strategy 1 (0x1ed1 ∷ []) 3 40 client bytes in
    Edits client 1 (0x1ed1 ∷ []) s'.shadow c'
unfolding byte_len len_utf8
apply-Edits_example =
    apply-Edits strategy client 1 3 40 (0x1ed1 ∷ []) mirrored tt (omega arith) (omega arith)

-- The same, with nothing selected.
abbrev bare_shadow : ShadowBuffer
bare_shadow = record shadow { selected_after_bytes = 0; selected_after_chars = 0 }

abbrev bare_client : Client
bare_client = record client { selected = [] }

bare_mirrored : Mirrors bare_shadow bare_client
unfolding byte_len len_utf8
bare_mirrored = record {
  same_text = refl;
  none_before = refl;
  after_bytes = refl;
  after_chars = refl;
}

observe_surrounding-text_example :
    let s' = (observe_surrounding shadow (co ++ b'm' ∷ []) 4 3).0 in
    IsLongestFit (co ++ b'm' ∷ []) (min 4 3) s'.text
    × (s'.last_cursor ≡ some 4)
    × (s'.pending_commit ≡ false)
observe_surrounding-text_example = observe_surrounding-text shadow (co ++ b'm' ∷ []) 4 3
