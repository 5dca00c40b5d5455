-- ===== src/Ibus/Examples.antt =====
-- The theorem on crates/ibus-adapter at a concrete input.
use daklak_rs.Prelude.{refl, false, [], ◌∷◌, arith, none}
use daklak_rs.Text.{byte_len, len_utf8}
use daklak_rs.Strategy.Types.{surrounding_text, chars, bytes}
use daklak_rs.Strategy.Shadow.{ShadowBuffer}
use daklak_rs.Strategy.Tiers.{Strategy, apply}
use daklak_rs.Strategy.Client.{Client}
use daklak_rs.Strategy.Client.Refinement.{Mirrors, Edits}
use daklak_rs.Ibus.Sink
use daklak_rs.Ibus.Sink.{ibus_sink}
use daklak_rs.Ibus.Engine.{drain}
use daklak_rs.Ibus.Drain.{deliver}
use daklak_rs.Ibus.Drain.Applied.{drain-Edits}

abbrev shadow : ShadowBuffer
shadow = record {
  text = b'c' ∷ b'o' ∷ [];
  last_cursor = none;
  selected_before_chars = 0;
  selected_after_bytes = 0;
  selected_after_chars = 0;
  pending_commit = false;
}

abbrev strategy : Strategy
strategy = record { method = surrounding_text; shadow = shadow; modifiers = 0 }

abbrev client : Client
client = record {
  before = b'c' ∷ b'o' ∷ [];
  selected = [];
  after = b'n' ∷ [];
  unit = chars;
  keysyms = false;
  key_channel = false;
}

mirrored : Mirrors shadow client
unfolding byte_len
mirrored = record { same_text = refl; none_before = refl; after_bytes = refl; after_chars = refl }

drain-Edits_example :
    let (s', sink) = apply ibus_sink strategy 1 (0x1ed1 ∷ []) 3 40 Sink.new bytes in
    Edits client 1 (0x1ed1 ∷ []) s'.shadow (deliver (drain sink) client)
unfolding byte_len len_utf8
drain-Edits_example =
    drain-Edits strategy client 1 3 40 (0x1ed1 ∷ []) bytes mirrored refl refl refl (omega arith)
      (omega arith)
