-- ===== src/Emitter/Shift.antt =====
-- What `emit_char` of crates/key-emitter types while the user holds Shift.
use daklak_rs.Prelude.{
  ℕ, ◌≡◌, refl, ◌∙◌, ap, Bool, true, false, [], ◌∷◌, ◌++◌, Option, none, some, ◌<◌, length,
  get_elem?, all_below, all_below_sound, ==_iff,
}
use daklak_rs.Keymap.{Emit, EmitSpec, emit, char_to_emit, append_symbol_rows}
use daklak_rs.Keymap.Inventory.{vn_lower, vn_upper, mod_shift, safe_keycodes}
use daklak_rs.Keymap.RoundTrip.{option_is}
use daklak_rs.Keymap.Layout.{typed}
use daklak_rs.Emitter.{SyntheticMods, EmitCharParams, emit_char}
use daklak_rs.Emitter.Client.{
  Client, Holds, client_emitter, press_mask, shown, emit_char-press_mask,
}

-- The key of a letter, under Shift, types the other.
types_shifted : Emit → Option ℕ → Bool
types_shifted (emit s) (some c) = option_is (typed s.keycode (press_mask mod_shift s.mods)) c
types_shifted _ _ = false

capital_shifted : Option ℕ → Option ℕ → Bool
unfolding types_shifted
capital_shifted (some c) up = types_shifted (char_to_emit c) up
capital_shifted none up = false

every_capital :
    all_below (length vn_lower) (λ i. capital_shifted (get_elem? vn_lower i) (get_elem? vn_upper i))
    ≡ true
unfolding capital_shifted vn_lower vn_upper typed option_is char_to_emit append_symbol_rows
    safe_keycodes
every_capital = refl

option_is-some : (o : Option ℕ) (c : ℕ) → option_is o c ≡ true → o ≡ some c
unfolding option_is
option_is-some none c h = cc
option_is-some (some x) c h = ap some ((==_iff x c).0 h)

types_shifted-typed :
    (s : EmitSpec) (o : Option ℕ) (c : ℕ)
    → types_shifted (emit s) o ≡ true
    → o ≡ some c
    → typed s.keycode (press_mask mod_shift s.mods) ≡ some c
unfolding types_shifted
types_shifted-typed s none c h e = cc
types_shifted-typed s (some x) c h e = option_is-some _ x h ∙ e

-- While Shift alone is held, `emit_char` types the capital of any small Vietnamese letter: it sets the
-- bits of the letter's level and clears none.
pub emit_char-get_elem? :
    (echo : Bool) (p : EmitCharParams) (now i big : ℕ) (s : EmitSpec) (c : Client)
    (q : SyntheticMods)
    → i < length vn_lower
    → get_elem? vn_lower i ≡ some p.c
    → get_elem? vn_upper i ≡ some big
    → char_to_emit p.c ≡ emit s
    → Holds p.held_user_kc c
    → c.mods ≡ p.raw_mods
    → p.raw_mods.depressed ≡ mod_shift
    → (emit_char (client_emitter echo) p now (c, q)).0.0.text ≡ c.text ++ big ∷ []
unfolding capital_shifted
emit_char-get_elem? echo p now i big s c q bound small capital found held user shift =
    let all_ok =
      all_below_sound (length vn_lower)
        (λ j. capital_shifted (get_elem? vn_lower j) (get_elem? vn_upper j)) i every_capital
        bound in
    let at_c : types_shifted (char_to_emit p.c) (get_elem? vn_upper i) ≡ true =
      rw small at all_ok in
    let at_s : types_shifted (emit s) (get_elem? vn_upper i) ≡ true = rw found at at_c in
    let (_, _, _, text) = emit_char-press_mask echo p now s c q found held user in
    text
    ∙ ap (λ t. c.text ++ shown t)
        (ap (λ m. typed s.keycode (press_mask m s.mods)) shift
          ∙ types_shifted-typed s (get_elem? vn_upper i) big at_s capital)
