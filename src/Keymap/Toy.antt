-- ===== src/Keymap/Toy.antt =====
-- A small libxkbcommon for the tests: each character is its own keysym, and a key has the keysym of its
-- keycode plus 64.
use daklak_rs.Prelude.{◌+◌, Bool, true, [], ◌∷◌}
use daklak_rs.Keymap.Xkb.{Xkbcommon}

abbrev pub toy_xkb : Xkbcommon Bool
toy_xkb = record {
  mod_get_index = λ k name. 0;
  keymap_key_repeats = λ k kc. true;
  key_get_one_sym = λ k kc. kc + 64;
  key_get_layout = λ k kc. 0;
  key_get_syms_by_level = λ k kc layout level. (kc + 64) ∷ [];
  keysym_to_utf32 = λ sym. sym;
  utf32_to_keysym = λ c. c;
  update_mask = λ k depressed latched locked base latch lock. k;
}
