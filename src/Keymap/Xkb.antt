-- ===== src/Keymap/Xkb.antt =====
-- crates/keymap/src/xkb.rs, over the calls of libxkbcommon, which are parameters. A keymap and its state
-- are one value. The keymap is not read from a file descriptor here.
use Prim.Native.Nat.{bit_or}
use daklak_rs.Prelude.{
  ℕ, zero, suc, ◌+◌, ◌≤◌, ◌<◌, ◌≡◌, ◌≢◌, refl, ap, sym, ◌∙◌, inl, inr, Bool, ◌&&◌, ◌||◌, List, [],
  ◌∷◌, ◌^◌, Option, none, some, arith, ltb, leb, ◌==◌, ==_iff, if◌then◌else◌, Bool-cases,
}
use daklak_rs.Text.{Text, codes}

pub record Xkbcommon (K : Type 0) : Type 0 where
  pub mod_get_index : K → Text → ℕ
  pub keymap_key_repeats : K → ℕ → Bool
  pub key_get_one_sym : K → ℕ → ℕ
  pub key_get_layout : K → ℕ → ℕ
  pub key_get_syms_by_level : K → ℕ → ℕ → ℕ → List ℕ
  pub keysym_to_utf32 : ℕ → ℕ
  pub utf32_to_keysym : ℕ → ℕ
  pub update_mask : K → ℕ → ℕ → ℕ → ℕ → ℕ → ℕ → K

pub record CanonicalModifierMasks : Type 0 where
  pub shift : ℕ
  pub control : ℕ
  pub alt : ℕ
  pub logo : ℕ

abbrev pub default_masks : CanonicalModifierMasks
default_masks = record { shift = 0; control = 0; alt = 0; logo = 0 }

-- `char::from_u32`: the surrogates, and what lies past the last scalar, are none.
unfoldable pub from_u32 : ℕ → Option ℕ
from_u32 n = if ltb 0x10ffff n || (leb 0xd800 n && leb n 0xdfff) then none else some n

unfoldable pub scalar_of : ℕ → Option ℕ
unfolding from_u32
scalar_of utf32 = if utf32 == 0 || utf32 == 0xffffffff then none else from_u32 utf32

module _ {K : Type 0} (lib : Xkbcommon K) where
  unfoldable pub update_modifiers : K → ℕ → ℕ → ℕ → ℕ → K
  update_modifiers k depressed latched locked group =
      lib.update_mask k depressed latched locked group 0 0

  -- `MOD_INVALID` is 0xffffffff.
  unfoldable pub mod_mask_for_names : K → ℕ → List Text → ℕ
  mod_mask_for_names k mask [] = mask
  mod_mask_for_names k mask (name ∷ names) =
      let idx = lib.mod_get_index k name in
      mod_mask_for_names k (if idx == 0xffffffff || leb 32 idx then mask else bit_or mask (2 ^ idx))
        names

  unfoldable pub canonical_modifier_masks : K → CanonicalModifierMasks
  unfolding mod_mask_for_names
  canonical_modifier_masks k = record {
    shift = mod_mask_for_names k 0 (codes "Shift" ∷ []);
    control = mod_mask_for_names k 0 (codes "Control" ∷ []);
    alt = mod_mask_for_names k 0 (codes "Mod1" ∷ codes "Alt" ∷ []);
    logo = mod_mask_for_names k 0 (codes "Mod4" ∷ codes "Logo" ∷ []);
  }

  unfoldable pub key_repeats : K → ℕ → Bool
  key_repeats k evdev_code = lib.keymap_key_repeats k (evdev_code + 8)

  unfoldable pub key_to_char : K → ℕ → Option ℕ
  unfolding scalar_of
  key_to_char k evdev_code =
      scalar_of (lib.keysym_to_utf32 (lib.key_get_one_sym k (evdev_code + 8)))

  abbrev first_scalar : List ℕ → Option ℕ
  unfolding scalar_of
  first_scalar [] = none
  first_scalar (s ∷ _) = scalar_of (lib.keysym_to_utf32 s)

  unfoldable pub base_char : K → ℕ → Option ℕ
  unfolding scalar_of
  base_char k evdev_code =
      let keycode = evdev_code + 8 in
      first_scalar (lib.key_get_syms_by_level k keycode (lib.key_get_layout k keycode) 0)

  -- The loop over the evdev codes, with so many left.
  unfoldable pub find_keycode : K → ℕ → ℕ → ℕ → Option ℕ
  find_keycode k target zero evdev_code = none
  find_keycode k target (suc n) evdev_code =
      if lib.key_get_one_sym k (evdev_code + 8) == target
      then some evdev_code
      else find_keycode k target n (evdev_code + 1)

  -- `NoSymbol` is 0.
  unfoldable pub char_to_keycode : K → ℕ → Option ℕ
  unfolding find_keycode
  char_to_keycode k ch =
      let target = lib.utf32_to_keysym ch in
      if target == 0 then none else find_keycode k target 248 8

  -- What a search of the codes from `lo` up to `hi` is to find: the first that has the keysym.
  abbrev pub Finds : K → ℕ → ℕ → ℕ → Option ℕ → Type 0
  Finds k target lo hi none = (kc : ℕ) → lo ≤ kc → kc < hi → lib.key_get_one_sym k (kc + 8) ≢ target
  Finds k target lo hi (some found) =
      (lo ≤ found)
      × (found < hi)
      × (lib.key_get_one_sym k (found + 8) ≡ target)
      × ((kc : ℕ) → lo ≤ kc → kc < found → lib.key_get_one_sym k (kc + 8) ≢ target)

  -- No key from `lo` up to `hi` has the keysym.
  abbrev Lacks : K → ℕ → ℕ → ℕ → Type 0
  Lacks k target lo hi = (kc : ℕ) → lo ≤ kc → kc < hi → lib.key_get_one_sym k (kc + 8) ≢ target

  Lacks-next :
      (k : K) (target lo hi : ℕ)
      → lib.key_get_one_sym k (lo + 8) ≢ target
      → Lacks k target (lo + 1) hi
      → Lacks k target lo hi
  Lacks-next k target lo hi first rest kc at_lo below = elim (Bool-cases (kc == lo)) [
    | inl here ↦
        λ e. first (ap (λ i. lib.key_get_one_sym k (i + 8)) (sym ((==_iff kc lo).0 here)) ∙ e)
    | inr later ↦ rest kc (ground arith) below
  ]

  Finds-next :
      (k : K) (target lo hi : ℕ) (o : Option ℕ)
      → lib.key_get_one_sym k (lo + 8) ≢ target
      → Finds k target (lo + 1) hi o
      → Finds k target lo hi o
  Finds-next k target lo hi none first rest = Lacks-next k target lo hi first rest
  Finds-next k target lo hi (some found) first (above, below, has, before) =
      (omega arith, below, has, Lacks-next k target lo found first before)

  find_keycode-Finds :
      (k : K) (target n lo hi : ℕ) → lo + n ≡ hi → Finds k target lo hi (find_keycode k target n lo)
  unfolding find_keycode
  find_keycode-Finds k target zero lo hi e = λ kc a b. absurd (omega arith)
  find_keycode-Finds k target (suc n) lo hi e =
      elim (Bool-cases (lib.key_get_one_sym k (lo + 8) == target)) [
        | inl here ↦
            rw here (omega arith, omega arith, (==_iff _ _).0 here, λ kc a b. absurd (omega arith))
        | inr other ↦ rw other (
            Finds-next k target lo hi _ (λ q. ground arith)
              (find_keycode-Finds k target n (lo + 1) hi (omega arith)))
      ]

  -- For a character that has a keysym, `char_to_keycode` finds the first evdev code from 8 to 255 whose
  -- key has that keysym in the state of the modifiers, and finds none only if there is none. The codes
  -- below 8, among them those of the digits 1 to 6, are not searched.
  pub char_to_keycode-Finds :
      (k : K) (ch : ℕ)
      → lib.utf32_to_keysym ch ≢ 0
      → Finds k (lib.utf32_to_keysym ch) 8 256 (char_to_keycode k ch)
  unfolding char_to_keycode
  char_to_keycode-Finds k ch known = elim (Bool-cases (lib.utf32_to_keysym ch == 0)) [
    | inl e ↦ absurd (known ((==_iff _ _).0 e))
    | inr e ↦ rw e (find_keycode-Finds k (lib.utf32_to_keysym ch) 248 8 256 refl)
  ]
