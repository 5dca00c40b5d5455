-- ===== src/Engine/Context/Tables.antt =====
-- What the reversal tables have in common: they list the same letters, each is a translation of the
-- Telex one, and no two characters are written alike.
use daklak_rs.Prelude.{
  ℕ, ◌≡◌, refl, ap, sym, ◌∙◌, ◌≢◌, ◌⊎◌, inl, inr, Bool, true, not, ◌&&◌, ◌||◌, List, [], ◌∷◌, ◌++◌,
  map, arith, ◌==◌, if◌then◌else◌, is_empty, all, Bool-cases,
}
use daklak_rs.Text.{Text, text_eq}
use daklak_rs.Text.Slices.{text_eq_iff}
use daklak_rs.Engine.Arm.{match_arms}
use daklak_rs.Engine.Telex.{telex_arms, telex_chars_from_composed}
use daklak_rs.Engine.Vni.{vni_arms, vni_chars_from_composed}
use daklak_rs.Engine.Viqr.{viqr_arms, viqr_chars_from_composed}
use daklak_rs.Engine.Passthrough.{ascii_arms, ascii_passthrough}
use daklak_rs.Engine.Context.{InputMethod, telex, vni, viqr, vietnamese_chars, chars_from_composed}

-- One table translated key by key by `f` agrees with the other, once every arm of each is checked.
module _ (f : Text → Text) (source target : List (ℕ × Text)) where
  translated : ℕ × Text → Bool
  translated r = text_eq (match_arms r.0 target) (f r.1)

  covered : ℕ × Text → Bool
  covered r = not (is_empty (match_arms r.0 source))

  source_arms :
      (arms : List (ℕ × Text)) (ch : ℕ)
      → all translated arms ≡ true
      → (match_arms ch arms ≡ []) ⊎ (match_arms ch target ≡ f (match_arms ch arms))
  unfolding match_arms translated
  source_arms [] ch h = inl refl
  source_arms ((c, keys) ∷ arms) ch h =
      ground (arith, source_arms arms ch, text_eq_iff (match_arms c target) (f keys))

  target_arms :
      (arms : List (ℕ × Text)) (ch : ℕ)
      → all covered arms ≡ true
      → match_arms ch source ≡ []
      → match_arms ch arms ≡ []
  unfolding match_arms covered
  target_arms [] ch h e = refl
  target_arms ((c, keys) ∷ arms) ch h e = ground (arith, target_arms arms ch)

  translation :
      (ch : ℕ)
      → all translated source ≡ true
      → all covered target ≡ true
      → f [] ≡ []
      → match_arms ch target ≡ f (match_arms ch source)
  translation ch hs ht e = elim (source_arms source ch hs) [
    | inl none ↦ target_arms target ch ht none ∙ sym e ∙ ap f (sym none)
    | inr same ↦ same
  ]

-- A Telex key after the base letter, as the method writes it. Telex keys come in either case.
abbrev pub tone_key : InputMethod → ℕ → ℕ → ℕ → ℕ
tone_key telex k n p = k
tone_key vni k n p = n
tone_key viqr k n p = p

pub key_of : InputMethod → ℕ → ℕ → ℕ
key_of method base key =
    if key == b's' || key == b'S'
    then tone_key method key b'1' 0x27
    else if key == b'f' || key == b'F'
    then tone_key method key b'2' b'`'
    else if key == b'r' || key == b'R'
    then tone_key method key b'3' b'?'
    else if key == b'x' || key == b'X'
    then tone_key method key b'4' b'~'
    else if key == b'j' || key == b'J'
    then tone_key method key b'5' b'.'
    else if key == b'd' || key == b'D'
    then tone_key method key b'9' key
    else if (key == b'w' || key == b'W') && (base == b'a' || base == b'A')
    then tone_key method key b'8' b'('
    else if key == b'w' || key == b'W'
    then tone_key method key b'7' b'+'
    else tone_key method key b'6' b'^'

-- A Telex spelling as the method spells the letter: the base letter stays.
abbrev pub respell : InputMethod → Text → Text
respell method [] = []
respell method (base ∷ keys) = base ∷ map (key_of method base) keys

vni_translated : all (translated (respell vni) telex_arms vni_arms) telex_arms ≡ true
unfolding translated match_arms telex_arms vni_arms text_eq key_of
vni_translated = refl

vni_covered : all (covered (respell vni) telex_arms vni_arms) vni_arms ≡ true
unfolding covered match_arms telex_arms vni_arms
vni_covered = refl

viqr_translated : all (translated (respell viqr) telex_arms viqr_arms) telex_arms ≡ true
unfolding translated match_arms telex_arms viqr_arms text_eq key_of
viqr_translated = refl

viqr_covered : all (covered (respell viqr) telex_arms viqr_arms) viqr_arms ≡ true
unfolding covered match_arms telex_arms viqr_arms
viqr_covered = refl

-- What every arm satisfies, and the empty text, every result satisfies.
pub match_arms-all :
    (P : Text → Bool) (arms : List (ℕ × Text)) (ch : ℕ)
    → all (λ r. P r.1) arms ≡ true
    → P [] ≡ true
    → P (match_arms ch arms) ≡ true
unfolding match_arms
match_arms-all P [] ch h e = e
match_arms-all P ((c, keys) ∷ arms) ch h e = ground (arith, match_arms-all P arms ch)

respell_telex : (t : Text) → respell telex t ≡ t
unfolding key_of
respell_telex [] = refl
respell_telex (base ∷ keys) = ap (λ ks. base ∷ ks) (same base keys)
  where
    same : (base : ℕ) (keys : Text) → map (key_of telex base) keys ≡ keys
    same base [] = refl
    same base (k ∷ ks) = ground (arith, same base ks)

respell_ascii :
    (method : InputMethod) (ch : ℕ) → respell method (ascii_passthrough ch) ≡ ascii_passthrough ch
unfolding ascii_passthrough text_eq key_of
respell_ascii telex ch = respell_telex (ascii_passthrough ch)
respell_ascii vni ch =
    (text_eq_iff _ _).0 (match_arms-all (λ t. text_eq (respell vni t) t) ascii_arms ch refl refl)
respell_ascii viqr ch =
    (text_eq_iff _ _).0 (match_arms-all (λ t. text_eq (respell viqr t) t) ascii_arms ch refl refl)

respell_vietnamese :
    (ch : ℕ) (method : InputMethod)
    → vietnamese_chars ch method ≡ respell method (vietnamese_chars ch telex)
unfolding telex_chars_from_composed vni_chars_from_composed viqr_chars_from_composed
respell_vietnamese ch telex = sym (respell_telex (vietnamese_chars ch telex))
respell_vietnamese ch vni =
    translation (respell vni) telex_arms vni_arms ch vni_translated vni_covered refl
respell_vietnamese ch viqr =
    translation (respell viqr) telex_arms viqr_arms ch viqr_translated viqr_covered refl

is_empty-respell : (method : InputMethod) (t : Text) → is_empty (respell method t) ≡ is_empty t
is_empty-respell method [] = refl
is_empty-respell method (c ∷ cs) = refl

-- The three input methods write every character alike up to their keys: the spelling of a character
-- in a method is its Telex spelling with each key after the base letter translated. So they reverse
-- the same characters.
pub chars_from_composed-respell :
    (ch : ℕ) (method : InputMethod)
    → chars_from_composed ch method ≡ respell method (chars_from_composed ch telex)
unfolding chars_from_composed
chars_from_composed-respell ch method =
    let same = respell_vietnamese ch method in
    let blank = is_empty-respell method (vietnamese_chars ch telex) in
    rw same (
      rw blank (elim (Bool-cases (is_empty (vietnamese_chars ch telex))) [
        | inl e ↦ rw e (sym (respell_ascii method ch))
        | inr e ↦ rw e refl
      ]))

-- No two arms have the same keys.
distinct : List (ℕ × Text) → Bool
distinct [] = true
distinct ((c, keys) ∷ arms) = all (λ r. not (text_eq keys r.1)) arms && distinct arms

elsewhere :
    (arms : List (ℕ × Text)) (ch : ℕ) (keys : Text)
    → all (λ r. not (text_eq keys r.1)) arms ≡ true
    → keys ≢ []
    → keys ≢ match_arms ch arms
unfolding match_arms
elsewhere [] ch keys h n = n
elsewhere ((c, other) ∷ arms) ch keys h n =
    λ e. ground (arith, elsewhere arms ch keys, text_eq_iff keys other)

match_arms-injective :
    (arms : List (ℕ × Text)) (c d : ℕ)
    → distinct arms ≡ true
    → match_arms c arms ≡ match_arms d arms
    → match_arms c arms ≢ []
    → c ≡ d
unfolding match_arms distinct
match_arms-injective [] c d h e n = absurd (n refl)
match_arms-injective ((x, keys) ∷ arms) c d h e n =
    ground (arith, match_arms-injective arms c d, elsewhere arms c keys, elsewhere arms d keys)

match_arms-append :
    (arms more : List (ℕ × Text)) (ch : ℕ)
    → all (λ r. not (is_empty r.1)) arms ≡ true
    → match_arms ch (arms ++ more)
      ≡ (if is_empty (match_arms ch arms) then match_arms ch more else match_arms ch arms)
unfolding match_arms
match_arms-append [] more ch h = refl
match_arms-append ((c, []) ∷ arms) more ch h = cc
match_arms-append ((c, k ∷ keys) ∷ arms) more ch h = ground (arith, match_arms-append arms more ch)

abbrev pub arms_of : InputMethod → List (ℕ × Text)
arms_of telex = telex_arms
arms_of vni = vni_arms
arms_of viqr = viqr_arms

pub chars_from_composed-match_arms :
    (ch : ℕ) (method : InputMethod)
    → chars_from_composed ch method ≡ match_arms ch (arms_of method ++ ascii_arms)
unfolding chars_from_composed telex_chars_from_composed vni_chars_from_composed
    viqr_chars_from_composed ascii_passthrough
chars_from_composed-match_arms ch telex = sym (match_arms-append telex_arms ascii_arms ch refl)
chars_from_composed-match_arms ch vni = sym (match_arms-append vni_arms ascii_arms ch refl)
chars_from_composed-match_arms ch viqr = sym (match_arms-append viqr_arms ascii_arms ch refl)

arms_distinct : (method : InputMethod) → distinct (arms_of method ++ ascii_arms) ≡ true
unfolding distinct text_eq telex_arms vni_arms viqr_arms ascii_arms
arms_distinct telex = refl
arms_distinct vni = refl
arms_distinct viqr = refl

-- In no input method are two characters written with the same keys, unless with none.
pub chars_from_composed-injective :
    (method : InputMethod) (c d : ℕ)
    → chars_from_composed c method ≡ chars_from_composed d method
    → chars_from_composed c method ≢ []
    → c ≡ d
chars_from_composed-injective method c d e n =
    match_arms-injective (arms_of method ++ ascii_arms) c d (arms_distinct method)
      (sym (chars_from_composed-match_arms c method) ∙ e ∙ chars_from_composed-match_arms d method)
      (λ z. n (chars_from_composed-match_arms c method ∙ z))
