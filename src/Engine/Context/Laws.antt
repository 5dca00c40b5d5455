-- ===== src/Engine/Context/Laws.antt =====
-- Laws of `context_from_surrounding`: it spells the text character by character, and its widths
-- divide the result into the spellings.
use daklak_rs.Prelude.{
  ℕ, ◌≤◌, ◌<◌, ◌≡◌, refl, sym, ◌∙◌, ◌⊎◌, inl, inr, Bool, true, false, not, ◌&&◌, ◌||◌, List, [],
  ◌∷◌, ◌++◌, map, arith, ltb, leb, if◌then◌else◌, is_empty, all, append-nil, append_assoc, u8,
  length, all_below, all_below_sound, sum,
}
use daklak_rs.Text.{Text, text_eq, byte_len, len_utf8, is_ascii_alphanumeric}
use daklak_rs.Text.Slices.{text_eq_iff, byte_len-append}
use daklak_rs.Engine.Arm.{match_arms}
use daklak_rs.Engine.Telex.{telex_arms}
use daklak_rs.Engine.Vni.{vni_arms}
use daklak_rs.Engine.Viqr.{viqr_arms}
use daklak_rs.Engine.Passthrough.{ascii_arms}
use daklak_rs.Engine.Context.{
  InputMethod, telex, vni, viqr, chars_from_composed, context_loop, context_from_surrounding,
}
use daklak_rs.Engine.Context.Tables.{match_arms-all, arms_of, chars_from_composed-match_arms}

-- The spelling of a text and the widths of its spelled characters, one character at a time.
abbrev pub spelled : InputMethod → Text → Text
spelled method [] = []
spelled method (ch ∷ chars) = chars_from_composed ch method ++ spelled method chars

abbrev pub spelled_widths : InputMethod → Text → List ℕ
spelled_widths method [] = []
spelled_widths method (ch ∷ chars) =
    let rest = spelled_widths method chars in
    if is_empty (chars_from_composed ch method)
    then rest
    else length (chars_from_composed ch method) ∷ rest

short : Text → Bool
short keys = leb (length keys) 3 && all (λ k. ltb k 0x80) keys

arms_short : (method : InputMethod) → all (λ r. short r.1) (arms_of method ++ ascii_arms) ≡ true
unfolding short telex_arms vni_arms viqr_arms ascii_arms
arms_short telex = refl
arms_short vni = refl
arms_short viqr = refl

keys_short : (ch : ℕ) (method : InputMethod) → short (chars_from_composed ch method) ≡ true
unfolding short
keys_short ch method =
    rw (chars_from_composed-match_arms ch method)
      (match_arms-all short (arms_of method ++ ascii_arms) ch (arms_short method) refl)

byte_len_ascii : (t : Text) → all (λ k. ltb k 0x80) t ≡ true → byte_len t ≡ length t
unfolding byte_len len_utf8
byte_len_ascii [] h = refl
byte_len_ascii (c ∷ cs) h = ground (arith, byte_len_ascii cs)

short_parts : (t : Text) → short t ≡ true → (length t ≤ 3) × (all (λ k. ltb k 0x80) t ≡ true)
unfolding short
short_parts t h = ground arith

-- A spelling has at most three keys, all ASCII, so its width in bytes fits the `u8`.
pub keys_width :
    (ch : ℕ) (method : InputMethod)
    → let keys = chars_from_composed ch method in
      (byte_len keys ≡ length keys) × (length keys ≤ 3) × (u8 (byte_len keys) ≡ length keys)
keys_width ch method =
    let (len, ascii) = short_parts (chars_from_composed ch method) (keys_short ch method) in
    let bytes = byte_len_ascii (chars_from_composed ch method) ascii in (bytes, len, omega arith)

context_loop-spelled :
    (method : InputMethod) (t result : Text) (widths : List ℕ)
    → context_loop method t result widths
      ≡ (result ++ spelled method t, widths ++ spelled_widths method t)
unfolding context_loop
context_loop-spelled method [] result widths = simp append-nil
context_loop-spelled method (ch ∷ chars) result widths =
    elim (empty_or (chars_from_composed ch method)) [
      | inl e ↦ rw e (context_loop-spelled method chars result widths)
      | inr e ↦
          rw (e, (keys_width ch method).2)
            (context_loop-spelled method chars _ _ ∙ simp append_assoc)
    ]
  where
    empty_or : (t : Text) → (t ≡ []) ⊎ (is_empty t ≡ false)
    empty_or [] = inl refl
    empty_or (c ∷ cs) = inr refl

pub context_from_surrounding-spelled :
    (t : Text) (method : InputMethod)
    → context_from_surrounding t method ≡ (spelled method t, spelled_widths method t)
unfolding context_from_surrounding
context_from_surrounding-spelled t method = context_loop-spelled method t [] []

spelled-append :
    (method : InputMethod) (s t : Text)
    → spelled method (s ++ t) ≡ spelled method s ++ spelled method t
spelled-append method [] t = refl
spelled-append method (c ∷ cs) t =
    rw (spelled-append method cs t) (sym (append_assoc (chars_from_composed c method) _ _))

spelled_widths-append :
    (method : InputMethod) (s t : Text)
    → spelled_widths method (s ++ t) ≡ spelled_widths method s ++ spelled_widths method t
spelled_widths-append method [] t = refl
spelled_widths-append method (c ∷ cs) t = ground (arith, spelled_widths-append method cs t)

-- The context of a text in two parts is that of the first followed by that of the second, keys and
-- widths alike: a word can be reconstructed piece by piece.
pub context_from_surrounding-append :
    (s t : Text) (method : InputMethod)
    → ((context_from_surrounding (s ++ t) method).0
        ≡ (context_from_surrounding s method).0 ++ (context_from_surrounding t method).0)
      × ((context_from_surrounding (s ++ t) method).1
          ≡ (context_from_surrounding s method).1 ++ (context_from_surrounding t method).1)
context_from_surrounding-append s t method =
    rw
      (
        context_from_surrounding-spelled (s ++ t) method,
        context_from_surrounding-spelled s method,
        context_from_surrounding-spelled t method,
      )
      (spelled-append method s t, spelled_widths-append method s t)

widths_sum :
    (method : InputMethod) (t : Text) → sum (spelled_widths method t) ≡ byte_len (spelled method t)
widths_sum method [] = unfold byte_len in refl
widths_sum method (c ∷ cs) =
    let width = (keys_width c method).0 in
    let parts = byte_len-append (chars_from_composed c method) (spelled method cs) in
    ground (arith, width, parts, widths_sum method cs, byte_len_nil (chars_from_composed c method))
  where
    byte_len_nil : (t : Text) → is_empty t ≡ true → length t ≡ 0
    byte_len_nil [] h = refl
    byte_len_nil (c ∷ cs) h = cc

-- The widths that come with a context add up to its length in bytes.
pub context_from_surrounding_widths :
    (t : Text) (method : InputMethod)
    → sum (context_from_surrounding t method).1 ≡ byte_len (context_from_surrounding t method).0
context_from_surrounding_widths t method =
    rw (context_from_surrounding-spelled t method) (widths_sum method t)

-- Letters and digits of ASCII are written as themselves.
itself : InputMethod → ℕ → Bool
itself method c =
    not (is_ascii_alphanumeric c) || text_eq (match_arms c (arms_of method ++ ascii_arms)) (c ∷ [])

itself_below : (method : InputMethod) → all_below 0x80 (itself method) ≡ true
unfolding itself is_ascii_alphanumeric text_eq match_arms telex_arms vni_arms viqr_arms ascii_arms
itself_below telex = refl
itself_below vni = refl
itself_below viqr = refl

alphanumeric_below : (c : ℕ) → is_ascii_alphanumeric c ≡ true → c < 0x80
unfolding is_ascii_alphanumeric
alphanumeric_below c h = ground arith

pub chars_from_composed_alphanumeric :
    (method : InputMethod) (c : ℕ)
    → is_ascii_alphanumeric c ≡ true
    → chars_from_composed c method ≡ c ∷ []
unfolding itself
chars_from_composed_alphanumeric method c h =
    let checked =
      all_below_sound 0x80 (itself method) c (itself_below method) (alphanumeric_below c h) in
    chars_from_composed-match_arms c method ∙ (text_eq_iff _ _).0 (ground arith)

itself_spelled :
    (method : InputMethod) (t : Text)
    → all is_ascii_alphanumeric t ≡ true
    → (spelled method t ≡ t) × (spelled_widths method t ≡ map (λ c. 1) t)
itself_spelled method [] h = (refl, refl)
itself_spelled method (c ∷ cs) h =
    ground (arith, chars_from_composed_alphanumeric method c, itself_spelled method cs)

-- A text of ASCII letters and digits is its own context, one byte to a character.
pub context_from_surrounding_alphanumeric :
    (t : Text) (method : InputMethod)
    → all is_ascii_alphanumeric t ≡ true
    → ((context_from_surrounding t method).0 ≡ t)
      × ((context_from_surrounding t method).1 ≡ map (λ c. 1) t)
context_from_surrounding_alphanumeric t method h =
    rw (context_from_surrounding-spelled t method) (itself_spelled method t h)
