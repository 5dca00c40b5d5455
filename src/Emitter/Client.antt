-- ===== src/Emitter/Client.antt =====
-- What a client makes of the keys that `emit_char` of crates/key-emitter sends: a client that drops the
-- press of a key that it has down, as the input thread of an X server does.
use Prim.Native.Nat.{bit_or, bit_or-bitwise}
use daklak_rs.Prelude.{
  ℕ, ◌≡◌, refl, ap, ◌∙◌, Bool, true, false, not, ◌&&◌, ◌||◌, List, [], ◌∷◌, ◌++◌, Option, none,
  some, arith, ◌==◌, if◌then◌else◌, Bool-cases, inl, inr,
}
use daklak_rs.Keymap.{EmitSpec, emit, char_to_emit, plan_mod_dance}
use daklak_rs.Keymap.Layout.{typed}
use daklak_rs.Keymap.RoundTrip.{char_to_emit-typed}
use daklak_rs.Emitter.{
  ModifierSnapshot, KeyEmitter, SyntheticMods, EmitCharParams, is_held, dance_step, pulse,
  prelude_release, emit_danced, emit_found, emit_char,
}

pub record Client : Type 0 where
  pub down : ℕ → Bool
  pub mods : ModifierSnapshot
  pub text : List ℕ

abbrev pub shown : Option ℕ → List ℕ
shown none = []
shown (some c) = c ∷ []

-- A press types what the keymap has at the key and the mask.
abbrev pub press : ℕ → Client → Client
press k c = record c {
  down = λ j. j == k || c.down j;
  text = if c.down k then c.text else c.text ++ shown (typed k c.mods.depressed);
}

abbrev pub release : ℕ → Client → Client
release k c = record c { down = λ j. not (j == k) && c.down j }

abbrev pub on_key : Client → ℕ → ℕ → ℕ → Client
on_key c time k value = if value == 0 then release k c else press k c

abbrev pub client_emitter : Bool → KeyEmitter Client
client_emitter echo = record {
  emit_key = on_key;
  emit_modifiers = λ c m. record c { mods = m };
  modifier_echo_through_grab = echo;
}

-- The client has no key down but the one that the user holds.
abbrev pub Holds : Option ℕ → Client → Type 0
Holds held c = (k : ℕ) → c.down k ≡ true → is_held held k ≡ true

bit_or_zero : (m : ℕ) → bit_or 0 m ≡ m
bit_or_zero m = λ i. bit_or-bitwise 0 m i

-- The mask under which the key is pressed.
abbrev pub press_mask : ℕ → ℕ → ℕ
press_mask depressed spec_mods = if spec_mods == 0 then depressed else bit_or depressed spec_mods

press_mask_zero : (m : ℕ) → press_mask 0 m ≡ m
press_mask_zero m = ground (arith, bit_or_zero m)

module _ (echo : Bool) (s : EmitSpec) (p : EmitCharParams) (now : ℕ) where
  abbrev e : KeyEmitter Client
  e = client_emitter echo

  -- After the prelude the key is up, and nothing else is changed.
  prelude_release_lem :
      (c : Client)
      → Holds p.held_user_kc c
      → let c' = prelude_release e s p c in
        (c'.down s.keycode ≡ false) × (c'.mods ≡ c.mods) × (c'.text ≡ c.text)
  unfolding prelude_release
  prelude_release_lem c h = elim (Bool-cases (is_held p.held_user_kc s.keycode)) [
    | inl held ↦ rw held (ground arith, refl, refl)
    | inr free ↦ elim (Bool-cases (c.down s.keycode)) [
      | inl down ↦ cc (h s.keycode down)
      | inr up ↦ rw free (up, refl, refl)
    ]
  ]

  -- A key that is up is typed, under the mask of the moment, and left up.
  pulse_lem :
      (c : Client) (q : SyntheticMods)
      → c.down s.keycode ≡ false
      → let c' = (pulse e s p.time (c, q)).0 in
        (c'.down s.keycode ≡ false)
        × (c'.mods ≡ c.mods)
        × (c'.text ≡ c.text ++ shown (typed s.keycode c.mods.depressed))
  unfolding pulse
  pulse_lem c q up = (ground arith, refl, rw up refl)

  emit_danced_lem :
      (c : Client) (q : SyntheticMods)
      → c.down s.keycode ≡ false
      → c.mods ≡ p.raw_mods
      → let dance = plan_mod_dance p.raw_mods.depressed s.mods in
        let c' = (emit_danced e dance s p now (c, q)).0 in
        (c'.down s.keycode ≡ false)
        × (c'.mods ≡ p.raw_mods)
        × (c'.text ≡ c.text ++ shown (typed s.keycode (press_mask p.raw_mods.depressed s.mods)))
  unfolding plan_mod_dance emit_danced dance_step
  emit_danced_lem c q up user = elim (Bool-cases (s.mods == 0)) [
    | inl base ↦
        let (a, b, t) = pulse_lem c q up in
        rw base (
          a,
          b ∙ user,
          t ∙ ap (λ (m : ModifierSnapshot). c.text ++ shown (typed s.keycode m.depressed)) user,
        )
    | inr danced ↦ rw danced (ground arith, refl, rw up refl)
  ]

-- A key that is down after the emission was down before.
module _ (echo : Bool) (s : EmitSpec) (p : EmitCharParams) (now k : ℕ) where
  pulse_down :
      (c : Client) (q : SyntheticMods)
      → (pulse (client_emitter echo) s p.time (c, q)).0.down k ≡ true
      → c.down k ≡ true
  unfolding pulse
  pulse_down c q h = ground arith

  prelude_down :
      (c : Client) → (prelude_release (client_emitter echo) s p c).down k ≡ true → c.down k ≡ true
  unfolding prelude_release
  prelude_down c h = elim (Bool-cases (is_held p.held_user_kc s.keycode)) [
    | inl e ↦ let h' = rw e at h in ground arith
    | inr e ↦ rw e at h
  ]

  emit_danced_down :
      (dance : Option (ℕ × ℕ)) (c : Client) (q : SyntheticMods)
      → (emit_danced (client_emitter echo) dance s p now (c, q)).0.down k ≡ true
      → c.down k ≡ true
  unfolding emit_danced dance_step pulse
  emit_danced_down none c q h = ground arith
  emit_danced_down (some (a, b)) c q h = ground arith

module _ (echo : Bool) (p : EmitCharParams) (now : ℕ) where
  -- Sent to a client that has no key down but the user's and the modifiers that the user holds,
  -- `emit_char` types what the keymap has at the character's key under the user's mask with the
  -- level's bits set, also where the user holds that very key, and once. It leaves the client's
  -- modifiers as they were and the key up.
  pub emit_char-press_mask :
      (s : EmitSpec) (c : Client) (q : SyntheticMods)
      → char_to_emit p.c ≡ emit s
      → Holds p.held_user_kc c
      → c.mods ≡ p.raw_mods
      → let sent = emit_char (client_emitter echo) p now (c, q) in
        let c' = sent.0.0 in
        (sent.1 ≡ true)
        × (c'.down s.keycode ≡ false)
        × (c'.mods ≡ p.raw_mods)
        × (c'.text ≡ c.text ++ shown (typed s.keycode (press_mask p.raw_mods.depressed s.mods)))
  unfolding emit_char emit_found
  emit_char-press_mask s c q found held user =
      let (up, kept, same) = prelude_release_lem echo s p now c held in
      let (up', mods, text) =
        emit_danced_lem echo s p now (prelude_release (client_emitter echo) s p c) q up
          (kept ∙ user) in
      rw found (
        refl,
        up',
        mods,
        text ∙ ap (λ t. t ++ shown (typed s.keycode (press_mask p.raw_mods.depressed s.mods))) same,
      )

  -- With no modifier down, `emit_char` types just the character that it is given.
  pub emit_char-typed :
      (s : EmitSpec) (c : Client) (q : SyntheticMods)
      → char_to_emit p.c ≡ emit s
      → Holds p.held_user_kc c
      → c.mods ≡ p.raw_mods
      → p.raw_mods.depressed ≡ 0
      → (emit_char (client_emitter echo) p now (c, q)).0.0.text ≡ c.text ++ p.c ∷ []
  emit_char-typed s c q found held user bare =
      let (_, _, _, text) = emit_char-press_mask s c q found held user in
      text
      ∙ ap (λ t. c.text ++ shown t)
          (ap (λ m. typed s.keycode (press_mask m s.mods)) bare
            ∙ ap (typed s.keycode) (press_mask_zero s.mods)
            ∙ (char_to_emit-typed p.c s found).0)

  -- It leaves no key down that was up, and the modifiers as they were.
  pub emit_char-Holds :
      (s : EmitSpec) (c : Client) (q : SyntheticMods)
      → char_to_emit p.c ≡ emit s
      → Holds p.held_user_kc c
      → c.mods ≡ p.raw_mods
      → let c' = (emit_char (client_emitter echo) p now (c, q)).0.0 in
        Holds p.held_user_kc c' × (c'.mods ≡ p.raw_mods)
  unfolding emit_char emit_found
  emit_char-Holds s c q found held user = (
    λ k down. held k (
        prelude_down echo s p now k c (
          emit_danced_down echo s p now k (plan_mod_dance p.raw_mods.depressed s.mods)
            (prelude_release (client_emitter echo) s p c) q (rw found at down))),
    (emit_char-press_mask s c q found held user).2,
  )
