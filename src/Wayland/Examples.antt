-- ===== src/Wayland/Examples.antt =====
-- The theorems on crates/wayland-adapter at concrete inputs.
use daklak_rs.Prelude.{ℕ, ◌+◌, ◌≡◌, refl, Bool, true, false, [], ◌∷◌, none, all}
use daklak_rs.Text.{Text}
use daklak_rs.Keymap.{char_to_emit}
use daklak_rs.Keymap.Inventory.{vn_lower, vn_upper, safe_keycodes}
use daklak_rs.Keymap.Toy.{toy_xkb}
use daklak_rs.Emitter.Client
use daklak_rs.Wayland.Frame.{im_v2}
use daklak_rs.Wayland.Repeat.{default_repeat, arm}
use daklak_rs.Wayland.Repeat.Pace.{polls, IsPaced, arm-IsPaced}
use daklak_rs.Wayland.State.{AdapterState, Request, no_mods, no_echoes}
use daklak_rs.Wayland.State
use daklak_rs.Wayland.Sink.{SinkParams, has_key, commit_key_channel_text, commit_via_keysym}
use daklak_rs.Wayland.Typed.{IsReady}
use daklak_rs.Wayland.Typed.Channel.{IsSentUpTo, commit_key_channel_text-IsSentUpTo}
use daklak_rs.Wayland.Typed.Split.{IsSplit, commit_via_keysym-IsSplit}

-- Asked every 300 ms, the timer fires twice in the first second.
arm-IsPaced_example :
    IsPaced 30 7 100 50
      (100 + 400)
      (polls (λ rate. 50) (300 ∷ 600 ∷ 900 ∷ []) (arm 30 7 100 default_repeat))
arm-IsPaced_example = arm-IsPaced (λ rate. 50) 30 7 100 (300 ∷ 600 ∷ 900 ∷ []) default_repeat refl

-- A client with no key down, and a keyboard with no modifier down.
abbrev quiet : Client.Client
quiet = record { down = λ k. false; mods = no_mods; text = b'm' ∷ [] }

abbrev params : Bool → SinkParams
params functional = record {
  protocol = im_v2;
  serial = 3;
  raw_mods = no_mods;
  held_user_kc = none;
  commit_string_functional = functional;
}

abbrev keyboard : AdapterState Bool
unfolding State.new
keyboard = record (State.new) { vk = true }

quiet-IsReady : (functional : Bool) → IsReady quiet (params functional) keyboard
unfolding keyboard
quiet-IsReady functional = record { holds = λ k h. h; mods = refl; bare = refl }

-- ế and ệ.
abbrev two_letters : Text
two_letters = 0x1ebf ∷ 0x1ec7 ∷ []

two_letters_keyed : all (λ c. has_key (char_to_emit c)) two_letters ≡ true
unfolding char_to_emit safe_keycodes vn_lower vn_upper
two_letters_keyed = refl

commit_key_channel_text-IsSentUpTo_example :
    (n : ℕ) × IsSentUpTo toy_xkb
      (λ rs. false)
      quiet
      (params true)
      n
      two_letters
      keyboard
      (commit_key_channel_text toy_xkb
        (λ rs. false)
        (params true)
        100
        im_v2
        3
        40
        two_letters
        keyboard)
commit_key_channel_text-IsSentUpTo_example =
    commit_key_channel_text-IsSentUpTo toy_xkb (λ rs. false) quiet (params true) 100 3 40
      two_letters keyboard refl two_letters_keyed (quiet-IsReady true)

-- An emoji between two letters.
abbrev smiling : Text
smiling = 0x1ebf ∷ 0x1f600 ∷ 0x1ec7 ∷ []

commit_via_keysym-IsSplit_example :
    let sent =
      commit_via_keysym toy_xkb (λ rs. true) (params false) 100 im_v2 3 40 smiling keyboard in
    (sent.1 ≡ true) × IsSplit toy_xkb (λ rs. true) quiet (params false) [] smiling keyboard sent.0
commit_via_keysym-IsSplit_example =
    commit_via_keysym-IsSplit toy_xkb (λ rs. true) quiet (params false) 100 3 40 smiling keyboard
      refl refl (λ rs. refl) (quiet-IsReady false)
