-- ===== src/Wayland/Repeat.antt =====
-- `ClientRepeat` of crates/wayland-adapter/src/state.rs: the timer of a key that the adapter holds back.
-- A time is a number of milliseconds. The interval is `1.0 / rate` seconds in floating point: what it
-- comes to at a rate is an argument.
pub mod Pace
use daklak_rs.Prelude.{
  ℕ, ◌+◌, ◌-◌, Bool, false, not, ◌||◌, Option, none, some, ltb, ◌==◌, if◌then◌else◌, u32,
}
use daklak_rs.Prelude.Int.{ℤ, pos, is_positive, to_nat}

pub record HeldRepeat : Type 0 where
  pub key : ℕ
  pub wayland_time : ℕ
  pub pressed_at : ℕ
  pub deadline : ℕ

pub record ClientRepeat : Type 0 where
  pub rate : ℤ
  pub delay : ℤ
  pub held : Option HeldRepeat

abbrev pub default_repeat : ClientRepeat
default_repeat = record { rate = pos 20; delay = pos 400; held = none }

unfoldable pub set_info : ℤ → ℤ → ClientRepeat → ClientRepeat
set_info rate delay r = record {
  rate = rate;
  delay = delay;
  held = if is_positive rate then r.held else none;
}

unfoldable pub arm : ℕ → ℕ → ℕ → ClientRepeat → ClientRepeat
arm key wayland_time now r =
    if is_positive r.rate
    then record r {
      held = some (record {
        key = key;
        wayland_time = wayland_time;
        pressed_at = now;
        deadline = now + to_nat r.delay;
      });
    }
    else r

-- `matches!(self.held, Some(held) if held.key == key)`.
abbrev pub holds_key : Option HeldRepeat → ℕ → Bool
holds_key none key = false
holds_key (some h) key = h.key == key

unfoldable pub release : ℕ → ClientRepeat → ClientRepeat
release key r = if holds_key r.held key then record r { held = none } else r

unfoldable pub cancel : ClientRepeat → ClientRepeat
cancel r = record r { held = none }

abbrev pub deadline_of : Option HeldRepeat → Option ℕ
deadline_of none = none
deadline_of (some h) = some h.deadline

unfoldable pub deadline : ClientRepeat → Option ℕ
deadline r = deadline_of r.held

unfoldable pub fire_held :
    (ℤ → ℕ) → ℕ → Option HeldRepeat → ClientRepeat → ClientRepeat × Option (ℕ × ℕ)
fire_held interval now none r = (r, none)
fire_held interval now (some h) r =
    if ltb now h.deadline || not (is_positive r.rate) then (r, none) else (
      record r { held = some (record h { deadline = now + interval r.rate }) },
      some (h.key, u32 (h.wayland_time + u32 (now - h.pressed_at))),
    )

-- The key to repeat, with the time to send it with.
unfoldable pub fire : (ℤ → ℕ) → ℕ → ClientRepeat → ClientRepeat × Option (ℕ × ℕ)
unfolding fire_held
fire interval now r = fire_held interval now r.held r
