-- ===== src/Wayland/Repeat/Pace.antt =====
-- The pace of `ClientRepeat` in crates/wayland-adapter/src/state.rs: when its timer fires.
use daklak_rs.Prelude.{
  ℕ, ◌+◌, ◌-◌, ◌≤◌, ◌<◌, ◌≡◌, refl, true, not, ◌||◌, List, [], ◌∷◌, Option, none, some, inl, inr,
  arith, ltb, Bool-cases, u32,
}
use daklak_rs.Prelude.Int.{ℤ, is_positive, to_nat}
use daklak_rs.Wayland.Repeat.{ClientRepeat, HeldRepeat, arm, fire, fire_held}

-- What the timer answers when it is asked at these times: each time with its repeat, if there is one.
pub polls : (ℤ → ℕ) → List ℕ → ClientRepeat → List (ℕ × Option (ℕ × ℕ))
polls interval [] r = []
polls interval (now ∷ ts) r =
    let (r', event) = fire interval now r in (now, event) ∷ polls interval ts r'

-- The time that a repeat of a key is sent with.
abbrev pub repeat_time : ℕ → ℕ → ℕ → ℕ
repeat_time wayland_time pressed_at now = u32 (wayland_time + u32 (now - pressed_at))

-- No repeat before `due`; one of the key at the first time from `due` on, and from then the same again
-- with `due` a step after that time.
abbrev pub IsPaced : (key wayland_time pressed_at step due : ℕ) → List (ℕ × Option (ℕ × ℕ)) → Type 0
IsPaced key time pressed step due [] = Unit {0}
IsPaced key time pressed step due ((now, none) ∷ later) =
    (now < due) × IsPaced key time pressed step due later
IsPaced key time pressed step due ((now, some (k, t)) ∷ later) =
    (due ≤ now)
    × (k ≡ key)
    × (t ≡ repeat_time time pressed now)
    × IsPaced key time pressed step (now + step) later

abbrev holding : ℤ → ℤ → HeldRepeat → ClientRepeat
holding rate delay h = record { rate = rate; delay = delay; held = some h }

module _ (interval : ℤ → ℕ) where
  polls-IsPaced :
      (ts : List ℕ) (rate delay : ℤ) (h : HeldRepeat)
      → is_positive rate ≡ true
      → IsPaced h.key h.wayland_time h.pressed_at
          (interval rate)
          h.deadline
          (polls interval ts (holding rate delay h))
  unfolding polls fire fire_held
  polls-IsPaced [] rate delay h on = tt
  polls-IsPaced (now ∷ ts) rate delay h on =
      elim (Bool-cases (ltb now h.deadline || not (is_positive rate))) [
        | inl waits ↦ rw waits (ground arith, polls-IsPaced ts rate delay h on)
        | inr due ↦
            let h' : HeldRepeat = record h { deadline = now + interval rate } in
            rw due (ground arith, refl, refl, polls-IsPaced ts rate delay h' on)
      ]

  -- Asked at any times, in any order, the timer of a key that was armed at `now`, at a positive rate,
  -- repeats that key alone. It repeats it at the first of these times at which the delay is over, and then each
  -- time at the first that is at least an interval after the repeat before: never earlier, so at most once
  -- in an interval. A repeat carries the time of the press with the milliseconds since, as they wrap.
  pub arm-IsPaced :
      (key time now : ℕ) (ts : List ℕ) (r : ClientRepeat)
      → is_positive r.rate ≡ true
      → IsPaced key time now
          (interval r.rate)
          (now + to_nat r.delay)
          (polls interval ts (arm key time now r))
  unfolding arm
  arm-IsPaced key time now ts r on = rw on (polls-IsPaced ts r.rate r.delay _ on)
