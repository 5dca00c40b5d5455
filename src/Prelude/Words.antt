-- ===== src/Prelude/Words.antt =====
-- Fixed-width integers of the source, as numbers with their wrap-around written out.
use Prim.Native.Nat.{ℕ, ◌+◌, ◌%◌, min}

abbrev pub u32_mod : ℕ
u32_mod = 4294967296

abbrev pub usize_max : ℕ
usize_max = 18446744073709551615

-- `x as u32`, and the sum of two `u32` as it wraps.
abbrev pub u32 : ℕ → ℕ
u32 n = n % u32_mod

-- `x as u8`.
abbrev pub u8 : ℕ → ℕ
u8 n = n % 256

abbrev pub usize_mod : ℕ
usize_mod = 18446744073709551616

-- A `usize` as it wraps, on a 64-bit target.
abbrev pub usize : ℕ → ℕ
usize n = n % usize_mod

-- `usize::saturating_add`, on a 64-bit target.
abbrev pub saturating_add : ℕ → ℕ → ℕ
saturating_add a b = min (a + b) usize_max
