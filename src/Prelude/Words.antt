-- ===== src/Prelude/Words.antt =====
-- `uint32_t` arithmetic on native numbers: `+` and `*` wrap at 2 ^ 32, and so does `-`, which
-- native subtraction would stop at 0.
use Prim.Native.Nat.{ℕ, ◌+◌, ◌-◌, ◌*◌, ◌%◌, ◌<◌}
use mathlib.Core.Path.{◌≡◌}
use native.Mathlib.Nat.{mod-eq_of_lt}

abbrev pub u32_mod : ℕ
u32_mod = 0x1_0000_0000

-- UINT32_MAX, which the library uses as "the position past the last element".
abbrev pub u32_max : ℕ
u32_max = 0xFFFF_FFFF

abbrev pub add32 : ℕ → ℕ → ℕ
add32 a b = (a + b) % u32_mod

abbrev pub sub32 : ℕ → ℕ → ℕ
sub32 a b = (a + u32_mod - b) % u32_mod

abbrev pub mul32 : ℕ → ℕ → ℕ
mul32 a b = a * b % u32_mod

pub mul32_exact : (a b : ℕ) → a * b < u32_mod → mul32 a b ≡ a * b
mul32_exact a b h = mod-eq_of_lt h
