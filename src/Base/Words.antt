-- ===== src/Base/Words.antt =====
-- Machine words as native numbers. An operation on `uint32_t` keeps its wrap-around written out.
use Prim.Native.Nat.{ℕ, ◌+◌, ◌-◌, ◌*◌, ◌/◌, ◌%◌, ◌^◌}

abbrev pub u32_mod : ℕ
u32_mod = 2 ^ 32

abbrev pub add32 : ℕ → ℕ → ℕ
add32 a b = (a + b) % u32_mod

-- `-` on ℕ stops at 0, so the modulus is added first.
abbrev pub sub32 : ℕ → ℕ → ℕ
sub32 a b = (a + u32_mod - b) % u32_mod

abbrev pub mul32 : ℕ → ℕ → ℕ
mul32 a b = (a * b) % u32_mod

-- `x & ~(m - 1)` for a power of two `m`: the low bits of `x` are cleared.
abbrev pub clear_low : ℕ → ℕ → ℕ
clear_low m x = x / m * m
