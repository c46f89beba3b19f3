-- ===== src/Base/Bytes.antt =====
-- Single bits of a byte, checked for every byte.
use Prim.Native.Nat.{bit_and, bit_or, ℕ, ◌-◌, ◌/◌, ◌%◌, ◌^◌, ◌<◌}
use mathlib.Core.Path.{◌≡◌, refl}
use mathlib.Core.Bool.{Bool, true, false, not, ◌&&◌, ◌||◌}
use native.Mathlib.Omega.{arith}
use shiro.Base.Tests.{ltb, ◌==◌}
use shiro.Base.Table.{rows, rows-pass}

abbrev same : Bool → Bool → Bool
same true b = b
same false b = not b

same_eq : (a b : Bool) → same a b ≡ true → a ≡ b
same_eq true b h = ground arith
same_eq false b h = ground arith

-- Bit `k` of a byte.
abbrev pub bit : ℕ → ℕ → Bool
bit b k = b / 2 ^ k % 2 == 1

-- What is checked of a byte `b` and two bits of it.
abbrev row : ℕ → ℕ → ℕ → Bool
row b k j =
    ltb (bit_or b (2 ^ k)) 256
    && ltb (bit_and b (255 - 2 ^ k)) 256
    && same (bit (bit_or b (2 ^ k)) j) ((j == k) || bit b j)
    && same (bit (bit_and b (255 - 2 ^ k)) j) (not (j == k) && bit b j)
    && same (bit_and b (2 ^ k) == 0) (not (bit b k))

table : rows (λ b. rows (λ k. rows (λ j. row b k j) 8) 8) 256 ≡ true
unfolding rows
table = refl

row-pass : (b k j : ℕ) → b < 256 → k < 8 → j < 8 → row b k j ≡ true
row-pass b k j hb hk hj =
    rows-pass (λ j. row b k j) {n = 8} j hj
      (rows-pass (λ k. rows (λ j. row b k j) 8) {n = 8} k hk
        (rows-pass (λ b. rows (λ k. rows (λ j. row b k j) 8) 8) {n = 256} b hb table))

module _ (b k j : ℕ) (hb : b < 256) (hk : k < 8) where
  pub or-lt : bit_or b (2 ^ k) < 256
  or-lt = ground (arith, row-pass b k 0 hb hk)

  pub and-lt : bit_and b (255 - 2 ^ k) < 256
  and-lt = ground (arith, row-pass b k 0 hb hk)

  pub and-bit : (bit_and b (2 ^ k) == 0) ≡ not (b / 2 ^ k % 2 == 1)
  and-bit = ground (arith, row-pass b k 0 hb hk, same_eq (bit_and b (2 ^ k) == 0) (not (bit b k)))

  pub or-bit : j < 8 → bit (bit_or b (2 ^ k)) j ≡ ((j == k) || bit b j)
  or-bit hj =
      ground
        (arith, row-pass b k j hb hk hj, same_eq (bit (bit_or b (2 ^ k)) j) ((j == k) || bit b j))

  pub clear-bit : j < 8 → bit (bit_and b (255 - 2 ^ k)) j ≡ (not (j == k) && bit b j)
  clear-bit hj = ground (
    arith,
    row-pass b k j hb hk hj,
    same_eq (bit (bit_and b (255 - 2 ^ k)) j) (not (j == k) && bit b j),
  )

-- Every bit of 0xFF is set.
pub full-bit : (k : ℕ) → k < 8 → (255 / 2 ^ k % 2 == 1) ≡ true
unfolding rows
full-bit k hk = rows-pass (λ j. 255 / 2 ^ j % 2 == 1) {n = 8} k hk refl
