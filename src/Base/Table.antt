-- ===== src/Base/Table.antt =====
-- Laws of bit operations and of tables over a small range, by checking every value.
use Prim.Native.Nat.{ℕ, zero, suc, ◌<◌}
use mathlib.Core.Path.{◌≡◌}
use mathlib.Core.Bool.{Bool, true, ◌&&◌}
use native.Mathlib.Omega.{arith}

-- Every row `0 … n - 1` of a table passes.
unfoldable pub rows : (ℕ → Bool) → ℕ → Bool
rows passes zero = true
rows passes (suc i) = rows passes i && passes i

pub rows-pass : (passes : ℕ → Bool) {n : ℕ} (i : ℕ) → i < n → rows passes n ≡ true → passes i ≡ true
unfolding rows
rows-pass passes {n = zero} i low all = elim low [ ]
rows-pass passes {n = suc n} i low all = ground (arith, rows-pass passes {n = n} i)
