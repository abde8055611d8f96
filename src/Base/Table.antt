-- ===== src/Base/Table.antt =====
-- Facts about all numbers below a bound, by a table.
use Prim.Native.Nat.{ℕ, zero, suc, ◌<◌}
use mathlib.Core.Path.{◌≡◌}
use mathlib.Core.Bool.{Bool, true, ◌&&◌}
use native.Mathlib.Decide.{ℕ_discrete}
use native.Mathlib.Omega.{arith}

-- The test passes at each of the numbers from 0 to n - 1.
unfoldable pub passes_below : ℕ → (ℕ → Bool) → Bool
passes_below zero test = true
passes_below (suc last) test = passes_below last test && test last

pub passes_below_at :
    (bound : ℕ) (test : ℕ → Bool) (k : ℕ)
    → k < bound
    → passes_below bound test ≡ true
    → test k ≡ true
unfolding passes_below
passes_below_at zero test k small pass = absurd (omega arith)
passes_below_at (suc last) test k small pass = elim (ℕ_discrete k last) [
  | yes top ↦ ground (arith, top)
  | no lower ↦ passes_below_at last test k (omega arith) (ground arith)
]
