-- ===== src/Prelude/Tables.antt =====
-- A test of every number below a bound, by evaluation.
use Prim.Native.Nat.{ℕ, zero, suc, ◌<◌}
use mathlib.Core.Path.{◌≡◌}
use mathlib.Core.Bool.{Bool, true, ◌&&◌}
use native.Mathlib.Omega.{arith}

unfoldable pub tabulated : (ℕ → Bool) → ℕ → Bool
tabulated test zero = true
tabulated test (suc bound) = tabulated test bound && test bound

pub tabulated_entry :
    (test : ℕ → Bool) {k : ℕ} (bound : ℕ) → k < bound → tabulated test bound ≡ true → test k ≡ true
unfolding tabulated
tabulated_entry test zero small table = absurd (omega arith)
tabulated_entry test {k} (suc bound) small table =
    ground (arith, tabulated_entry test {k = k} bound)
