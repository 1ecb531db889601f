-- ===== src/Prelude/Bits.antt =====
-- Facts about bytes, checked value by value.
use Prim.Native.Nat.{ℕ, zero, suc, ◌<◌}
use mathlib.Core.Path.{◌≡◌}
use mathlib.Core.Bool.{Bool, true, false}
use native.Mathlib.Omega.{arith}
use zonix.Prelude.Tests.{if◌then◌else◌}

-- The test passes at each number below `bound`.
unfoldable pub passes_below : (ℕ → Bool) → ℕ → Bool
passes_below test zero = true
passes_below test (suc bound) = if test bound then passes_below test bound else false

pub passes_below_lem :
    (test : ℕ → Bool) (bound : ℕ) (c : ℕ)
    → c < bound
    → passes_below test bound ≡ true
    → test c ≡ true
unfolding passes_below
passes_below_lem test zero c less all = absurd (omega arith)
passes_below_lem test (suc bound) c less all = ground (arith, passes_below_lem test bound c)
