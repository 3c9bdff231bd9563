-- ===== src/Prelude/Bytes.antt =====
-- Checking a property of small numbers by evaluation at every value.
use Prim.Native.Nat.{ℕ, zero, suc, ◌<◌}
use mathlib.Core.Path.{◌≡◌}
use mathlib.Core.Bool.{Bool, true, false}
use native.Mathlib.Omega.{arith}
use rathal_os.Prelude.Tests.{if◌then◌else◌}

-- Does `p` hold at each number below the bound?
unfoldable pub holds_below : (ℕ → Bool) → ℕ → Bool
holds_below p zero = true
holds_below p (suc bound) = if p bound then holds_below p bound else false

pub holds_below-at :
    (p : ℕ → Bool) {bound : ℕ} (x : ℕ) → x < bound → holds_below p bound ≡ true → p x ≡ true
unfolding holds_below
holds_below-at p {bound = zero} x small all = absurd (omega arith)
holds_below-at p {bound = suc bound} x small all =
    ground (arith, holds_below-at p {bound = bound} x)
