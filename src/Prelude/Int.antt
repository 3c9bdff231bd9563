-- ===== src/Prelude/Int.antt =====
-- Signed integers over the native numbers, as far as the program returns or compares them.
use Prim.Native.Nat.{ℕ, suc, ◌-◌, ◌/◌, ◌%◌}
use mathlib.Core.Bool.{Bool, false}
use rathal_os.Prelude.Tests.{leb, ◌==◌, if◌then◌else◌}

-- `negsuc n` is -(n + 1).
pub data ℤ : Type 0 where
  pos : ℕ → ℤ
  negsuc : ℕ → ℤ

-- a - b, as an integer.
abbrev pub sub_ℕ : ℕ → ℕ → ℤ
sub_ℕ a b = if leb b a then pos (a - b) else negsuc (b - a - 1)

-- -1, the error value of most of the program's functions.
abbrev pub minus_one : ℤ
minus_one = negsuc 0

abbrev pub abs_ℕ : ℤ → ℕ
abs_ℕ (pos n) = n
abs_ℕ (negsuc n) = suc n

-- -n
abbrev pub neg_ℕ : ℕ → ℤ
neg_ℕ n = sub_ℕ 0 n

-- `/` and `%` of C on `int` by a positive number: they round towards 0.
abbrev pub div_trunc : ℤ → ℕ → ℤ
div_trunc (pos n) d = pos (n / d)
div_trunc (negsuc n) d = neg_ℕ (suc n / d)

abbrev pub mod_trunc : ℤ → ℕ → ℤ
mod_trunc (pos n) d = pos (n % d)
mod_trunc (negsuc n) d = neg_ℕ (suc n % d)

abbrev pub is_zero : ℤ → Bool
is_zero (pos n) = n == 0
is_zero (negsuc n) = false
