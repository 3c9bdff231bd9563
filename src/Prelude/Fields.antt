-- ===== src/Prelude/Fields.antt =====
-- `(q << k) | r` for an `r` below 2 ^ k: the fields do not meet, so the word is their sum.
use Prim.Native.Nat.{
  ℕ, zero, suc, ◌+◌, ◌*◌, ◌/◌, ◌^◌, ◌≤◌, ◌<◌, max, bit_or, digits, bit_or-bitwise,
}
use mathlib.Core.Path.{◌≡◌, refl, ap, ◌∙◌}
use native.Mathlib.Nat.{pow-suc}
use native.Mathlib.Omega.{arith}

-- The meaning of `bit_or`, digit by digit; `n` digits are enough for `a`.
abbrev or_digits : ℕ → ℕ → ℕ → ℕ
or_digits n a b = digits (λ c. c) max n a b

or_digits-zero : (n a : ℕ) → a ≤ n → or_digits n a 0 ≡ a
or_digits-zero zero zero h = refl
or_digits-zero (suc n) zero h = refl
or_digits-zero zero (suc a) h = absurd (omega arith)
or_digits-zero (suc n) (suc a) h = omega (arith, or_digits-zero n (suc a / 2) (omega arith))

twice_high : (q k : ℕ) → q * 2 ^ suc k ≡ 2 * (q * 2 ^ k)
twice_high q k = omega (arith, ap (λ (p : ℕ). q * p) (pow-suc 2 k))

or_digits-fields : (k n a q r : ℕ) → a ≤ n → a ≡ q * 2 ^ k → r < 2 ^ k → or_digits n a r ≡ a + r
or_digits-fields zero n a q r h e fits =
    let none : r ≡ 0 = omega arith in ap (or_digits n a) none ∙ or_digits-zero n a h ∙ omega arith
or_digits-fields (suc k) zero zero q r h e fits = omega arith
or_digits-fields (suc k) (suc n) zero q r h e fits = omega arith
or_digits-fields (suc k) zero (suc a) q r h e fits = absurd (omega arith)
or_digits-fields (suc k) (suc n) (suc a) q r h e fits = omega (
  arith,
  or_digits-fields k n (suc a / 2) q (r / 2) (omega arith) (omega (arith, twice_high q k))
      (omega (arith, pow-suc 2 k)),
  twice_high q k,
)

pub bit_or_fields : (k q r : ℕ) → r < 2 ^ k → bit_or (q * 2 ^ k) r ≡ q * 2 ^ k + r
bit_or_fields k q r fits =
    (λ i. bit_or-bitwise (q * 2 ^ k) r i)
    ∙ or_digits-fields k (q * 2 ^ k) (q * 2 ^ k) q r (omega arith) refl fits
