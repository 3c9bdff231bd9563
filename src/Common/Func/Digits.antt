-- ===== src/Common/Func/Digits.antt =====
-- How many decimal digits `int_len` counts.
use native.Mathlib.Nat.{pow-suc, one-le-pow}
use rathal_os.Prelude.{
  ℕ, zero, suc, ◌+◌, ◌/◌, ◌^◌, ◌<◌, ◌≤◌, ◌≡◌, ◌≢◌, refl, ◌⊎◌, inl, inr, arith, some, ℤ, pos, negsuc,
  abs_ℕ, div_trunc, is_zero, Bool-cases, true, false, ap, ◌∙◌,
}
use rathal_os.Common.Func.{int_len_from, int_len}

-- The decimal digits of `n` are `d + 1` in number.
abbrev pub HasDigits : ℕ → ℕ → Type 0
HasDigits n d = (n < 10 ^ suc d) × ((d ≡ 0) ⊎ (10 ^ d ≤ n))

div_trunc-abs : (x : ℤ) → abs_ℕ (div_trunc x 10) ≡ abs_ℕ x / 10
div_trunc-abs (pos n) = refl
div_trunc-abs (negsuc n) = ground arith

is_zero-abs : (x : ℤ) → is_zero x ≡ true → abs_ℕ x ≡ 0
is_zero-abs x h = ground arith

is_zero-abs_ne : (x : ℤ) → is_zero x ≡ false → abs_ℕ x ≢ 0
is_zero-abs_ne x h = ground arith

int_len_from-digits :
    (fuel : ℕ) (x : ℤ) (i d : ℕ)
    → abs_ℕ x < fuel
    → HasDigits (abs_ℕ x) d
    → int_len_from fuel x i ≡ some (i + d + 1)
unfolding int_len_from
int_len_from-digits zero x i d h k = absurd (omega arith)
int_len_from-digits (suc fuel) x i zero h k = elim (Bool-cases (is_zero (div_trunc x 10))) [
  | inl e ↦ rw e (ground arith)
  | inr e ↦ absurd (omega (arith, is_zero-abs_ne (div_trunc x 10) e, div_trunc-abs x))
]
int_len_from-digits (suc fuel) x i (suc d) h k = elim (Bool-cases (is_zero (div_trunc x 10))) [
  | inl e ↦ absurd (
      omega (arith, is_zero-abs (div_trunc x 10) e, div_trunc-abs x, pow-suc 10 d, one-le-pow d 10))
  | inr e ↦ rw e (
      int_len_from-digits fuel (div_trunc x 10) (i + 1) d (fewer e) shorter ∙ ap some (omega arith))
]
  where
    fewer : is_zero (div_trunc x 10) ≡ false → abs_ℕ (div_trunc x 10) < fuel
    fewer e = omega (arith, is_zero-abs_ne (div_trunc x 10) e, div_trunc-abs x)

    shorter : HasDigits (abs_ℕ (div_trunc x 10)) d
    shorter = (
      omega (arith, div_trunc-abs x, pow-suc 10 (suc d)),
      inr (omega (arith, div_trunc-abs x, pow-suc 10 d)),
    )

-- `int_len` returns for every `int`, and what it returns is the number of decimal digits of its
-- absolute value (1 for 0).
pub int_len_lem : (x : ℤ) (d : ℕ) → HasDigits (abs_ℕ x) d → int_len x ≡ some (d + 1)
unfolding int_len
int_len_lem x d h =
    int_len_from-digits (suc (abs_ℕ x)) x 0 d (omega arith) h ∙ ap some (omega arith)
