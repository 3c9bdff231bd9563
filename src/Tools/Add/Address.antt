-- ===== src/Tools/Add/Address.antt =====
-- Where the data blocks of an image stand.
use native.Mathlib.Decide.{ℕ_discrete, dec_lt}
use rathal_os.Prelude.{
  ℕ, zero, suc, ◌+◌, ◌*◌, ◌%◌, ◌^◌, ◌<◌, ◌≤◌, ◌≡◌, ◌≢◌, arith, pos, ap, ◌∙◌, ◌⊎◌, inl, inr,
}
use rathal_os.Tools.Blocks.{block_offset}
use rathal_os.Tools.Fs.{data_block}

-- The first byte of data block `k`.
abbrev pub address : ℕ → ℕ → ℕ → ℕ
address bs datablocks_start k = bs * (datablocks_start + k)

-- A product grows by a factor's step.
pub mul-step : (a x y : ℕ) → x < y → a * x + a ≤ a * y
mul-step a x zero lt = absurd (omega arith)
mul-step a x (suc y) lt =
    let e : a * suc y ≡ a * y + a = omega arith in
    elim (ℕ_discrete x y) [
      | yes same ↦ omega (arith, e, ap (λ (z : ℕ). a * z) same)
      | no ne ↦ omega (arith, e, mul-step a x y (omega (arith, ne, lt)))
    ]

mul-above : (a x : ℕ) → 0 < a → x ≤ a * x
mul-above a zero h = omega arith
mul-above a (suc x) h = omega (arith, mul-above a x h)

-- Blocks with different numbers do not meet.
pub address-apart :
    (bs datablocks_start j k : ℕ)
    → j ≢ k
    → (address bs datablocks_start j + bs ≤ address bs datablocks_start k)
      ⊎ (address bs datablocks_start k + bs ≤ address bs datablocks_start j)
address-apart bs datablocks_start j k ne = elim (dec_lt j k) [
  | yes lt ↦ inl (mul-step bs (datablocks_start + j) (datablocks_start + k) (omega arith))
  | no ge ↦ inr (mul-step bs (datablocks_start + k) (datablocks_start + j) (omega (arith, ne, ge)))
]

pub mul-le : (a x y : ℕ) → x ≤ y → a * x ≤ a * y
mul-le a x y le = elim (ℕ_discrete x y) [
  | yes same ↦ omega (arith, ap (λ (z : ℕ). a * z) same)
  | no ne ↦ omega (arith, mul-step a x y (omega (arith, ne, le)))
]

-- On an image below 4 GiB the arithmetic on 32 bits is that on numbers.
module _ (bs datablocks_start count k : ℕ) (positive : 0 < bs)
    (small : bs * (datablocks_start + count) ≤ 2 ^ 32) (lt : k < count) where
  inside : bs * (datablocks_start + k) + bs ≤ bs * (datablocks_start + count)
  inside = mul-step bs (datablocks_start + k) (datablocks_start + count) (omega arith)

  pub data_block-number : data_block datablocks_start (pos k) ≡ datablocks_start + k
  data_block-number = omega (arith, inside, mul-above bs (datablocks_start + k) positive, small)

  pub block_offset-address :
      block_offset bs (data_block datablocks_start (pos k)) ≡ address bs datablocks_start k
  block_offset-address =
      ap (λ (n : ℕ). bs * n % 2 ^ 32) data_block-number ∙ omega (arith, inside, small)
