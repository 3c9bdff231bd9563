-- ===== src/Tools/Superblock/Words.antt =====
-- Numbers of 32 bits in memory, one behind the other.
use rathal_os.Prelude.{
  ℕ, zero, suc, ◌+◌, ◌*◌, ◌^◌, ◌<◌, ◌≤◌, ◌≡◌, refl, arith, ap, ◌∙◌, List, [], ◌∷◌, length, get_or,
  ◌⊎◌,
}
use rathal_os.Memory.{load32-store32, store32-outside, Memory, store32, load32}
use rathal_os.Tools.Superblock.Bytes.{store_fields}

abbrev pub AllWords : List ℕ → Type 0
AllWords [] = Unit {0}
AllWords (v ∷ vs) = (v < 2 ^ 32) × AllWords vs

pub store_fields-outside :
    (m : Memory) (p : ℕ) (vs : List ℕ) (a : ℕ)
    → (a < p) ⊎ (p + 4 * length vs ≤ a)
    → store_fields m p vs a ≡ m a
unfolding store_fields
store_fields-outside m p [] a out = refl
store_fields-outside m p (v ∷ vs) a out =
    store_fields-outside (store32 m p v) (p + 4) vs a (omega arith)
    ∙ store32-outside m p v a (omega arith)

-- Words at equal bytes.
pub load32-same :
    (m m' : Memory) (p q : ℕ)
    → ((j : ℕ) → j < 4 → m' (q + j) ≡ m (p + j))
    → load32 m' q ≡ load32 m p
load32-same m m' p q same =
    sum
      (ap m' {x = q} {y = q + 0} (omega arith)
        ∙ same 0 (omega arith)
        ∙ ap m {x = p + 0} {y = p} (omega arith))
      (same 1 (omega arith)) (same 2 (omega arith)) (same 3 (omega arith))
  where
    sum :
        m' q ≡ m p
        → m' (q + 1) ≡ m (p + 1)
        → m' (q + 2) ≡ m (p + 2)
        → m' (q + 3) ≡ m (p + 3)
        → load32 m' q ≡ load32 m p
    sum a b c d = omega arith

pub store_fields-word :
    (m : Memory) (p : ℕ) (vs : List ℕ) (i : ℕ)
    → AllWords vs
    → i < length vs
    → load32 (store_fields m p vs) (p + 4 * i) ≡ get_or vs i 0
unfolding store_fields
store_fields-word m p [] i words lt = absurd (omega arith)
store_fields-word m p (v ∷ vs) zero words lt =
    load32-same (store32 m p v) (store_fields (store32 m p v) (p + 4) vs) p (p + 4 * 0) (λ j lt.
      ap (store_fields (store32 m p v) (p + 4) vs) {x = p + 4 * 0 + j} {y = p + j} (omega arith)
      ∙ store_fields-outside (store32 m p v) (p + 4) vs (p + j) (omega arith))
    ∙ load32-store32 m p v words.0
store_fields-word m p (v ∷ vs) (suc i) words lt =
    ap (load32 (store_fields (store32 m p v) (p + 4) vs)) {x = p + 4 * suc i} {y = p + 4 + 4 * i}
      (omega arith)
    ∙ store_fields-word (store32 m p v) (p + 4) vs i words.1 (omega arith)
