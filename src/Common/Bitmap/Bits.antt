-- ===== src/Common/Bitmap/Bits.antt =====
-- A bitmap as a sequence of Booleans.
use rathal_os.Prelude.{
  ℕ, ◌+◌, ◌*◌, ◌%◌, ◌/◌, ◌^◌, ◌<◌, ◌≤◌, ◌≡◌, ◌≢◌, arith, Bool, not, ◌==◌, if◌then◌else◌,
}
use native.Mathlib.Decide.{ℕ_discrete}
use rathal_os.Memory.{Memory, IsBytes}
use rathal_os.Common.Bitmap.{Bitmap, bitmap_get, bitmap_set}
use rathal_os.Common.Bitmap.Bytes.{or_self, or_ne, and_self, and_ne}

-- The abstract view: is the bit at `i` set?
abbrev pub bit : Memory → Bitmap → ℕ → Bool
bit m b i = not (bitmap_get m b i == 0)

-- The storage of `bitmap_create`: at least a byte for each eight bits.
pub record IsValid (b : Bitmap) : Type 0 where
  pub fits : b.count ≤ 8 * b.size
  pub small : b.count < 2 ^ 31

-- Reading and writing a bit below `count` touches a byte of the storage.
pub in_bounds :
    (b : Bitmap) (i : ℕ)
    → IsValid b
    → i < b.count
    → (b.bits ≤ b.bits + i / 8) × (b.bits + i / 8 < b.bits + b.size)
in_bounds b i v h = omega arith

-- `bitmap_set` writes the byte of its bit and no other.
pub bitmap_set-frame :
    (m : Memory) (b : Bitmap) (i v a : ℕ) → a ≢ b.bits + i / 8 → bitmap_set m b i v a ≡ m a
unfolding bitmap_set
bitmap_set-frame m b i v a h = ground arith

pub bitmap_set-IsBytes :
    (m : Memory) (b : Bitmap) (i v : ℕ) → IsBytes m → IsBytes (bitmap_set m b i v)
unfolding bitmap_set
bitmap_set-IsBytes m b i v h a = ground (arith, h a)

-- A bit reads back as what was written to it, and every other bit of the bitmap as before.
pub bit-bitmap_set :
    (m : Memory) (b : Bitmap) (i v j : ℕ)
    → IsBytes m
    → bit (bitmap_set m b i v) b j ≡ (if i == j then not (v == 0) else bit m b j)
unfolding bitmap_get bitmap_set
bit-bitmap_set m b i v j h = elim (ℕ_discrete i j) [
  | yes p ↦ ground (
    arith,
    or_self (m (b.bits + i / 8)) (i % 8) (h (b.bits + i / 8)) (omega arith),
    and_self (m (b.bits + i / 8)) (i % 8) (h (b.bits + i / 8)) (omega arith),
  )
  | no p ↦ elim (ℕ_discrete (i / 8) (j / 8)) [
    | yes same ↦ ground (
      arith,
      or_ne (m (b.bits + i / 8)) (i % 8) (j % 8) (h (b.bits + i / 8)) (omega arith) (omega arith)
          (omega arith),
      and_ne (m (b.bits + i / 8)) (i % 8) (j % 8) (h (b.bits + i / 8)) (omega arith) (omega arith)
          (omega arith),
    )
    | no apart ↦ ground arith
  ]
]

-- A bit depends on its byte alone.
pub bit-same :
    (m m' : Memory) (b : Bitmap) (i : ℕ)
    → m (b.bits + i / 8) ≡ m' (b.bits + i / 8)
    → bit m b i ≡ bit m' b i
unfolding bitmap_get
bit-same m m' b i e = rw e
