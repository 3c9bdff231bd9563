-- ===== src/Common/Bitmap/Reserve.antt =====
-- Reserving the first free bit and counting the free bits.
use rathal_os.Prelude.{
  Bool, ap₂, ◌/◌, ℕ, zero, suc, ◌+◌, ◌^◌, ◌<◌, ◌≤◌, ◌≡◌, refl, arith, true, false, ◌==◌,
  if◌then◌else◌, Bool-cases, inl, inr, ◌⊎◌, ℤ, pos, minus_one, ◌∙◌,
}
use native.Mathlib.Decide.{dec_lt}
use rathal_os.Memory.{Memory, IsBytes}
use rathal_os.Common.Bitmap.{
  Bitmap, bitmap_get, bitmap_set, reserve_from, bitmap_reserve_first_available_bit, free_from,
  bitmap_get_free_bits,
}
use rathal_os.Common.Bitmap.Bits.{bit-same, bit, IsValid, bit-bitmap_set}

-- What a reservation among the bits from `i` to `n` does to memory `m`, with the result `r`: the
-- lowest free bit is set and returned, or nothing is free and -1 is returned.
pub data Reserved (m : Memory) (b : Bitmap) (i n : ℕ) (r : Memory × ℤ) : Type 0 where
  found :
      (k : ℕ)
      → r ≡ (bitmap_set m b k 1, pos k)
      → i ≤ k
      → k < n
      → bit m b k ≡ false
      → ((j : ℕ) → i ≤ j → j < k → bit m b j ≡ true)
      → Reserved m b i n r
  full : r ≡ (m, minus_one) → ((j : ℕ) → i ≤ j → j < n → bit m b j ≡ true) → Reserved m b i n r

Reserved-skip :
    (m : Memory) (b : Bitmap) (i n : ℕ) (r : Memory × ℤ)
    → bit m b i ≡ true
    → Reserved m b (i + 1) n r
    → Reserved m b i n r
Reserved-skip m b i n r taken (found k e lo hi free below) =
    found k e (omega arith) hi free λ j ge lt. elim (dec_lt i j) [
      | yes after ↦ below j (omega arith) lt
      | no first ↦ rw (the_same i j first ge) at taken
    ]
  where
    the_same : (i j : ℕ) → ¬ (i < j) → i ≤ j → i ≡ j
    the_same i j h k = omega arith
Reserved-skip m b i n r taken (full e below) = full e λ j ge lt. elim (dec_lt i j) [
  | yes after ↦ below j (omega arith) lt
  | no first ↦ rw (the_same i j first ge) at taken
]
  where
    the_same : (i j : ℕ) → ¬ (i < j) → i ≤ j → i ≡ j
    the_same i j h k = omega arith

reserve_from-Reserved :
    (m : Memory) (b : Bitmap) (i left n : ℕ)
    → i + left ≡ n
    → Reserved m b i n (reserve_from m b i left)
unfolding reserve_from
reserve_from-Reserved m b i zero n e = full refl (λ j ge lt. absurd (omega arith))
reserve_from-Reserved m b i (suc left) n e = elim (Bool-cases (bitmap_get m b i == 0)) [
  | inl free ↦
      found i (rw free) (omega arith) (omega arith) (rw free) (λ j ge lt. absurd (omega arith))
  | inr taken ↦
      Reserved-skip m b i n _ (rw taken)
        (rw taken (reserve_from-Reserved m b (i + 1) left n (omega arith)))
]

-- The function sets the lowest free bit of the bitmap and returns its index; if no bit below
-- `count` is free it changes nothing and returns -1.
pub reserve-Reserved :
    (m : Memory) (b : Bitmap) → Reserved m b 0 b.count (bitmap_reserve_first_available_bit m b)
unfolding bitmap_reserve_first_available_bit
reserve-Reserved m b = reserve_from-Reserved m b 0 b.count b.count (omega arith)

-- The number of free bits among `left` bits from `i` on.
pub free_bits : Memory → Bitmap → ℕ → ℕ → ℕ
free_bits m b i zero = 0
free_bits m b i (suc left) = (if bit m b i then 0 else 1) + free_bits m b (i + 1) left

free_from-free_bits :
    (m : Memory) (b : Bitmap) (i left count : ℕ)
    → count + left < 2 ^ 32
    → free_from m b i left count ≡ count + free_bits m b i left
unfolding free_from free_bits
free_from-free_bits m b i zero count h = omega arith
free_from-free_bits m b i (suc left) count h = ground (
  arith,
  free_from-free_bits m b (i + 1) left (count + 1),
  free_from-free_bits m b (i + 1) left count,
)

-- The count of a valid bitmap is the number of its free bits: the counter does not wrap.
pub get_free_bits_lem :
    (m : Memory) (b : Bitmap) → IsValid b → bitmap_get_free_bits m b ≡ free_bits m b 0 b.count
unfolding bitmap_get_free_bits
get_free_bits_lem m b v = omega (arith, v.small, free_from-free_bits m b 0 b.count 0)

-- Setting a bit below the range counted, or one that is in it.
free_bits-before :
    (m : Memory) (b : Bitmap) (k i left : ℕ)
    → IsBytes m
    → k < i
    → free_bits (bitmap_set m b k 1) b i left ≡ free_bits m b i left
unfolding free_bits
free_bits-before m b k i zero h lt = refl
free_bits-before m b k i (suc left) h lt =
    ground (arith, bit-bitmap_set m b k 1 i h, free_bits-before m b k (i + 1) left h)

pub free_bits-set :
    (m : Memory) (b : Bitmap) (k i left : ℕ)
    → IsBytes m
    → bit m b k ≡ false
    → i ≤ k
    → k < i + left
    → free_bits (bitmap_set m b k 1) b i left + 1 ≡ free_bits m b i left
unfolding free_bits
free_bits-set m b k i zero h free lo hi = absurd (omega arith)
free_bits-set m b k i (suc left) h free lo hi = ground (
  arith,
  bit-bitmap_set m b k 1 i h,
  free_bits-before m b k (i + 1) left h,
  free_bits-set m b k (i + 1) left h free,
)

pub free_bits-all_set :
    (m : Memory) (b : Bitmap) (i left : ℕ)
    → ((j : ℕ) → i ≤ j → j < i + left → bit m b j ≡ true)
    → free_bits m b i left ≡ 0
unfolding free_bits
free_bits-all_set m b i zero h = refl
free_bits-all_set m b i (suc left) h = ground (
  arith,
  h i (omega arith) (omega arith),
  free_bits-all_set m b (i + 1) left (λ j ge lt. h j (omega arith) (omega arith)),
)

-- It depends on the storage of the bitmap only.
pub free_bits-same :
    (m m' : Memory) (b : Bitmap) (i left : ℕ)
    → ((j : ℕ) → i ≤ j → j < i + left → m' (b.bits + j / 8) ≡ m (b.bits + j / 8))
    → free_bits m' b i left ≡ free_bits m b i left
unfolding free_bits
free_bits-same m m' b i zero same = refl
free_bits-same m m' b i (suc left) same =
    ap₂ (λ (x : Bool) (n : ℕ). (if x then 0 else 1) + n)
      (bit-same m' m b i (same i (omega arith) (omega arith)))
      (free_bits-same m m' b (i + 1) left (λ j lo hi. same j (omega arith) (omega arith)))

-- What a reservation with result `r` does to the number of free bits.
abbrev pub IsCounted : Memory → Bitmap → Memory × ℤ → Type 0
IsCounted m b r =
    ((r.1 ≡ minus_one) × (r.0 ≡ m) × (bitmap_get_free_bits m b ≡ 0))
    ⊎ ((k : ℕ) × (r.1 ≡ pos k)
        × (k < b.count)
        × (bitmap_get_free_bits r.0 b + 1 ≡ bitmap_get_free_bits m b))

-- On a valid bitmap a reservation returns -1 if no bit is counted free, leaving the memory; otherwise
-- it returns an index below `count`, and the count of free bits falls by one.
pub reserve-IsCounted :
    (m : Memory) (b : Bitmap)
    → IsBytes m
    → IsValid b
    → IsCounted m b (bitmap_reserve_first_available_bit m b)
reserve-IsCounted m b h v = go (bitmap_reserve_first_available_bit m b) (reserve-Reserved m b)
  where
    go : (r : Memory × ℤ) → Reserved m b 0 b.count r → IsCounted m b r
    go r (found k e lo hi free below) = inr (
      k,
      rw e refl,
      hi,
      rw (e, get_free_bits_lem m b v, get_free_bits_lem (bitmap_set m b k 1) b v)
          (free_bits-set m b k 0 b.count h free lo (omega arith)),
    )
    go r (full e all) = inl (
      rw e refl,
      rw e refl,
      get_free_bits_lem m b v ∙ free_bits-all_set m b 0 b.count (λ j ge lt. all j ge (omega arith)),
    )
