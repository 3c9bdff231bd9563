-- ===== src/Common/Bitmap.antt =====
-- common/fs/bitmap.c and bitmap.h: the bitmaps of inodes and data blocks. An index is not negative.
pub mod Bytes
pub mod Bits
pub mod Reserve
pub mod Tests
use rathal_os.Prelude.{
  ℕ, zero, suc, ◌+◌, ◌-◌, ◌%◌, ◌/◌, ◌^◌, ℤ, pos, minus_one, if◌then◌else◌, ◌==◌, bit_and, bit_or,
}
use rathal_os.Memory.{Memory, store}

-- `bits` is the address of the first byte.
pub record Bitmap : Type 0 where
  pub count : ℕ
  pub size : ℕ
  pub bits : ℕ

-- `bits[index/8] & (1 << (index & 7))`
unfoldable pub bitmap_get : Memory → Bitmap → ℕ → ℕ
bitmap_get m bitmap index = bit_and (m (bitmap.bits + index / 8)) (2 ^ (index % 8))

-- `~x` on an `int` that is not negative, as a bit pattern.
abbrev pub complement : ℕ → ℕ
complement x = 2 ^ 32 - 1 - x

-- `bits[index/8] |= 1 << (index & 7)`, or `&= ~(1 << (index & 7))` if `value` is 0. What is stored is
-- cut to a byte.
unfoldable pub bitmap_set : Memory → Bitmap → ℕ → ℕ → Memory
bitmap_set m bitmap index value =
    let p = bitmap.bits + index / 8 in
    if value == 0
    then store m p (bit_and (m p) (complement (2 ^ (index % 8))) % 256)
    else store m p (bit_or (m p) (2 ^ (index % 8)) % 256)

-- The loop from index `i` on, with `left` rounds to go.
reserve_from : Memory → Bitmap → ℕ → ℕ → Memory × ℤ
reserve_from m bitmap i zero = (m, minus_one)
reserve_from m bitmap i (suc left) =
    let rest = reserve_from m bitmap (i + 1) left in
    if bitmap_get m bitmap i == 0 then (bitmap_set m bitmap i 1, pos i) else rest

unfoldable pub bitmap_reserve_first_available_bit : Memory → Bitmap → Memory × ℤ
unfolding reserve_from
bitmap_reserve_first_available_bit m bitmap = reserve_from m bitmap 0 bitmap.count

free_from : Memory → Bitmap → ℕ → ℕ → ℕ → ℕ
free_from m bitmap i zero count = count
free_from m bitmap i (suc left) count =
    free_from m bitmap (i + 1) left
      (if bitmap_get m bitmap i == 0 then (count + 1) % 2 ^ 32 else count)

unfoldable pub bitmap_get_free_bits : Memory → Bitmap → ℕ
unfolding free_from
bitmap_get_free_bits m bitmap = free_from m bitmap 0 bitmap.count 0
