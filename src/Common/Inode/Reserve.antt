-- ===== src/Common/Inode/Reserve.antt =====
-- Reserving an inode.
use rathal_os.Prelude.{ℕ, ◌^◌, ◌<◌, ◌≤◌, ◌≡◌, refl, arith, true, false, Option, none, some, ℤ}
use rathal_os.Memory.{Memory}
use rathal_os.Common.Bitmap.{Bitmap, bitmap_reserve_first_available_bit}
use rathal_os.Common.Bitmap.Bits.{bit}
use rathal_os.Common.Bitmap.Reserve.{Reserved, found, full, reserve-Reserved}
use rathal_os.Common.Inode.{
  InodeTable, inode_get, number, reserve_number, inode_reserve_first_available,
}

-- The two outcomes of `inode_reserve_first_available` with result `r`.
pub data Taken (m : Memory) (itab : InodeTable) (b : Bitmap) (r : Memory × Option ℕ) : Type 0 where
  none_left : r ≡ (m, none) → ((j : ℕ) → j < b.count → bit m b j ≡ true) → Taken m itab b r
  taken :
      (k : ℕ)
      → r.1 ≡ some (inode_get itab k)
      → k < b.count
      → bit m b k ≡ false
      → ((j : ℕ) → j < k → bit m b j ≡ true)
      → number r.0 (inode_get itab k) ≡ k
      → Taken m itab b r

-- Reserving an inode with a bitmap of at most 2 ^ 16 bits: it takes the lowest index that the bitmap
-- shows free, returns the inode at that index and makes the index its number; if the bitmap is full
-- it returns NULL and changes nothing.
pub reserve_first_available-Taken :
    (m : Memory) (itab : InodeTable) (b : Bitmap)
    → b.count ≤ 2 ^ 16
    → Taken m itab b (inode_reserve_first_available m itab b)
unfolding inode_reserve_first_available reserve_number
reserve_first_available-Taken m itab b small =
    go (bitmap_reserve_first_available_bit m b) (reserve-Reserved m b)
  where
    go : (r : Memory × ℤ) → Reserved m b 0 b.count r → Taken m itab b (reserve_number itab r)
    go r (found k e lo hi free below) =
        taken k (rw e refl) hi free (λ j lt. below j (omega arith) lt) (rw e (ground arith))
    go r (full e all) = none_left (rw e refl) (λ j lt. all j (omega arith) lt)
