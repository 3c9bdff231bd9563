-- ===== src/Tools/Delete/Tests.antt =====
-- The inode 3 at 1000 with data blocks 1 and 2, in blocks of 4 bytes; and with the indirect block 5 of an
-- image whose data blocks start at block 10.
use rathal_os.Prelude.{
  ℕ, zero, suc, ◌+◌, ◌*◌, ◌<◌, ◌≡◌, refl, arith, [], ◌∷◌, Option, none, some, Bool, true, false,
  inl,
}
use rathal_os.Memory.{Memory, place, place-IsBytes, zeros, IsBytes}
use rathal_os.Common.Func.{memset}
use rathal_os.Common.Bitmap.{Bitmap, bitmap_get, bitmap_set}
use rathal_os.Common.Bitmap.Bits.{bit}
use rathal_os.Tools.Image.{File}
use rathal_os.Tools.Delete.{delete_inode}
use rathal_os.Tools.Delete.Direct.{IsDirect, Deleted, delete_inode-Deleted}

abbrev inode_bitmap : Bitmap
inode_bitmap = record { count = 8; size = 1; bits = 100 }

abbrev datablock_bitmap : Bitmap
datablock_bitmap = record { count = 8; size = 1; bits = 200 }

abbrev ram : Memory
ram =
    place 100 (255 ∷ [])
      (place 200 (255 ∷ []) (place 1000 (3 ∷ []) (place 1038 (1 ∷ 0 ∷ 2 ∷ []) zeros)))

-- Block `b` is full of zeros, but block 15, which is data block 5, holds the pointers 6 and 7.
abbrev image : File
image = record { content = place 60 (6 ∷ 0 ∷ 7 ∷ 0 ∷ []) zeros; size = 100; position = 0 }

abbrev bit_after : ℕ → Option Memory → Bool
bit_after k none = false
bit_after k (some m) = bit m datablock_bitmap k

-- After the deletion of a file with the indirect block 5 the bit of that block is clear, but those of the
-- blocks 6 and 7 that it names are still set: block 5 of the image is read for it, not block 15.
leaks_blocks :
    let m' =
      delete_inode 4 2000 image inode_bitmap datablock_bitmap 1000 (place 1046 (5 ∷ 0 ∷ []) ram) in
    (bit_after 5 m' ≡ false) × (bit_after 6 m' ≡ true) × (bit_after 7 m' ≡ true)
unfolding delete_inode bitmap_set bitmap_get memset
leaks_blocks = (refl, refl, refl)

ram-IsBytes : IsBytes ram
ram-IsBytes =
    place-IsBytes 100 (255 ∷ []) _ (omega arith, _)
      (place-IsBytes 200 (255 ∷ []) _ (omega arith, _)
        (place-IsBytes 1000 (3 ∷ []) _ (omega arith, _)
          (place-IsBytes 1038 (1 ∷ 0 ∷ 2 ∷ []) zeros (omega arith, (omega arith, (omega arith, _)))
            (λ a. omega arith))))

ram-IsDirect : IsDirect inode_bitmap datablock_bitmap 1000 ram
ram-IsDirect = record {
  no_indirect = λ i lt. ground arith;
  number_below = omega arith;
  pointers_below = λ j lt. by_pointer j lt;
  bitmaps = inl (omega arith);
  inode_bits = inl (omega arith);
  block_bits = inl (omega arith);
}
  where
    by_pointer : (j : ℕ) → j < 4 → ram (1000 + 38 + 2 * j) + 256 * ram (1000 + 38 + 2 * j + 1) < 8
    by_pointer zero lt = omega arith
    by_pointer (suc zero) lt = omega arith
    by_pointer (suc (suc zero)) lt = omega arith
    by_pointer (suc (suc (suc zero))) lt = omega arith
    by_pointer (suc (suc (suc (suc j)))) lt = absurd (omega arith)

delete_inode-Deleted_example :
    (m' : Memory) × (delete_inode 4 2000 image inode_bitmap datablock_bitmap 1000 ram ≡ some m')
    × Deleted inode_bitmap datablock_bitmap 1000 ram m'
delete_inode-Deleted_example =
    delete_inode-Deleted 4 2000 image inode_bitmap datablock_bitmap 1000 ram ram-IsBytes
      ram-IsDirect
