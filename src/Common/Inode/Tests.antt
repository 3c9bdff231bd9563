-- ===== src/Common/Inode/Tests.antt =====
-- A table of four inodes at 2048, of which inode 2 is the file "ab" of 3 bytes in data block 7.
use rathal_os.Prelude.{ℕ, ◌≡◌, refl, List, [], ◌∷◌, none, some}
use rathal_os.Memory.{Memory, place, zeros}
use rathal_os.Common.Func.{strncmp}
use rathal_os.Common.Bitmap.{Bitmap, bitmap_get, bitmap_set, bitmap_reserve_first_available_bit}
use rathal_os.Common.Inode.{
  InodeTable, number, file_size, direct_ptr, inode_get_from_inode, inode_get_from_filename,
  inode_get_next, inode_reserve_first_available,
}

abbrev table : InodeTable
table = record { inode_count = 4; size = 256; inodes = 2048 }

abbrev ab : List ℕ
ab = b'a' ∷ b'b' ∷ []

-- The file's name also stands at 5000. The bitmap at 512 has bits 0 and 2 set.
abbrev start : Memory
start =
    place 2176 (2 ∷ 0 ∷ ab)
      (place 2210 (3 ∷ 0 ∷ 0 ∷ 0 ∷ 7 ∷ []) (place 5000 ab (place 512 (5 ∷ []) zeros)))

abbrev four : Bitmap
four = record { count = 4; size = 1; bits = 512 }

fields : (number start 2176 ≡ 2) × (file_size start 2176 ≡ 3) × (direct_ptr start 2176 0 ≡ 7)
fields = (refl, refl, refl)

searches :
    (inode_get_from_filename start table 5000 ≡ some 2176)
    × (inode_get_from_filename start table 6000 ≡ none)
    × (inode_get_from_inode start table 2 ≡ some 2176)
    × (inode_get_next start table 0 ≡ some 2176)
    × (inode_get_next start table 3 ≡ none)
unfolding inode_get_from_filename inode_get_from_inode inode_get_next strncmp
searches = (refl, refl, refl, refl, refl)

reserves : (inode_reserve_first_available start table four).1 ≡ some 2112
unfolding inode_reserve_first_available bitmap_reserve_first_available_bit bitmap_get bitmap_set
reserves = refl
