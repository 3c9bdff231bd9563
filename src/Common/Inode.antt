-- ===== src/Common/Inode.antt =====
-- common/fs/inode.c and inode.h. The packed `inode_t` has 64 bytes; an inode pointer is an address.
pub mod Lookup
pub mod Reserve
pub mod Tests
use rathal_os.Prelude.{
  ℕ, zero, suc, ◌+◌, ◌-◌, ◌*◌, ◌%◌, ◌/◌, ◌^◌, Option, none, some, ℤ, pos, negsuc, if◌then◌else◌,
  ◌==◌, is_zero, ltb, Bool, false,
}
use rathal_os.Memory.{Memory, load16, load32, store16}
use rathal_os.Common.Func.{strncmp}
use rathal_os.Common.Bitmap.{Bitmap, bitmap_reserve_first_available_bit}

abbrev pub inode_filename_length : ℕ
inode_filename_length = 32

abbrev pub inode_direct_ptr_cnt : ℕ
inode_direct_ptr_cnt = 4

abbrev pub inode_indirect_ptr_cnt : ℕ
inode_indirect_ptr_cnt = 9

-- `sizeof(inode_t)`
abbrev pub inode_size : ℕ
inode_size = 64

-- The fields of `inode_t` at their offsets.
abbrev pub number : Memory → ℕ → ℕ
number m inode = load16 m inode

abbrev pub name : ℕ → ℕ
name inode = inode + 2

abbrev pub file_size : Memory → ℕ → ℕ
file_size m inode = load32 m (inode + 34)

abbrev pub direct_ptr : Memory → ℕ → ℕ → ℕ
direct_ptr m inode i = load16 m (inode + 38 + 2 * i)

abbrev pub indirect_ptr : Memory → ℕ → ℕ → ℕ
indirect_ptr m inode i = load16 m (inode + 46 + 2 * i)

-- `inodes` is the address of the first inode.
pub record InodeTable : Type 0 where
  pub inode_count : ℕ
  pub size : ℕ
  pub inodes : ℕ

abbrev pub inode_get : InodeTable → ℕ → ℕ
inode_get itab index = itab.inodes + inode_size * index

-- What is done with the result of the bitmap: -1 is NULL.
reserve_number : InodeTable → Memory × ℤ → Memory × Option ℕ
reserve_number itab (m, negsuc i) = (m, none)
reserve_number itab (m, pos i) = (store16 m (inode_get itab i) i, some (inode_get itab i))

unfoldable pub inode_reserve_first_available : Memory → InodeTable → Bitmap → Memory × Option ℕ
unfolding reserve_number
inode_reserve_first_available m itab inode_bitmap =
    reserve_number itab (bitmap_reserve_first_available_bit m inode_bitmap)

-- A loop over the table from index `i` on, with `left` rounds to go, that returns the first inode
-- that passes the test.
unfoldable pub first_inode : (ℕ → Bool) → InodeTable → ℕ → ℕ → Option ℕ
first_inode test itab i zero = none
first_inode test itab i (suc left) =
    let rest = first_inode test itab (i + 1) left in
    if test (inode_get itab i) then some (inode_get itab i) else rest

unfoldable pub inode_get_from_inode : Memory → InodeTable → ℕ → Option ℕ
unfolding first_inode
inode_get_from_inode m itab inode_number =
    first_inode (λ inode. number m inode == inode_number) itab 0 itab.inode_count

-- `strncmp` compares 31 characters, so its uninitialised locals are never read.
unfoldable pub matches_name : Memory → ℕ → ℕ → Bool
matches_name m filename inode =
    if ltb 0 (number m inode)
    then is_zero (strncmp m filename (name inode) (inode_filename_length - 1) 0 0)
    else false

unfoldable pub inode_get_from_filename : Memory → InodeTable → ℕ → Option ℕ
unfolding first_inode matches_name
inode_get_from_filename m itab filename =
    first_inode (matches_name m filename) itab 0 itab.inode_count

-- The loop starts at `(uint16_t)current_index`. The line that it prints first is left out.
unfoldable pub inode_get_next : Memory → InodeTable → ℕ → Option ℕ
unfolding first_inode
inode_get_next m itab current_index =
    let start = current_index % 2 ^ 16 in
    first_inode (λ inode. ltb 0 (number m inode)) itab start (itab.inode_count - start)
