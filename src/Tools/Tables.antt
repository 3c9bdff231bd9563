-- ===== src/Tools/Tables.antt =====
-- tools/bitmap.c and tools/inode.c: bitmaps and the inode table in memory that `ALLOC` zeroed, read from
-- an image and written to it. The address that `ALLOC` gives is an argument; `none` is a failed assertion.
pub mod Store
pub mod Tests
use rathal_os.Prelude.{
  ℕ, ◌+◌, ◌-◌, ◌*◌, ◌/◌, ◌%◌, ◌^◌, Option, none, some, ◌>>=◌, if◌then◌else◌, ◌==◌, ◌||◌, Bool, not,
}
use rathal_os.Memory.{Memory}
use rathal_os.Common.Func.{memset}
use rathal_os.Common.Bitmap.{Bitmap}
use rathal_os.Common.Inode.{InodeTable, inode_size}
use rathal_os.Tools.Image.{File, fseek, fread}
use rathal_os.Tools.Blocks.{block_offset, blocks_write}

-- `ASSERT_BLOCK_SIZE`
abbrev pub is_block_size : ℕ → Bool
is_block_size bs = bs == 512 || (bs == 1024 || (bs == 2048 || (bs == 4096 || bs == 8192)))

-- The bitmap, and the memory with its bits.
unfoldable pub bitmap_create : ℕ → ℕ → Memory → Option (Bitmap × Memory)
bitmap_create p bitcount m =
    let bytes = 1 + (bitcount - 1) / 8 in
    if bitcount == 0
    then none
    else some (record { count = bitcount; size = bytes; bits = p }, memset m p 0 bytes)

unfoldable pub bitmap_read : ℕ → ℕ → ℕ → ℕ → File → Memory → Option (Bitmap × Memory)
unfolding bitmap_create fseek fread
bitmap_read p start_block bitcount block_size f m =
    if not (is_block_size block_size)
    then none
    else bitmap_create p bitcount m >>= λ (b, m').
        some (b, fread (fseek (block_offset start_block block_size) f) b.bits b.size m')

unfoldable pub bitmap_write : Bitmap → ℕ → ℕ → Memory → File → Option File
unfolding blocks_write
bitmap_write bitmap start_block block_size m f =
    if not (is_block_size block_size)
    then none
    else blocks_write block_size start_block m bitmap.bits bitmap.size f

unfoldable pub inode_table_create : ℕ → ℕ → Memory → Option (InodeTable × Memory)
inode_table_create p inode_count m =
    let sz = inode_count * inode_size % 2 ^ 32 in
    if inode_count == 0
    then none
    else some (record { inode_count = inode_count; size = sz; inodes = p }, memset m p 0 sz)

unfoldable pub inode_table_read : ℕ → ℕ → ℕ → ℕ → File → Memory → Option (InodeTable × Memory)
unfolding inode_table_create fseek fread
inode_table_read p inode_count inode_start_block block_size f m =
    if inode_start_block == 0 || block_size == 0
    then none
    else inode_table_create p inode_count m >>= λ (itab, m'). some (
      itab,
      fread (fseek (block_offset inode_start_block block_size) f) p (inode_count * inode_size) m',
    )

unfoldable pub inode_table_write : InodeTable → ℕ → ℕ → Memory → File → Option File
unfolding blocks_write
inode_table_write itab inode_start_block block_size m f =
    blocks_write block_size inode_start_block m itab.inodes itab.size f
