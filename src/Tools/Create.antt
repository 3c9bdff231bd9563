-- ===== src/Tools/Create.antt =====
-- tools/fs_create.c: creating an image, from the numbers that `atoi` makes of the arguments. `none` means
-- that the tool exits, for its usage or for a failed assertion.
pub mod Kept
pub mod Tests
use rathal_os.Prelude.{
  ℕ, zero, suc, ◌+◌, ◌%◌, Option, none, some, ◌>>=◌, ℤ, pos, if◌then◌else◌, ltb, ◌==◌, ◌||◌, not,
}
use rathal_os.Memory.{Memory}
use rathal_os.Common.Func.{memset}
use rathal_os.Common.Bitmap.{bitmap_set}
use rathal_os.Tools.Image.{File}
use rathal_os.Tools.Blocks.{blocks_write}
use rathal_os.Tools.Fs.{data_block}
use rathal_os.Tools.Tables.{bitmap_create, bitmap_write, inode_table_create, inode_table_write}
use rathal_os.Tools.Superblock.{Superblock, superblock_create}
use rathal_os.Tools.Superblock.Bytes.{superblock_bytes, superblock_write}
use rathal_os.Tools.Open.{Heap}

-- A file that was just created.
abbrev pub new_file : File
new_file = record { content = λ a. 0; size = 0; position = 0 }

-- A bitmap with bit 0 set, written at `start`: the memory and the image.
unfoldable pub create_bitmap : ℕ → ℕ → ℕ → ℕ → Memory → File → Option (Memory × File)
unfolding bitmap_create bitmap_write
create_bitmap p count start block_size m fs = bitmap_create p count m >>= λ (b, m1).
    let m2 = bitmap_set m1 b 0 1 in bitmap_write b start block_size m2 fs >>= λ fs'. some (m2, fs')

-- The loop that writes the empty block at `empty_block`, from index `i` on.
unfoldable pub write_empty : ℕ → ℕ → ℕ → ℕ → ℕ → Memory → File → Option File
unfolding blocks_write
write_empty block_size datablocks_start empty_block i zero m fs = some fs
write_empty block_size datablocks_start empty_block i (suc left) m fs =
    blocks_write block_size (data_block datablocks_start (pos i)) m empty_block block_size fs
    >>= λ fs'. write_empty block_size datablocks_start empty_block (i + 1) left m fs'

-- The inode table and the data blocks, all empty.
unfoldable pub create_blocks : Heap → Superblock → Memory → File → Option File
unfolding inode_table_create inode_table_write write_empty
create_blocks at sb m fs = inode_table_create at.inodes sb.inode_count m >>= λ (itab, m').
    inode_table_write itab sb.inode_start sb.block_size m' fs >>= λ fs'.
    write_empty sb.block_size sb.datablocks_start at.contents 0 sb.datablock_count
      (memset m' at.contents 0 sb.block_size) fs'

-- From the bitmaps on.
unfoldable pub create_bitmaps : Heap → Superblock → Memory → File → Option File
unfolding create_bitmap create_blocks
create_bitmaps at sb m fs =
    create_bitmap at.inode_bits sb.inode_count sb.inode_bitmap_start sb.block_size m fs
    >>= λ (m', fs').
        create_bitmap at.datablock_bits sb.datablock_count sb.datablock_bitmap_start sb.block_size
          m' fs'
        >>= λ (m'', fs''). create_blocks at sb m'' fs''

-- From the superblock on.
unfoldable pub create_image : Heap → ℕ → Superblock → Memory → Option File
unfolding superblock_bytes superblock_write create_bitmaps
create_image at label sb m =
    let m' = superblock_bytes at.sb label sb m in
    superblock_write at.sb sb.block_size m' new_file >>= λ fs. create_bitmaps at sb m' fs

-- The tests of the arguments; the label is at the address `label`.
unfoldable pub fs_create : Heap → ℕ → ℤ → ℤ → ℤ → Memory → Option File
unfolding superblock_create create_image
fs_create at label (pos block_size) (pos inode_count) (pos datablock_count) m =
    if m label == 0 || (block_size == 0 || (inode_count == 0 || datablock_count == 0))
    then none
    else if not (block_size % 512 == 0) || ltb 65535 inode_count
    then none
    else superblock_create block_size inode_count datablock_count >>= λ sb.
        create_image at label sb m
fs_create at label block_size inode_count datablock_count m = none
