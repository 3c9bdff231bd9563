-- ===== src/Tools/Delete.antt =====
-- tools/fs_del.c: deleting a file from an image. `none` is a failed assertion.
pub mod Bits
pub mod Direct
pub mod Tests
use rathal_os.Prelude.{
  ℕ, zero, suc, ◌+◌, ◌*◌, ◌/◌, Option, none, some, ◌>>=◌, if◌then◌else◌, ◌==◌, ◌||◌, Bool, true,
  false,
}
use rathal_os.Memory.{Memory, load16}
use rathal_os.Common.Func.{memset}
use rathal_os.Common.Bitmap.{Bitmap, bitmap_get, bitmap_set}
use rathal_os.Common.Inode.{
  InodeTable, number, inode_size, indirect_ptr, inode_direct_ptr_cnt, inode_indirect_ptr_cnt,
}
use rathal_os.Tools.Image.{File}
use rathal_os.Tools.Blocks.{block_read}
use rathal_os.Tools.Fs.{fs_get_file_inode}
use rathal_os.Tools.Open.{Heap, Tables, read_tables, write_tables}

-- `if (idx > 0 && bitmap_get(&datablock_bitmap, idx)) bitmap_set(&datablock_bitmap, idx, 0)`
unfoldable pub clear_pointer : Memory → Bitmap → ℕ → Memory
clear_pointer m bitmap idx =
    if idx == 0 || bitmap_get m bitmap idx == 0 then m else bitmap_set m bitmap idx 0

-- The loops over the direct pointers and over the pointers of an indirect block: `left` words from `p` on.
unfoldable pub clear_pointers : Memory → Bitmap → ℕ → ℕ → Memory
unfolding clear_pointer
clear_pointers m bitmap p zero = m
clear_pointers m bitmap p (suc left) =
    clear_pointers (clear_pointer m bitmap (load16 m p)) bitmap (p + 2) left

-- One indirect pointer; `contents` is the array for the block. The block is read without adding
-- `datablocks_start` to its number.
unfoldable pub clear_indirect_block : ℕ → ℕ → File → Bitmap → ℕ → Memory → Option Memory
unfolding clear_pointer clear_pointers block_read
clear_indirect_block bs contents f bitmap indirect_block m =
    if indirect_block == 0
    then some m
    else block_read bs indirect_block contents f (clear_pointer m bitmap indirect_block) >>= λ m'.
        some (clear_pointers m' bitmap contents (bs / 2))

-- The loop over the indirect pointers from `i` on.
unfoldable pub clear_indirect : ℕ → ℕ → File → Bitmap → ℕ → ℕ → ℕ → Memory → Option Memory
unfolding clear_indirect_block
clear_indirect bs contents f bitmap inode i zero m = some m
clear_indirect bs contents f bitmap inode i (suc left) m =
    clear_indirect_block bs contents f bitmap (indirect_ptr m inode i) m >>= λ m'.
    clear_indirect bs contents f bitmap inode (i + 1) left m'

-- What `delete_file` does in memory to a file that it found.
unfoldable pub delete_inode : ℕ → ℕ → File → Bitmap → Bitmap → ℕ → Memory → Option Memory
unfolding clear_pointers clear_indirect
delete_inode bs contents f inode_bitmap datablock_bitmap inode m =
    let m1 = bitmap_set m inode_bitmap (number m inode) 0 in
    let m2 = clear_pointers m1 datablock_bitmap (inode + 38) inode_direct_ptr_cnt in
    clear_indirect bs contents f datablock_bitmap inode 0 inode_indirect_ptr_cnt m2 >>= λ m3.
    some (memset m3 inode 0 inode_size)

-- Whether the file was there, and the image.
unfoldable pub delete_file : Heap → ℕ → File → Memory → Option (Bool × File)
unfolding read_tables fs_get_file_inode delete_inode write_tables
delete_file at filename f m = read_tables at f m >>= λ t.
    elim (fs_get_file_inode t.memory t.itab filename) [
      | none ↦ some (false, f)
      | some inode ↦
          delete_inode t.sb.block_size at.contents f t.inode_bitmap t.datablock_bitmap inode
            t.memory
          >>= λ m'. write_tables t m' f >>= λ f'. some (true, f')
    ]
