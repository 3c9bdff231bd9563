-- ===== src/Tools/Open.antt =====
-- What `fs_read` (tools/fs.c), `add_file` (tools/fs_add.c) and `delete_file` (tools/fs_del.c) start with:
-- the superblock, the bitmaps and the inode table of an image, in memory; `fs_read` as a whole; and what
-- the other two end with. `none` is a failed assertion or an exit.
use rathal_os.Prelude.{ℕ, Option, none, some, ◌>>=◌, Bool, true, false}
use rathal_os.Memory.{Memory}
use rathal_os.Common.Bitmap.{Bitmap}
use rathal_os.Common.Inode.{InodeTable}
use rathal_os.Tools.Image.{File}
use rathal_os.Tools.Superblock.{Superblock}
use rathal_os.Tools.Superblock.Bytes.{superblock_read}
use rathal_os.Tools.Tables.{bitmap_read, bitmap_write, inode_table_read, inode_table_write}
use rathal_os.Tools.Fs.{fs_get_file_inode, fs_read_inode}

-- The addresses that `ALLOC` gives, and those of the arrays that are locals.
pub record Heap : Type 0 where
  pub sb : ℕ
  pub inode_bits : ℕ
  pub datablock_bits : ℕ
  pub inodes : ℕ
  pub contents : ℕ
  pub indirect : ℕ

-- The four objects, the memory that holds them, and the superblock, which nothing changes.
pub record Tables : Type 0 where
  pub sb : Superblock
  pub inode_bitmap : Bitmap
  pub datablock_bitmap : Bitmap
  pub itab : InodeTable
  pub memory : Memory

unfoldable pub read_tables : Heap → File → Memory → Option Tables
unfolding superblock_read bitmap_read inode_table_read
read_tables at f m = superblock_read at.sb f m >>= λ sb.
    bitmap_read at.inode_bits sb.inode_bitmap_start sb.inode_count sb.block_size f m
    >>= λ (inode_bitmap, m1).
        bitmap_read at.datablock_bits sb.datablock_bitmap_start sb.datablock_count sb.block_size f
          m1
        >>= λ (datablock_bitmap, m2).
            inode_table_read at.inodes sb.inode_count sb.inode_start sb.block_size f m2
            >>= λ (itab, m3). some (record {
              sb = sb;
              inode_bitmap = inode_bitmap;
              datablock_bitmap = datablock_bitmap;
              itab = itab;
              memory = m3;
            })

unfoldable pub write_tables : Tables → Memory → File → Option File
unfolding bitmap_write inode_table_write
write_tables t m f =
    bitmap_write t.inode_bitmap t.sb.inode_bitmap_start t.sb.block_size m f >>= λ f1.
    bitmap_write t.datablock_bitmap t.sb.datablock_bitmap_start t.sb.block_size m f1 >>= λ f2.
    inode_table_write t.itab t.sb.inode_start t.sb.block_size m f2

-- Whether the file was found, and the memory with the bytes at `dest`.
unfoldable pub fs_read : Heap → ℕ → ℕ → ℕ → ℕ → File → Memory → Option (Bool × Memory)
unfolding read_tables fs_get_file_inode fs_read_inode
fs_read at filename offset count dest f m = read_tables at f m >>= λ t.
    elim (fs_get_file_inode t.memory t.itab filename) [
      | none ↦ some (false, t.memory)
      | some inode ↦
          fs_read_inode t.sb.block_size t.sb.datablocks_start at.indirect at.contents dest offset
            count f inode t.memory
          >>= λ m'. some (true, m')
    ]
