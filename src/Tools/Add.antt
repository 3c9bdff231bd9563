-- ===== src/Tools/Add.antt =====
-- tools/fs_add.c: adding a file to an image. `none` is a failed assertion. The numbers of bytes left and of
-- free blocks are signed; a negative one, which every test on them treats like 0, is 0 here.
pub mod Address
pub mod Ready
pub mod Chunk
pub mod Filled
pub mod Fill
pub mod RoundTrip
pub mod Tests
use rathal_os.Prelude.{
  ℕ, zero, suc, ◌+◌, ◌-◌, ◌*◌, ◌/◌, ◌%◌, ◌^◌, Option, none, some, ◌>>=◌, ℤ, pos, negsuc,
  if◌then◌else◌, leb, ltb, ◌==◌, ◌||◌, Bool, true, false,
}
use rathal_os.Memory.{Memory, store16, store32}
use rathal_os.Common.Func.{memset, strncpy}
use rathal_os.Common.Bitmap.{Bitmap, bitmap_reserve_first_available_bit, bitmap_get_free_bits}
use rathal_os.Common.Inode.{
  inode_reserve_first_available, inode_direct_ptr_cnt, inode_indirect_ptr_cnt,
  inode_filename_length, name,
}
use rathal_os.Tools.Image.{File, fread, advance}
use rathal_os.Tools.Blocks.{blocks_write}
use rathal_os.Tools.Fs.{data_block, pointers_per_block, fs_get_file_inode}
use rathal_os.Tools.Open.{Heap, Tables, read_tables, write_tables}

-- What the loops change: the memory, the two counters, the file to add and the image.
pub record Copying : Type 0 where
  pub memory : Memory
  pub data_left : ℕ
  pub free_datablocks : ℕ
  pub f : File
  pub fs : File

-- An `int` as a `uint16_t`.
abbrev pub pointer : ℤ → ℕ
pointer (pos block) = block % 2 ^ 16
pointer (negsuc e) = 2 ^ 16 - 1 - e % 2 ^ 16

-- `(uint)*data_left >= bs ? bs : (uint)(*data_left)`
abbrev pub chunk_length : ℕ → ℕ → ℕ
chunk_length bs data_left = if leb bs data_left then bs else data_left

-- With the block that the bitmap gave; `buf` is the array for the bytes.
unfoldable pub copy_chunk : ℕ → ℕ → ℕ → Copying → Memory × ℤ → Option (Copying × ℤ)
unfolding fread advance blocks_write
copy_chunk bs datablocks_start buf c (m, blk) =
    let len = chunk_length bs c.data_left in
    let m' = fread c.f buf len m in
    blocks_write bs (data_block datablocks_start blk) m' buf len c.fs >>= λ fs'. some (
      record {
        memory = m';
        data_left = c.data_left - len;
        free_datablocks = c.free_datablocks - 1;
        f = advance len c.f;
        fs = fs';
      },
      blk,
    )

unfoldable pub alloc_block_and_copy : ℕ → ℕ → ℕ → Bitmap → Copying → Option (Copying × ℤ)
unfolding copy_chunk
alloc_block_and_copy bs datablocks_start buf datablock_bitmap c =
    copy_chunk bs datablocks_start buf c
      (bitmap_reserve_first_available_bit c.memory datablock_bitmap)

-- The loops over the direct pointers and over the pointers of an indirect block: `left` words from `p` on.
unfoldable pub fill_pointers : ℕ → ℕ → ℕ → Bitmap → ℕ → ℕ → Copying → Option Copying
unfolding alloc_block_and_copy
fill_pointers bs datablocks_start buf datablock_bitmap p zero c = some c
fill_pointers bs datablocks_start buf datablock_bitmap p (suc left) c =
    if c.free_datablocks == 0 || c.data_left == 0
    then some c
    else alloc_block_and_copy bs datablocks_start buf datablock_bitmap c >>= λ (c', blk).
        fill_pointers bs datablocks_start buf datablock_bitmap (p + 2) left
          (record c' { memory = store16 c'.memory p (pointer blk) })

-- One indirect pointer, with the block that the bitmap gave; `local` is the array of its pointers.
unfoldable pub fill_indirect_block :
    ℕ → ℕ → ℕ → ℕ → Bitmap → ℕ → Copying → Memory × ℤ → Option Copying
unfolding fill_pointers blocks_write
fill_indirect_block bs datablocks_start buf local datablock_bitmap p c (m, datablock) =
    fill_pointers bs datablocks_start buf datablock_bitmap local (pointers_per_block bs) (record c {
      memory = memset (store16 m p (pointer datablock)) local 0 bs;
      free_datablocks = c.free_datablocks - 1;
    })
    >>= λ c'.
        blocks_write bs (data_block datablocks_start datablock) c'.memory local bs c'.fs >>= λ fs'.
        some (record c' { fs = fs' })

-- The loop over the indirect pointers: `left` words from `p` on.
unfoldable pub fill_indirect : ℕ → ℕ → ℕ → ℕ → Bitmap → ℕ → ℕ → Copying → Option Copying
unfolding fill_indirect_block
fill_indirect bs datablocks_start buf local datablock_bitmap p zero c = some c
fill_indirect bs datablocks_start buf local datablock_bitmap p (suc left) c =
    if c.free_datablocks == 0 || c.data_left == 0
    then some c
    else fill_indirect_block bs datablocks_start buf local datablock_bitmap p c
        (bitmap_reserve_first_available_bit c.memory datablock_bitmap)
      >>= λ c'. fill_indirect bs datablocks_start buf local datablock_bitmap (p + 2) left c'

-- A 32-bit word taken for a signed number.
abbrev pub signed_part : ℕ → ℕ
signed_part w = if ltb w (2 ^ 31) then w else 0

-- What `add_file` does with a new inode, less the writing of the tables. The buffers for bytes and for
-- pointers are those of the heap.
unfoldable pub fill_inode : Heap → Tables → ℕ → ℕ → ℕ → File → File → Memory → Option Copying
unfolding fill_pointers fill_indirect
fill_inode at t filename file_size inode f fs m =
    let m' =
      store32 (strncpy m (name inode) filename (inode_filename_length - 1)) (inode + 34)
        file_size in
    let c : Copying = record {
      memory = m';
      data_left = signed_part file_size;
      free_datablocks = signed_part (bitmap_get_free_bits m' t.datablock_bitmap);
      f = f;
      fs = fs;
    } in
    fill_pointers t.sb.block_size t.sb.datablocks_start at.contents t.datablock_bitmap (inode + 38)
      inode_direct_ptr_cnt c
    >>= λ c'.
        fill_indirect t.sb.block_size t.sb.datablocks_start at.contents at.indirect
          t.datablock_bitmap (inode + 46) inode_indirect_ptr_cnt c'

-- With the inode that the table gave. Without enough free blocks the image keeps what was written so far.
unfoldable pub add_inode :
    Heap → Tables → ℕ → ℕ → File → File → Memory × Option ℕ → Option (Bool × File)
unfolding fill_inode write_tables
add_inode at t filename file_size f fs (m, none) = some (false, fs)
add_inode at t filename file_size f fs (m, some inode) =
    fill_inode at t filename file_size inode f fs m >>= λ c.
    if ltb 0 c.data_left
    then some (false, c.fs)
    else write_tables t c.memory c.fs >>= λ fs'. some (true, fs')

-- Whether the file was added, and the image.
unfoldable pub add_file : Heap → ℕ → ℕ → File → File → Memory → Option (Bool × File)
unfolding read_tables fs_get_file_inode add_inode
add_file at filename file_size f fs m = read_tables at fs m >>= λ t.
    elim (fs_get_file_inode t.memory t.itab filename) [
      | some inode ↦ some (false, fs)
      | none ↦
          add_inode at t filename file_size f fs
            (inode_reserve_first_available t.memory t.itab t.inode_bitmap)
    ]
