-- ===== src/Tools/Superblock/Bytes.antt =====
-- tools/superblock.c: the superblock in memory, and reading and writing it. The string literal "BFS"
-- is written out.
use rathal_os.Prelude.{ℕ, ◌+◌, Option, none, some, if◌then◌else◌, ◌==◌, ◌&&◌, Bool, List, [], ◌∷◌}
use rathal_os.Memory.{Memory, store, store32, load32}
use rathal_os.Common.Func.{memset, strncpy}
use rathal_os.Tools.Image.{File, fseek, fread}
use rathal_os.Tools.Blocks.{blocks_write}
use rathal_os.Tools.Tables.{is_block_size}
use rathal_os.Tools.Superblock.{Superblock}

-- `sizeof(superblock_t)`
abbrev pub superblock_size : ℕ
superblock_size = 78

-- The numbers of a superblock in the order of its fields, which are words from byte 38 on.
abbrev pub fields : Superblock → List ℕ
fields sb =
    sb.block_size ∷ sb.inode_bitmap_start ∷ sb.inode_bitmap_block_count ∷ sb.datablock_bitmap_start
    ∷ sb.datablock_bitmap_block_count ∷ sb.inode_start ∷ sb.inode_count ∷ sb.inode_block_count
    ∷ sb.datablocks_start ∷ sb.datablock_count ∷ []

unfoldable pub store_fields : Memory → ℕ → List ℕ → Memory
store_fields m p [] = m
store_fields m p (v ∷ vs) = store_fields (store32 m p v) (p + 4) vs

-- Zeroed memory at the address `p` from `ALLOC`, with signature and version.
abbrev pub superblock_header : ℕ → ℕ → Memory → Memory
superblock_header p block_size m =
    let zeroed = memset m p 0 block_size in
    let signed = store (store (store zeroed p b'B') (p + 1) b'F') (p + 2) b'S' in
    store (store signed (p + 4) 1) (p + 5) 0

-- What `superblock_create` leaves there, with its numbers in `sb`.
unfoldable pub superblock_bytes : ℕ → ℕ → Superblock → Memory → Memory
unfolding store_fields
superblock_bytes p label sb m =
    store_fields (strncpy (superblock_header p sb.block_size m) (p + 6) label 31) (p + 38)
      (fields sb)

abbrev pub load_superblock : Memory → ℕ → Superblock
load_superblock m p = record {
  block_size = load32 m (p + 38);
  inode_bitmap_start = load32 m (p + 42);
  inode_bitmap_block_count = load32 m (p + 46);
  datablock_bitmap_start = load32 m (p + 50);
  datablock_bitmap_block_count = load32 m (p + 54);
  inode_start = load32 m (p + 58);
  inode_count = load32 m (p + 62);
  inode_block_count = load32 m (p + 66);
  datablocks_start = load32 m (p + 70);
  datablock_count = load32 m (p + 74);
}

-- The tests of `superblock_read`.
unfoldable pub is_superblock : Memory → ℕ → Bool
is_superblock m p =
    (m p == b'B' && (m (p + 1) == b'F' && m (p + 2) == b'S'))
    && (m (p + 4) == 1 && is_block_size (load32 m (p + 38)))

-- The superblock of an image, read to the address `p`; `none` means that the tool exits.
unfoldable pub superblock_read : ℕ → File → Memory → Option Superblock
unfolding is_superblock fseek fread
superblock_read p f m =
    let m' = fread (fseek 0 f) p superblock_size (memset m p 0 superblock_size) in
    if is_superblock m' p then some (load_superblock m' p) else none

-- `block_size` is the field of the superblock at `p`.
unfoldable pub superblock_write : ℕ → ℕ → Memory → File → Option File
unfolding blocks_write
superblock_write p block_size m f = blocks_write block_size 0 m p block_size f
