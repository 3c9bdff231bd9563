-- ===== src/Kernel/Fs.antt =====
-- kernel/fs/fs.c: the file system of the kernel. Its static variables are the record `Fs`; pointers
-- into the global buffer are addresses of the memory. A file descriptor is the number below 2 ^ 32 of
-- its `int`. An entry with an index behind the descriptor table, -1 included, is the nine bytes of
-- memory at its address; the static tables' own bytes are not part of that memory.
pub mod Init
pub mod Table
pub mod Remove
pub mod Open
pub mod Iterator
pub mod Read
pub mod Tests
use rathal_os.Prelude.{
  ℕ, zero, suc, ◌+◌, ◌-◌, ◌*◌, ◌%◌, ◌/◌, ◌^◌, ◌<◌, ◌≡◌, arith, Option, none, some, ℤ, pos,
  minus_one, if◌then◌else◌, ◌==◌, ltb, leb, ◌&&◌, Bool, true, false, List, [], ◌∷◌, set, get_or,
  replicate,
}
use rathal_os.Memory.{Memory, load32, store, store32}
use rathal_os.Common.Func.{memset, memcpy}
use rathal_os.Common.Bitmap.{Bitmap, bitmap_set}
use rathal_os.Common.Inode.{
  InodeTable, number, name, file_size, inode_get, inode_size, inode_filename_length,
  inode_direct_ptr_cnt, inode_indirect_ptr_cnt, inode_get_from_filename, inode_get_next,
}
use rathal_os.Kernel.Disk.{Disk, sector_size}

abbrev pub file_descriptor_tab_size : ℕ
file_descriptor_tab_size = 50

-- `file_open_t`
pub record FileOpen : Type 0 where
  pub inode : ℕ
  pub status : ℕ
  pub offset : ℕ

abbrev pub unused : FileOpen
unused = record { inode = 0; status = 0; offset = 0 }

-- The static variables of fs.c, and the memory. `global_buffer` is the address of the buffer, and
-- `tab_address` that of the descriptor table.
pub record Fs : Type 0 where
  pub memory : Memory
  pub global_buffer : ℕ
  pub superblock : ℕ
  pub inode_bitmap : Bitmap
  pub inode_table : InodeTable
  pub file_descriptor_tab : List FileOpen
  pub tab_address : ℕ

-- The fields of `superblock_t` (common/fs/superblock.h) that the kernel reads, at their offsets.
abbrev pub block_size : Memory → ℕ → ℕ
block_size m sb = load32 m (sb + 38)

abbrev pub inode_bitmap_start : Memory → ℕ → ℕ
inode_bitmap_start m sb = load32 m (sb + 42)

abbrev pub inode_bitmap_block_count : Memory → ℕ → ℕ
inode_bitmap_block_count m sb = load32 m (sb + 46)

abbrev pub inode_start : Memory → ℕ → ℕ
inode_start m sb = load32 m (sb + 58)

abbrev pub inode_count : Memory → ℕ → ℕ
inode_count m sb = load32 m (sb + 62)

abbrev pub datablocks_start : Memory → ℕ → ℕ
datablocks_start m sb = load32 m (sb + 70)

module _ (disk : Disk) where
  unfoldable pub file_superbloc_init : Fs → Fs
  file_superbloc_init s = record s {
    memory = disk.read_sector 0 s.global_buffer s.memory;
    superblock = s.global_buffer;
  }

  unfoldable pub file_inode_bitmap_init : Fs → Fs
  file_inode_bitmap_init s =
      let at = s.global_buffer + sector_size in
      let m = disk.read_sector (inode_bitmap_start s.memory s.superblock) at s.memory in
      record s {
        memory = m;
        inode_bitmap = record {
          bits = at;
          count = inode_count m s.superblock;
          size = inode_bitmap_block_count m s.superblock * block_size m s.superblock % 2 ^ 32;
        };
      }

  unfoldable pub inode_table_init : Fs → Fs
  inode_table_init s =
      let at = s.global_buffer + 4 * sector_size in
      let m = disk.read_sector (inode_start s.memory s.superblock) at s.memory in
      record s {
        memory = m;
        inode_table = record {
          inodes = at;
          inode_count = inode_count m s.superblock;
          size = inode_count m s.superblock * inode_size % 2 ^ 32;
        };
      }

-- `memset(file_descriptor_tab, 0, …)`
unfoldable pub fdescriptor_tab_init : Fs → Fs
fdescriptor_tab_init s = record s {
  file_descriptor_tab = replicate file_descriptor_tab_size unused;
}

unfoldable pub files_system_init : Disk → Fs → Fs
unfolding file_superbloc_init file_inode_bitmap_init inode_table_init fdescriptor_tab_init
files_system_init disk s =
    fdescriptor_tab_init
      (inode_table_init disk (file_inode_bitmap_init disk (file_superbloc_init disk s)))

-- `inode_get_from_filename(&inode_table, filename)`
abbrev pub find : Fs → ℕ → Option ℕ
find s filename = inode_get_from_filename s.memory s.inode_table filename

abbrev pub is_some : Option ℕ → Bool
is_some none = false
is_some (some a) = true

unfoldable pub file_exists : Fs → ℕ → Bool
file_exists s filename = is_some (find s filename)

-- Clearing the bit and the inode that an inode's number names.
remove_inode : Fs → ℕ → Fs
remove_inode s inode =
    let m = bitmap_set s.memory s.inode_bitmap (number s.memory inode) 0 in
    record s { memory = memset m (inode_get s.inode_table (number m inode)) 0 inode_size }

-- The result is 0 for a file that was there and 1 for none.
unfoldable pub file_remove : Fs → ℕ → Fs × ℕ
unfolding remove_inode
file_remove s filename = elim (find s filename) [
  | none ↦ (s, 1)
  | some inode ↦ (remove_inode s inode, 0)
]

-- The first entry from index `i` on with status 0; `left` entries are left.
free_descriptor : List FileOpen → ℕ → ℕ → Option ℕ
free_descriptor tab i zero = none
free_descriptor tab i (suc left) =
    let rest = free_descriptor tab (i + 1) left in
    if (get_or tab i unused).status == 0 then some i else rest

open_at : Fs → ℕ → Option ℕ → Fs × ℤ
open_at s inode none = (s, minus_one)
open_at s inode (some i) = (
  record s {
    file_descriptor_tab =
        set s.file_descriptor_tab i (record { inode = inode; status = 1; offset = 0 });
  },
  pos i,
)

unfoldable pub file_open : Fs → ℕ → Fs × ℤ
unfolding free_descriptor open_at
file_open s filename = elim (find s filename) [
  | none ↦ (s, minus_one)
  | some inode ↦ open_at s inode (free_descriptor s.file_descriptor_tab 0 file_descriptor_tab_size)
]

-- The address of `file_descriptor_tab[fd]`; `file_open_t` is packed.
abbrev pub entry_address : Fs → ℕ → ℕ
entry_address s fd = (s.tab_address + 9 * fd) % 2 ^ 32

-- The `file_open_t` that memory holds at an address.
abbrev pub load_entry : Memory → ℕ → FileOpen
load_entry m a = record { inode = load32 m a; status = m (a + 4); offset = load32 m (a + 5) }

-- The descriptor `fd`. The code does not check the index: behind the table it reads memory.
abbrev pub descriptor : Fs → ℕ → FileOpen
descriptor s fd =
    if ltb fd file_descriptor_tab_size
    then get_or s.file_descriptor_tab fd unused
    else load_entry s.memory (entry_address s fd)

-- `file_descriptor_tab[fd].offset = offset`
set_offset : Fs → ℕ → ℕ → Fs
set_offset s fd offset =
    if ltb fd file_descriptor_tab_size
    then record s {
      file_descriptor_tab =
          set s.file_descriptor_tab fd
            (record (get_or s.file_descriptor_tab fd unused) { offset = offset });
    }
    else record s { memory = store32 s.memory (entry_address s fd + 5) offset }

unfoldable pub file_seek : Fs → ℕ → ℕ → Fs × ℤ
unfolding set_offset
file_seek s fd offset =
    if (descriptor s fd).status == 1 then (set_offset s fd offset, pos offset) else (s, minus_one)

unfoldable pub file_close : Fs → ℕ → Fs
file_close s fd =
    if ltb fd file_descriptor_tab_size
    then record s {
      file_descriptor_tab =
          set s.file_descriptor_tab fd
            (record (get_or s.file_descriptor_tab fd unused) { status = 0 });
    }
    else record s { memory = store s.memory (entry_address s fd + 4) 0 }

-- A descriptor of the table.
pub descriptor-table :
    (s : Fs) (fd : ℕ) → fd < 50 → descriptor s fd ≡ get_or s.file_descriptor_tab fd unused
descriptor-table s fd h = ground arith

-- `file_iterator_t`: the address of the current inode.
abbrev pub FileIterator : Type 0
FileIterator = ℕ

unfoldable pub file_iterator : Fs → FileIterator
file_iterator s = inode_get s.inode_table 0

unfoldable pub file_has_next : Fs → FileIterator → Bool
file_has_next s it = is_some (inode_get_next s.memory s.inode_table (number s.memory it))

-- The new iterator, and the memory with the next file's name in the buffer.
unfoldable pub file_next : Fs → ℕ → FileIterator → Fs × FileIterator
file_next s filename it = elim (inode_get_next s.memory s.inode_table (number s.memory it)) [
  | none ↦ (s, it)
  | some next ↦
      (record s { memory = memcpy s.memory filename (name next) inode_filename_length }, next)
]

-- `stat_t`
pub record Stat : Type 0 where
  pub size : ℕ
  pub inode : ℕ

-- `none` is the result 0, which leaves `*stat` as it was; otherwise the result is 1.
unfoldable pub file_stat : Fs → ℕ → Option Stat
file_stat s filename = elim (find s filename) [
  | none ↦ none
  | some inode ↦ some (record { size = file_size s.memory inode; inode = inode })
]

-- `uint_t` arithmetic; `sizeof(int*)` is 4.
unfoldable pub get_block_from_offset : Fs → ℕ → ℤ
get_block_from_offset s fd =
    let size = block_size s.memory s.superblock in
    let offset = (descriptor s fd).offset in
    if ltb (offset / size) inode_direct_ptr_cnt
    then pos (offset / sector_size)
    else if ltb inode_direct_ptr_cnt (offset / size)
        && ltb (offset / size) (inode_indirect_ptr_cnt * size % 2 ^ 32 / 4)
    then pos (offset / sector_size)
    else minus_one
