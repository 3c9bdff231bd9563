-- ===== src/Tools/Show.antt =====
-- tools/fs_list.c and tools/fs_cat.c: what they print, as data. `none` means a failed assertion or an exit.
pub mod Tests
use rathal_os.Prelude.{
  ℕ, zero, suc, ◌+◌, ◌*◌, ◌^◌, List, [], ◌∷◌, Option, none, some, ◌>>=◌, if◌then◌else◌, ltb, Bool,
  true, false,
}
use rathal_os.Memory.{Memory}
use rathal_os.Common.Inode.{InodeTable, inode_get, number, name, file_size}
use rathal_os.Tools.Image.{File}
use rathal_os.Tools.Superblock.Bytes.{superblock_read}
use rathal_os.Tools.Tables.{inode_table_read}
use rathal_os.Tools.Fs.{fs_get_file_inode}
use rathal_os.Tools.Open.{Heap, fs_read}

-- What `list_files` prints of a file; the name is the string at an address.
pub record Line : Type 0 where
  pub name : ℕ
  pub number : ℕ
  pub size : ℕ

-- The loop over the table from index `i` on, with `left` rounds to go.
unfoldable pub list_from : Memory → InodeTable → ℕ → ℕ → List Line
list_from m itab i zero = []
list_from m itab i (suc left) =
    let rest = list_from m itab (i + 1) left in
    let inode = inode_get itab i in
    if ltb 0 (number m inode)
    then record { name = name inode; number = number m inode; size = file_size m inode } ∷ rest
    else rest

-- The lines, and the memory with their names.
unfoldable pub list_files : Heap → File → Memory → Option (List Line × Memory)
unfolding superblock_read inode_table_read list_from
list_files at f m = superblock_read at.sb f m >>= λ sb.
    inode_table_read at.inodes sb.inode_count sb.inode_start sb.block_size f m >>= λ (itab, m').
    some (list_from m' itab 0 itab.inode_count, m')

-- Whether the file was there, how many bytes are printed, and the memory with them at `buf`. `fs_read` has
-- a heap of its own.
unfoldable pub cat_file : Heap → Heap → ℕ → ℕ → File → Memory → Option (Bool × ℕ × Memory)
unfolding superblock_read inode_table_read fs_get_file_inode fs_read
cat_file at at_read buf filename f m = superblock_read at.sb f m >>= λ sb.
    inode_table_read at.inodes sb.inode_count sb.inode_start sb.block_size f m >>= λ (itab, m1).
    elim (fs_get_file_inode m1 itab filename) [
      | none ↦ some (false, 0, m1)
      | some inode ↦ fs_read at_read filename 0 (file_size m1 inode) buf f m1 >>= λ (found, m2).
          some (found, if found then file_size m1 inode else 0, m2)
    ]
