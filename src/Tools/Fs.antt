-- ===== src/Tools/Fs.antt =====
-- tools/fs.c: finding and reading a file of an image. `none` is a failed assertion. Buffers that are
-- locals of a function, and what they hold at first, are in memory at addresses that are arguments.
pub mod Offset
pub mod Content
pub mod Read
pub mod Tests
use rathal_os.Prelude.{
  ℕ, zero, suc, ◌+◌, ◌-◌, ◌*◌, ◌/◌, ◌%◌, ◌^◌, Option, none, some, ◌>>=◌, ℤ, pos, negsuc, minus_one,
  if◌then◌else◌, ltb, ◌==◌,
}
use rathal_os.Memory.{Memory, load16}
use rathal_os.Common.Func.{memcpy}
use rathal_os.Common.Inode.{
  InodeTable, inode_direct_ptr_cnt, inode_indirect_ptr_cnt, direct_ptr, indirect_ptr, first_inode,
  matches_name,
}
use rathal_os.Tools.Image.{File, min}
use rathal_os.Tools.Blocks.{block_read}

unfoldable pub fs_get_file_inode : Memory → InodeTable → ℕ → Option ℕ
unfolding first_inode matches_name
fs_get_file_inode m itab filename = first_inode (matches_name m filename) itab 0 itab.inode_count

-- `sb->datablocks_start+block` for an `int`, in unsigned arithmetic.
abbrev pub data_block : ℕ → ℤ → ℕ
data_block datablocks_start (pos block) = (datablocks_start + block) % 2 ^ 32
data_block datablocks_start (negsuc e) = (datablocks_start + 2 ^ 32 - (e + 1)) % 2 ^ 32

-- `bs/sizeof(inode->direct_ptr[0])`
abbrev pub pointers_per_block : ℕ → ℕ
pointers_per_block bs = bs / 2

-- The pointer for an offset behind the direct blocks, counted from there; `local` is the buffer. `none`
-- also stands for the division by the bytes of an indirect block when these are 0 on 32 bits.
unfoldable pub indirect_to_block : ℕ → ℕ → ℕ → ℕ → File → Memory → ℕ → Option ℤ
unfolding block_read
indirect_to_block bs datablocks_start local offset f m inode =
    let span = pointers_per_block bs * bs % 2 ^ 32 in
    let indirect_block_idx = offset / span in
    let indirect_block = indirect_ptr m inode indirect_block_idx in
    let rest = block_read bs (data_block datablocks_start (pos indirect_block)) local f m >>= λ buf.
    some (pos (load16 buf (local + 2 * ((offset - indirect_block_idx * span) / bs)))) in
    if span == 0 then none else rest

-- The products are of 32 bits.
unfoldable pub fs_offset_to_block : ℕ → ℕ → ℕ → ℕ → File → Memory → ℕ → Option ℤ
unfolding indirect_to_block
fs_offset_to_block bs datablocks_start local offset f m inode =
    let direct = inode_direct_ptr_cnt * bs % 2 ^ 32 in
    let end =
      (inode_direct_ptr_cnt * bs + inode_indirect_ptr_cnt * pointers_per_block bs * bs) % 2 ^ 32 in
    if ltb offset direct
    then some (pos (direct_ptr m inode (offset / bs)))
    else if ltb end offset
    then some minus_one
    else indirect_to_block bs datablocks_start local (offset - direct) f m inode

-- The part of a round of the loop behind the search for the block: `n` bytes are copied from the block,
-- read to `buf`.
unfoldable pub copy_part : ℕ → ℕ → ℕ → ℕ → ℕ → ℕ → ℕ → File → Memory → Option Memory
unfolding block_read
copy_part bs block buf offset n dest dest_offset f m = block_read bs block buf f m >>= λ m'.
    some (memcpy m' (dest + dest_offset) (buf + offset % bs) n)

-- The number of bytes of a round.
abbrev pub part : ℕ → ℕ → ℕ → ℕ
part bs offset bytes_left = min (bs - offset % bs) bytes_left

-- The loop of `fs_read`, on fuel: `none` also if that runs out.
unfoldable pub fs_read_loop : ℕ → ℕ → ℕ → ℕ → ℕ → ℕ → ℕ → ℕ → File → ℕ → ℕ → Memory → Option Memory
unfolding fs_offset_to_block copy_part
fs_read_loop zero bs datablocks_start local buf dest offset bytes_left f inode dest_offset m =
    if bytes_left == 0 then some m else none
fs_read_loop (suc fuel) bs datablocks_start local buf dest offset bytes_left f inode dest_offset m =
    let n = part bs offset bytes_left in
    let rest = fs_offset_to_block bs datablocks_start local offset f m inode >>= λ block.
    copy_part bs (data_block datablocks_start block) buf offset n dest dest_offset f m >>= λ m'.
    fs_read_loop fuel bs datablocks_start local buf dest ((offset + n) % 2 ^ 32) (bytes_left - n) f
      inode (dest_offset + n) m' in
    if bytes_left == 0 then some m else rest

-- `fs_read` from the inode on. `bytes_left` is an `int`: a count from 2 ^ 31 on reads nothing.
unfoldable pub fs_read_inode : ℕ → ℕ → ℕ → ℕ → ℕ → ℕ → ℕ → File → ℕ → Memory → Option Memory
unfolding fs_read_loop
fs_read_inode bs datablocks_start local buf dest offset count f inode m =
    if ltb count (2 ^ 31)
    then fs_read_loop count bs datablocks_start local buf dest offset count f inode 0 m
    else some m
