-- ===== src/Tools/Superblock.antt =====
-- tools/superblock.c: the numbers of a new superblock; Tools.Superblock.Bytes has the block as bytes.
pub mod Layout
pub mod Bytes
pub mod Words
pub mod Read
pub mod Accepts
pub mod Tests
use rathal_os.Prelude.{
  ℕ, zero, suc, ◌+◌, ◌-◌, ◌*◌, ◌/◌, ◌%◌, ◌^◌, Option, none, some, if◌then◌else◌, ltb, ◌==◌, ◌||◌,
}
use rathal_os.Common.Inode.{inode_size}

-- `superblock_t` less its signature, version and label.
pub record Superblock : Type 0 where
  pub block_size : ℕ
  pub inode_bitmap_start : ℕ
  pub inode_bitmap_block_count : ℕ
  pub datablock_bitmap_start : ℕ
  pub datablock_bitmap_block_count : ℕ
  pub inode_start : ℕ
  pub inode_count : ℕ
  pub inode_block_count : ℕ
  pub datablocks_start : ℕ
  pub datablock_count : ℕ

-- `ROUND_UP(size, block_size)`. The tools are compiled for 32 bits, where `(long)(size)-1` is divided
-- as an unsigned number: for size 0 that is 2 ^ 32 - 1.
abbrev pub round_up : ℕ → ℕ → ℕ
round_up size block_size = (1 + (size + 2 ^ 32 - 1) % 2 ^ 32 / block_size) % 2 ^ 32

-- `(long)count/8`, a division of signed numbers, as its bit pattern.
abbrev pub eighth : ℕ → ℕ
eighth count = if ltb count (2 ^ 31) then count / 8 else (2 ^ 32 - (2 ^ 32 - count) / 8) % 2 ^ 32

-- `none` is a failed assertion, or the division by `inodes_per_block` when that is 0.
unfoldable pub superblock_create : ℕ → ℕ → ℕ → Option Superblock
superblock_create block_size inode_count block_count =
    if block_size == 0 || (block_count == 0 || inode_count == 0)
    then none
    else if block_size / inode_size == 0
    then none
    else let inode_bitmap_block_count = round_up (eighth inode_count) block_size in
      let datablock_bitmap_start = (1 + inode_bitmap_block_count) % 2 ^ 32 in
      let datablock_bitmap_block_count = round_up (eighth block_count) block_size in
      let inode_start = (datablock_bitmap_start + datablock_bitmap_block_count) % 2 ^ 32 in
      let inodes_block_count = round_up inode_count (block_size / inode_size) in
      some (record {
        block_size = block_size;
        inode_bitmap_start = 1;
        inode_bitmap_block_count = inode_bitmap_block_count;
        datablock_bitmap_start = datablock_bitmap_start;
        datablock_bitmap_block_count = datablock_bitmap_block_count;
        inode_start = inode_start;
        inode_count = inode_count;
        inode_block_count = round_up (inode_count * inode_size % 2 ^ 32) block_size;
        datablocks_start = (inode_start + inodes_block_count) % 2 ^ 32;
        datablock_count = block_count;
      })
