-- ===== src/Tools/Superblock/Layout.antt =====
-- The regions of an image with blocks of 512 bytes.
use rathal_os.Prelude.{
  ℕ, ◌+◌, ◌-◌, ◌*◌, ◌%◌, ◌^◌, ◌<◌, ◌≤◌, ◌≡◌, ◌≢◌, refl, ◌↔◌, arith, some, ◌==◌, ◌||◌, false,
}
use rathal_os.Tools.Superblock.{Superblock, round_up, eighth, superblock_create}

-- How a bitmap of whole blocks of 512 bytes is measured.
bitmap_blocks : ℕ → ℕ
bitmap_blocks count = round_up (eighth count) 512

bitmap_room :
    (count : ℕ)
    → 0 < count
    → count < 2 ^ 28
    → (0 < bitmap_blocks count)
      × (bitmap_blocks count < 2 ^ 24)
      × ((bitmap_blocks count * 4096 < count)
          ↔ ((count % 8 ≢ 0) × (8 ≤ count) × (count % 4096 < 8)))
      × ((bitmap_blocks count ≡ 8388608) ↔ (count < 8))
unfolding bitmap_blocks
bitmap_room count pos small = ground arith

-- The inode table and the data blocks of an image with `n` inodes and `d` data blocks.
pub record IsLayout (n d : ℕ) (sb : Superblock) : Type 0 where
  pub in_order :
      (0 < sb.inode_bitmap_start)
      × (sb.inode_bitmap_start < sb.datablock_bitmap_start)
      × (sb.datablock_bitmap_start < sb.inode_start)
      × (sb.inode_start < sb.datablocks_start)
  pub table_blocks : sb.inode_start + sb.inode_block_count ≡ sb.datablocks_start
  pub table_room : 64 * n ≤ 512 * sb.inode_block_count
  pub inode_bits_missing :
      ((sb.datablock_bitmap_start - sb.inode_bitmap_start) * 4096 < n)
      ↔ ((n % 8 ≢ 0) × (8 ≤ n) × (n % 4096 < 8))
  pub datablock_bits_missing :
      ((sb.inode_start - sb.datablock_bitmap_start) * 4096 < d)
      ↔ ((d % 8 ≢ 0) × (8 ≤ d) × (d % 4096 < 8))
  pub huge_inode_bitmap : (sb.datablock_bitmap_start - sb.inode_bitmap_start ≡ 8388608) ↔ (n < 8)
  pub huge_datablock_bitmap : (sb.inode_start - sb.datablock_bitmap_start ≡ 8388608) ↔ (d < 8)

-- With blocks of 512 bytes, fewer than 2 ^ 26 inodes and fewer than 2 ^ 28 data blocks, and at least one
-- of each, `superblock_create` returns a superblock. Behind the superblock stand the inode bitmap, the bitmap of the data blocks, the inode table and the
-- data blocks, in this order and disjoint; the table has the blocks that the superblock says and room
-- for all inodes. A bitmap has too few bits exactly if its count is 1 to 7 above a positive multiple of
-- 4096; it takes 8388608 blocks exactly if its count is below 8.
pub superblock_create-IsLayout :
    (n d : ℕ)
    → 0 < n
    → 0 < d
    → n < 2 ^ 26
    → d < 2 ^ 28
    → (sb : Superblock) × (superblock_create 512 n d ≡ some sb) × IsLayout n d sb
unfolding superblock_create bitmap_blocks
superblock_create-IsLayout n d hn hd sn sd =
    let test : (d == 0 || n == 0) ≡ false = ground arith in
    let inodes = bitmap_room n hn (omega arith) in
    let blocks = bitmap_room d hd sd in
    let table : round_up n 8 ≡ round_up (n * 64 % 2 ^ 32) 512 = ground arith in
    let room : 64 * n ≤ 512 * round_up (n * 64 % 2 ^ 32) 512 = ground arith in
    let positive : 0 < round_up (n * 64 % 2 ^ 32) 512 = ground arith in
    let bounded : round_up (n * 64 % 2 ^ 32) 512 < 2 ^ 26 = ground arith in
    (
      _,
      rw (superblock_create, test) refl,
      built (bitmap_blocks n) (bitmap_blocks d) (round_up n 8) (round_up (n * 64 % 2 ^ 32) 512)
          inodes blocks table room positive bounded,
    )
  where
    built :
        (ib db ob tb : ℕ)
        → ((0 < ib)
            × (ib < 2 ^ 24)
            × ((ib * 4096 < n) ↔ ((n % 8 ≢ 0) × (8 ≤ n) × (n % 4096 < 8)))
            × ((ib ≡ 8388608) ↔ (n < 8)))
        → ((0 < db)
            × (db < 2 ^ 24)
            × ((db * 4096 < d) ↔ ((d % 8 ≢ 0) × (8 ≤ d) × (d % 4096 < 8)))
            × ((db ≡ 8388608) ↔ (d < 8)))
        → ob ≡ tb
        → 64 * n ≤ 512 * tb
        → 0 < tb
        → tb < 2 ^ 26
        → IsLayout n d (record {
          block_size = 512;
          inode_bitmap_start = 1;
          inode_bitmap_block_count = ib;
          datablock_bitmap_start = (1 + ib) % 2 ^ 32;
          datablock_bitmap_block_count = db;
          inode_start = ((1 + ib) % 2 ^ 32 + db) % 2 ^ 32;
          inode_count = n;
          inode_block_count = tb;
          datablocks_start = (((1 + ib) % 2 ^ 32 + db) % 2 ^ 32 + ob) % 2 ^ 32;
          datablock_count = d;
        })
    built ib db ob tb inodes blocks table room positive bounded =
        let first : (1 + ib) % 2 ^ 32 - 1 ≡ ib = omega (arith, inodes.1) in
        let second : ((1 + ib) % 2 ^ 32 + db) % 2 ^ 32 - (1 + ib) % 2 ^ 32 ≡ db =
          omega (arith, inodes.1, blocks.1) in
        record {
          in_order = (
            omega arith,
            omega (arith, inodes.0, inodes.1),
            omega (arith, inodes.1, blocks.0, blocks.1),
            omega (arith, inodes.1, blocks.1),
          );
          table_blocks = omega (arith, inodes.1, blocks.1);
          table_room = room;
          inode_bits_missing = rw first inodes.2;
          datablock_bits_missing = rw second blocks.2;
          huge_inode_bitmap = rw first inodes.3;
          huge_datablock_bitmap = rw second blocks.3;
        }
