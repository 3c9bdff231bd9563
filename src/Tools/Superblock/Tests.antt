-- ===== src/Tools/Superblock/Tests.antt =====
-- An image with 4100 inodes and 100 data blocks.
use rathal_os.Prelude.{◌≡◌, ◌↔◌, refl, arith, none, some}
use rathal_os.Memory.{zeros}
use rathal_os.Tools.Image.{File}
use rathal_os.Tools.Superblock.Bytes.{
  superblock_bytes, superblock_read, superblock_write, load_superblock,
}
use rathal_os.Tools.Superblock.Read.{superblock_read-superblock_write}
use rathal_os.Tools.Superblock.Accepts.{IsAccepted, superblock_read_lem}
use rathal_os.Tools.Superblock.{Superblock, superblock_create}
use rathal_os.Tools.Superblock.Layout.{IsLayout, superblock_create-IsLayout}

refuses_small_blocks : superblock_create 32 4100 100 ≡ none
unfolding superblock_create
refuses_small_blocks = refl

superblock_create-IsLayout_example :
    (sb : Superblock) × (superblock_create 512 4100 100 ≡ some sb) × IsLayout 4100 100 sb
superblock_create-IsLayout_example =
    superblock_create-IsLayout 4100 100 (omega arith) (omega arith) (omega arith) (omega arith)

abbrev pub sb : Superblock
sb = record {
  block_size = 1024;
  inode_bitmap_start = 1;
  inode_bitmap_block_count = 1;
  datablock_bitmap_start = 2;
  datablock_bitmap_block_count = 1;
  inode_start = 3;
  inode_count = 64;
  inode_block_count = 4;
  datablocks_start = 7;
  datablock_count = 100;
}

abbrev image : File
image = record { content = λ a. 0; size = 2048; position = 5 }

superblock_read-superblock_write_example :
    (f' : File) × (superblock_write 100 1024 (superblock_bytes 100 50 sb zeros) image ≡ some f')
    × (superblock_read 700 f' zeros ≡ some sb)
superblock_read-superblock_write_example =
    superblock_read-superblock_write 100 50 700 sb zeros zeros image
      (
        omega arith,
        (
          omega arith,
          (
            omega arith,
            (
              omega arith,
              (
                omega arith,
                (omega arith, (omega arith, (omega arith, (omega arith, (omega arith, _))))),
              ),
            ),
          ),
        ),
      )
      refl

superblock_read_lem_example :
    ((superblock_read 700 image zeros ≡ some (load_superblock image.content 0))
      ↔ IsAccepted image.content)
    × ((superblock_read 700 image zeros ≡ none) ↔ (¬ IsAccepted image.content))
superblock_read_lem_example = superblock_read_lem 700 image zeros (omega arith)
