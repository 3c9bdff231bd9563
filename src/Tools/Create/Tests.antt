-- ===== src/Tools/Create/Tests.antt =====
-- An image with 64 inodes and 100 data blocks of 1024 bytes.
use rathal_os.Prelude.{◌≡◌, refl, arith, [], ◌∷◌, none, some, pos, negsuc}
use rathal_os.Memory.{zeros, place}
use rathal_os.Tools.Image.{File}
use rathal_os.Tools.Superblock.Bytes.{superblock_read}
use rathal_os.Tools.Superblock.Tests.{sb}
use rathal_os.Tools.Open.{Heap}
use rathal_os.Tools.Create.{create_image, fs_create}
use rathal_os.Tools.Create.Kept.{IsSized, superblock_read-create_image}

abbrev heap : Heap
heap = record {
  sb = 10000;
  inode_bits = 20000;
  datablock_bits = 30000;
  inodes = 40000;
  contents = 50000;
  indirect = 60000;
}

-- A negative count, a block size that is not a multiple of 512, and an empty label.
refuses :
    (fs_create heap 100 (pos 512) (negsuc 0) (pos 9) (place 100 (b'a' ∷ []) zeros) ≡ none)
    × (fs_create heap 100 (pos 700) (pos 9) (pos 9) (place 100 (b'a' ∷ []) zeros) ≡ none)
    × (fs_create heap 100 (pos 512) (pos 9) (pos 9) zeros ≡ none)
unfolding fs_create
refuses = (refl, refl, refl)

sb-IsSized : IsSized sb
sb-IsSized = record {
  accepted = refl;
  words = (
    omega arith,
    (
      omega arith,
      (
        omega arith,
        (
          omega arith,
          (
            omega arith,
            (omega arith, (omega arith, (omega arith, (omega arith, (omega arith, _))))),
          ),
        ),
      ),
    ),
  );
  inode_bitmap = (omega arith, omega arith);
  datablock_bitmap = (omega arith, omega arith);
  inodes = (omega arith, omega arith);
  datablocks = omega arith;
  small = omega arith;
  some_inodes = (omega arith, omega arith);
  some_blocks = omega arith;
}

superblock_read-create_image_example :
    (f' : File) × (create_image heap 100 sb zeros ≡ some f')
    × (superblock_read 70000 f' zeros ≡ some sb)
superblock_read-create_image_example =
    superblock_read-create_image heap 100 70000 sb zeros zeros sb-IsSized
