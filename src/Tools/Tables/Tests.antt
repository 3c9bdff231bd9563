-- ===== src/Tools/Tables/Tests.antt =====
-- A bitmap of ten bits and a table of two inodes, in an image of blocks of 512 bytes.
use rathal_os.Prelude.{◌+◌, ◌≡◌, refl, arith, [], ◌∷◌, none, some}
use rathal_os.Memory.{Memory, place, zeros}
use rathal_os.Common.Bitmap.{Bitmap}
use rathal_os.Common.Bitmap.Bits.{bit}
use rathal_os.Common.Inode.{InodeTable}
use rathal_os.Tools.Image.{File}
use rathal_os.Tools.Tables.{
  bitmap_create, bitmap_read, bitmap_write, inode_table_read, inode_table_write,
}
use rathal_os.Tools.Tables.Store.{bitmap_read-bitmap_write, inode_table_read-inode_table_write}

abbrev image : File
image = record { content = λ a. 9; size = 2048; position = 0 }

abbrev ram : Memory
ram = place 100 (5 ∷ 2 ∷ []) zeros

abbrev bitmap : Bitmap
bitmap = record { count = 10; size = 2; bits = 100 }

abbrev table : InodeTable
table = record { inode_count = 2; size = 128; inodes = 100 }

refuses_no_bits : bitmap_create 0 0 ram ≡ none
unfolding bitmap_create
refuses_no_bits = refl

bitmap_read-bitmap_write_example :
    (f' : File) × (r : Bitmap × Memory) × (bitmap_write bitmap 1 512 ram image ≡ some f')
    × (bitmap_read 700 1 10 512 f' ram ≡ some r)
    × (r.0.bits ≡ 700)
    × (bit r.1 r.0 9 ≡ bit ram bitmap 9)
bitmap_read-bitmap_write_example =
    bitmap_read-bitmap_write bitmap 1 512 700 9 ram ram image refl (λ e. omega arith) refl
      (omega arith)

inode_table_read-inode_table_write_example :
    (f' : File) × (r : InodeTable × Memory) × (inode_table_write table 3 512 ram image ≡ some f')
    × (inode_table_read 700 2 3 512 f' ram ≡ some r)
    × (r.0 ≡ record table { inodes = 700 })
    × (r.1 (700 + 1) ≡ ram (100 + 1))
inode_table_read-inode_table_write_example =
    inode_table_read-inode_table_write table 3 512 700 1 ram ram image (λ e. omega arith)
      (λ e. omega arith) (λ e. omega arith) refl (omega arith) (omega arith)
