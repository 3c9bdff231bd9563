-- ===== src/Tools/Create/Kept.antt =====
-- The superblock of a new image.
use rathal_os.Prelude.{
  ℕ, zero, suc, ◌+◌, ◌-◌, ◌*◌, ◌/◌, ◌%◌, ◌^◌, ◌<◌, ◌≤◌, ◌≡◌, ◌≢◌, refl, arith, Option, none, some,
  ◌>>=◌, if◌then◌else◌, leb, ltb, ◌&&◌, ◌==◌, not, Bool, pos, ap, ◌∙◌, sym, true, false,
}
use rathal_os.Memory.{Memory}
use rathal_os.Common.Func.{memset}
use rathal_os.Common.Bitmap.{Bitmap, bitmap_set}
use rathal_os.Common.Inode.{InodeTable, inode_size}
use rathal_os.Tools.Image.{File}
use rathal_os.Tools.Blocks.{block_offset, padding_length, blocks_write}
use rathal_os.Tools.Blocks.Padding.{blocks_write-Written}
use rathal_os.Tools.Fs.{data_block}
use rathal_os.Tools.Tables.{
  is_block_size, bitmap_create, bitmap_write, inode_table_create, inode_table_write,
}
use rathal_os.Tools.Superblock.{Superblock}
use rathal_os.Tools.Superblock.Bytes.{fields, superblock_bytes, superblock_read, superblock_write}
use rathal_os.Tools.Superblock.Words.{AllWords}
use rathal_os.Tools.Superblock.Read.{superblock_read-superblock_write}
use rathal_os.Tools.Superblock.Accepts.{superblock_read-same}
use rathal_os.Tools.Open.{Heap}
use rathal_os.Tools.Add.Address.{mul-step, mul-le, data_block-number}
use rathal_os.Tools.Create.{
  new_file, create_bitmap, write_empty, create_blocks, create_bitmaps, create_image,
}

-- The first 78 bytes, those of the superblock, stay, and the image does not shrink.
record IsKept (f f' : File) : Type 0 where
  pub bytes : (j : ℕ) → j < 78 → f'.content j ≡ f.content j
  pub size : f.size ≤ f'.size

IsKept-trans : (f g h : File) → IsKept f g → IsKept g h → IsKept f h
IsKept-trans f g h a b = record {
  bytes = λ j lt. b.bytes j lt ∙ a.bytes j lt;
  size = omega (arith, a.size, b.size);
}

-- A block behind the first whose offset does not wrap.
abbrev pub IsBehind : ℕ → ℕ → Type 0
IsBehind bs block = (1 ≤ block) × (bs * block < 2 ^ 32)

behind_offset : (bs block : ℕ) → 512 ≤ bs → IsBehind bs block → 78 ≤ block_offset bs block
behind_offset bs block large b = omega (arith, large, b.1, mul-le bs 1 block b.0)

block_size_large : (bs : ℕ) → is_block_size bs ≡ true → 512 ≤ bs
block_size_large bs ok = ground arith

blocks_write-IsKept :
    (bs block : ℕ) (m : Memory) (p n : ℕ) (f : File)
    → 512 ≤ bs
    → n ≢ 0
    → IsBehind bs block
    → (f' : File) × (blocks_write bs block m p n f ≡ some f') × IsKept f f'
blocks_write-IsKept bs block m p n f large some_data b =
    let w = blocks_write-Written bs block m p n f (λ e. omega (arith, e, large)) some_data in
    let start = behind_offset bs block large b in
    (
      w.0,
      w.1,
      record {
        bytes = λ j lt.
            w.2.content j
            ∙ before (block_offset bs block) n (n + padding_length bs n) j _ _ _ start lt;
        size = w.2.size.0;
      },
    )
  where
    before :
        (start n e j x y z : ℕ)
        → 78 ≤ start
        → j < 78
        → (if leb start j && ltb j (start + n)
            then x
            else if leb start j && ltb j (start + n + padding_length bs n)
            then y
            else z)
          ≡ z
    before start n e j x y z h lt = ground arith

create_bitmap-IsKept :
    (p count start bs : ℕ) (m : Memory) (fs : File)
    → is_block_size bs ≡ true
    → count ≢ 0
    → IsBehind bs start
    → (m' : Memory) × (fs' : File) × (create_bitmap p count start bs m fs ≡ some (m', fs'))
      × IsKept fs fs'
unfolding create_bitmap bitmap_create bitmap_write
create_bitmap-IsKept p count start bs m fs ok some_bits b =
    let bitmap : Bitmap = record { count = count; size = 1 + (count - 1) / 8; bits = p } in
    let m1 = memset m p 0 (1 + (count - 1) / 8) in
    let m2 = bitmap_set m1 bitmap 0 1 in
    let w =
      blocks_write-IsKept bs start m2 p (1 + (count - 1) / 8) fs (block_size_large bs ok)
        (λ e. omega (arith, e)) b in
    let test : (count == 0) ≡ false = ground (arith, some_bits) in
    (
      m2,
      w.0,
      ap
            (λ (t : Bool). (if t then none else some (bitmap, m1)) >>= λ (b, m1).
              bitmap_write b start bs (bitmap_set m1 b 0 1) fs >>= λ fs'.
              some (bitmap_set m1 b 0 1, fs'))
            test
          ∙ ap
              (λ (t : Bool).
                (if not t then none else blocks_write bs start m2 p (1 + (count - 1) / 8) fs)
                >>= λ fs'. some (m2, fs'))
              ok
          ∙ ap (λ (x : Option File). x >>= λ fs'. some (m2, fs')) w.1,
      w.2,
    )

write_empty-IsKept :
    (bs datablocks_start empty_block i left : ℕ) (m : Memory) (fs : File)
    → 512 ≤ bs
    → 1 ≤ datablocks_start
    → bs * (datablocks_start + (i + left)) ≤ 2 ^ 32
    → (fs' : File) × (write_empty bs datablocks_start empty_block i left m fs ≡ some fs')
      × IsKept fs fs'
unfolding write_empty
write_empty-IsKept bs datablocks_start empty_block i zero m fs large behind small =
    (fs, refl, record { bytes = λ j lt. refl; size = omega arith })
write_empty-IsKept bs datablocks_start empty_block i (suc left) m fs large behind small =
    let number =
      data_block-number bs datablocks_start (i + suc left) i (omega (arith, large)) small
        (omega arith) in
    let inside =
      mul-step bs (datablocks_start + i) (datablocks_start + (i + suc left)) (omega arith) in
    let at_number = ap (λ (x : ℕ). bs * x) number in
    let w =
      blocks_write-IsKept bs (data_block datablocks_start (pos i)) m empty_block bs fs large
        (λ e. omega (arith, e, large))
        (omega (arith, number, behind), omega (arith, at_number, inside, small, large)) in
    let rest = write_empty-IsKept bs datablocks_start empty_block (i + 1) left m w.0 large behind (
      omega (
        arith,
        small,
        ap (λ (x : ℕ). bs * (datablocks_start + x)) {x = i + 1 + left} {y = i + suc left}
            (omega arith),
      )) in
    (
      rest.0,
      ap
            (λ (x : Option File).
              x >>= λ fs'. write_empty bs datablocks_start empty_block (i + 1) left m fs')
            w.1
          ∙ rest.1,
      IsKept-trans fs w.0 rest.0 w.2 rest.2,
    )

-- A superblock of the block sizes that the tools accept, whose parts stand behind it on an image below
-- 4 GiB, with counts that are not 0.
pub record IsSized (sb : Superblock) : Type 0 where
  pub accepted : is_block_size sb.block_size ≡ true
  pub words : AllWords (fields sb)
  pub inode_bitmap : IsBehind sb.block_size sb.inode_bitmap_start
  pub datablock_bitmap : IsBehind sb.block_size sb.datablock_bitmap_start
  pub inodes : IsBehind sb.block_size sb.inode_start
  pub datablocks : 1 ≤ sb.datablocks_start
  pub small : sb.block_size * (sb.datablocks_start + sb.datablock_count) ≤ 2 ^ 32
  pub some_inodes : (0 < sb.inode_count) × (sb.inode_count < 2 ^ 26)
  pub some_blocks : 0 < sb.datablock_count

image_size : Option File → ℕ
image_size none = 0
image_size (some f) = f.size

superblock_written :
    (p bs : ℕ) (m : Memory) (f f' : File)
    → 512 ≤ bs
    → superblock_write p bs m f ≡ some f'
    → 78 ≤ f'.size
unfolding superblock_write image_size
superblock_written p bs m f f' large e =
    let w =
      blocks_write-Written bs 0 m p bs f (λ e. omega (arith, e, large))
        (λ e. omega (arith, e, large)) in
    let same : w.0.size ≡ f'.size = ap image_size (sym w.1 ∙ e) in
    omega (arith, same, w.2.size.1, large)

-- A new image with a superblock as above, which `fs_create` writes in full, is one that the tools read that
-- superblock from: none of the later writes changes it.
pub superblock_read-create_image :
    (at : Heap) (label q : ℕ) (sb : Superblock) (m m2 : Memory)
    → IsSized sb
    → (f' : File) × (create_image at label sb m ≡ some f') × (superblock_read q f' m2 ≡ some sb)
unfolding create_image create_bitmaps create_blocks inode_table_create inode_table_write
superblock_read-create_image at label q sb m m2 v =
    let large = block_size_large sb.block_size v.accepted in
    let m1 = superblock_bytes at.sb label sb m in
    let first =
      superblock_read-superblock_write at.sb label q sb m m2 new_file v.words v.accepted in
    let ib =
      create_bitmap-IsKept at.inode_bits sb.inode_count sb.inode_bitmap_start sb.block_size m1
        first.0 v.accepted (λ e. omega (arith, e, v.some_inodes.0)) v.inode_bitmap in
    let db =
      create_bitmap-IsKept at.datablock_bits sb.datablock_count sb.datablock_bitmap_start
        sb.block_size ib.0 ib.1 v.accepted (λ e. omega (arith, e, v.some_blocks))
        v.datablock_bitmap in
    let size = sb.inode_count * inode_size % 2 ^ 32 in
    let m4 = memset db.0 at.inodes 0 size in
    let table : InodeTable = record {
      inode_count = sb.inode_count;
      size = size;
      inodes = at.inodes;
    } in
    let tab =
      blocks_write-IsKept sb.block_size sb.inode_start m4 at.inodes size db.1 large
        (λ e. omega (arith, e, v.some_inodes.0, v.some_inodes.1)) v.inodes in
    let last =
      write_empty-IsKept sb.block_size sb.datablocks_start at.contents 0 sb.datablock_count
        (memset m4 at.contents 0 sb.block_size) tab.0 large v.datablocks
        (omega (
          arith,
          v.small,
          ap (λ (x : ℕ). sb.block_size * (sb.datablocks_start + x)) {x = 0 + sb.datablock_count}
              {y = sb.datablock_count} (omega arith),
        )) in
    let kept =
      IsKept-trans first.0 ib.1 last.0 ib.3
        (IsKept-trans ib.1 db.1 last.0 db.3 (IsKept-trans db.1 tab.0 last.0 tab.2 last.2)) in
    let some_table : (sb.inode_count == 0) ≡ false = ground (arith, v.some_inodes.0) in
    let written = superblock_written at.sb sb.block_size m1 new_file first.0 large first.1 in
    (
      last.0,
      ap (λ (x : Option File). x >>= λ fs. create_bitmaps at sb m1 fs) first.1
          ∙ ap
              (λ (x : Option (Memory × File)). x >>= λ (m', fs').
                create_bitmap at.datablock_bits sb.datablock_count sb.datablock_bitmap_start
                  sb.block_size m' fs'
                >>= λ (m'', fs''). create_blocks at sb m'' fs'')
              ib.2
          ∙ ap (λ (x : Option (Memory × File)). x >>= λ (m', fs'). create_blocks at sb m' fs') db.2
          ∙ ap
              (λ (t : Bool). (if t then none else some (table, m4)) >>= λ (itab, m').
                inode_table_write itab sb.inode_start sb.block_size m' db.1 >>= λ fs'.
                write_empty sb.block_size sb.datablocks_start at.contents 0 sb.datablock_count
                  (memset m' at.contents 0 sb.block_size) fs')
              some_table
          ∙ ap
              (λ (x : Option File). x >>= λ fs'.
                write_empty sb.block_size sb.datablocks_start at.contents 0 sb.datablock_count
                  (memset m4 at.contents 0 sb.block_size) fs')
              tab.1
          ∙ last.1,
      superblock_read-same q first.0 last.0 m2 written (omega (arith, kept.size, written))
            kept.bytes
          ∙ first.2,
    )
