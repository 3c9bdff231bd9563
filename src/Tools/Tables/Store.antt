-- ===== src/Tools/Tables/Store.antt =====
-- What is written to an image is read back.
use native.Mathlib.Nat.{mul_comm}
use rathal_os.Prelude.{
  ℕ, ◌+◌, ◌-◌, ◌*◌, ◌/◌, ◌%◌, ◌^◌, ◌<◌, ◌≡◌, ◌≢◌, refl, arith, some, if◌then◌else◌, leb, ltb, ◌&&◌,
  ◌==◌, ◌||◌, ap, ◌∙◌, sym, true, false,
}
use rathal_os.Memory.{Memory}
use rathal_os.Common.Func.{memset}
use rathal_os.Common.Bitmap.{Bitmap, bitmap_get}
use rathal_os.Common.Bitmap.Bits.{bit}
use rathal_os.Common.Inode.{InodeTable}
use rathal_os.Tools.Image.{File, fseek, fread}
use rathal_os.Tools.Image.Access.{fread-at}
use rathal_os.Tools.Blocks.{block_offset, padding_length}
use rathal_os.Tools.Blocks.Padding.{Written, blocks_write-Written}
use rathal_os.Tools.Tables.{
  is_block_size, bitmap_create, bitmap_read, bitmap_write, inode_table_create, inode_table_read,
  inode_table_write,
}

-- Data of any length, read back at its place.
pub read_written :
    (block_size first_block : ℕ) (m : Memory) (p data_len : ℕ) (f f' : File) (q i : ℕ) (m2 : Memory)
    → Written block_size first_block m p data_len f f'
    → i < data_len
    → fread (fseek (block_offset block_size first_block) f') q data_len m2 (q + i) ≡ m (p + i)
read_written block_size first_block m p data_len f f' q i m2 w lt =
    let start = block_offset block_size first_block in
    fread-at f' start q data_len (q + i) m2 (omega (arith, w.size))
    ∙ inside q (f'.content (start + (q + i - q))) (m2 (q + i))
    ∙ w.content (start + (q + i - q))
    ∙ ap
        (λ (j : ℕ).
          if leb start j && ltb j (start + data_len)
          then m (p + (j - start))
          else if leb start j && ltb j (start + data_len + padding_length block_size data_len)
          then 0
          else f.content j)
        {x = start + (q + i - q)} {y = start + i} (omega arith)
    ∙ inside start (m (p + (start + i - start))) _
    ∙ ap m {x = p + (start + i - start)} {y = p + i} (omega arith)
  where
    inside : (q x y : ℕ) → (if leb q (q + i) && ltb (q + i) (q + data_len) then x else y) ≡ x
    inside q x y = ground arith

offset_comm : (a b : ℕ) → block_offset a b ≡ block_offset b a
offset_comm a b = ap (λ (k : ℕ). k % 2 ^ 32) (mul_comm a b)

bit-moved :
    (m m' : Memory) (b b' : Bitmap) (i : ℕ)
    → m' (b'.bits + i / 8) ≡ m (b.bits + i / 8)
    → bit m' b' i ≡ bit m b i
unfolding bitmap_get
bit-moved m m' b b' i e = rw e refl

-- A bitmap with the bytes that its count needs, written to an image and read again with the same count at
-- any address, has the same bits. The block size is one that the tools accept.
pub bitmap_read-bitmap_write :
    (b : Bitmap) (start_block bs p i : ℕ) (m m2 : Memory) (f : File)
    → is_block_size bs ≡ true
    → b.count ≢ 0
    → b.size ≡ 1 + (b.count - 1) / 8
    → i < b.count
    → (f' : File) × (r : Bitmap × Memory) × (bitmap_write b start_block bs m f ≡ some f')
      × (bitmap_read p start_block b.count bs f' m2 ≡ some r)
      × (r.0.bits ≡ p)
      × (bit r.1 r.0 i ≡ bit m b i)
unfolding bitmap_write bitmap_read bitmap_create
bitmap_read-bitmap_write b start_block bs p i m m2 f ok some_bits bytes lt =
    let positive : bs ≢ 0 = λ e. ground arith in
    let w = blocks_write-Written bs start_block m b.bits b.size f positive (λ e. omega arith) in
    let test : (b.count == 0) ≡ false = ground arith in
    let size = 1 + (b.count - 1) / 8 in
    let m3 = fread (fseek (block_offset start_block bs) w.0) p size (memset m2 p 0 size) in
    let b' : Bitmap = record { count = b.count; size = size; bits = p } in
    (
      w.0,
      (b', m3),
      rw (bitmap_write, ok) w.1,
      rw (bitmap_read, ok, bitmap_create, test) refl,
      refl,
      bit-moved m m3 b b' i (
          ap (λ (o : ℕ). fread (fseek o w.0) p size (memset m2 p 0 size) (p + i / 8))
            (offset_comm start_block bs)
          ∙ ap
              (λ (n : ℕ).
                fread (fseek (block_offset bs start_block) w.0) p n (memset m2 p 0 size)
                  (p + i / 8))
              (sym bytes)
          ∙ read_written bs start_block m b.bits b.size f w.0 p (i / 8) (memset m2 p 0 size) w.2
              (omega arith)),
    )

abbrev table : ℕ → ℕ → ℕ → InodeTable
table inode_count p size = record { inode_count = inode_count; size = size; inodes = p }

-- An inode table of 64 bytes for each inode, written to an image and read again with the same count at any
-- address, has the same bytes. Block size, start and count are not 0, and the table is below 4 GB.
pub inode_table_read-inode_table_write :
    (itab : InodeTable) (start bs p i : ℕ) (m m2 : Memory) (f : File)
    → bs ≢ 0
    → start ≢ 0
    → itab.inode_count ≢ 0
    → itab.size ≡ itab.inode_count * 64
    → itab.size < 2 ^ 32
    → i < itab.size
    → (f' : File) × (r : InodeTable × Memory) × (inode_table_write itab start bs m f ≡ some f')
      × (inode_table_read p itab.inode_count start bs f' m2 ≡ some r)
      × (r.0 ≡ record itab { inodes = p })
      × (r.1 (p + i) ≡ m (itab.inodes + i))
unfolding inode_table_write inode_table_read inode_table_create
inode_table_read-inode_table_write itab start bs p i m m2 f hb hs hc bytes small lt =
    let w = blocks_write-Written bs start m itab.inodes itab.size f hb (λ e. omega arith) in
    let test : (start == 0 || bs == 0) ≡ false = ground arith in
    let test2 : (itab.inode_count == 0) ≡ false = ground arith in
    let sz = itab.inode_count * 64 % 2 ^ 32 in
    let same : sz ≡ itab.size = omega arith in
    (
      w.0,
      (
        record { inode_count = itab.inode_count; size = sz; inodes = p },
        fread (fseek (block_offset start bs) w.0) p (itab.inode_count * 64) (memset m2 p 0 sz),
      ),
      w.1,
      rw (inode_table_read, test, inode_table_create, test2) refl,
      ap (table itab.inode_count p) same,
      ap (λ (o : ℕ). fread (fseek o w.0) p (itab.inode_count * 64) (memset m2 p 0 sz) (p + i))
            (offset_comm start bs)
          ∙ ap (λ (n : ℕ). fread (fseek (block_offset bs start) w.0) p n (memset m2 p 0 sz) (p + i))
              (sym bytes)
          ∙ read_written bs start m itab.inodes itab.size f w.0 p i (memset m2 p 0 sz) w.2 lt,
    )
