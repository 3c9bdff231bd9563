-- ===== src/Tools/Superblock/Read.antt =====
-- The superblock as bytes, written to an image and read again.
use native.Mathlib.Nat.{mul-zero}
use rathal_os.Prelude.{
  ℕ, ◌+◌, ◌-◌, ◌*◌, ◌%◌, ◌^◌, ◌<◌, ◌≤◌, ◌≡◌, refl, arith, some, if◌then◌else◌, leb, ltb, ◌&&◌, ap,
  ◌∙◌, sym, true, get_or, inl,
}
use rathal_os.Memory.{Memory, load32}
use rathal_os.Common.Func.{memset, strncpy}
use rathal_os.Common.Func.Copy.{strncpy-outside}
use rathal_os.Tools.Image.{File, fseek, fread}
use rathal_os.Tools.Image.Access.{fread-at}
use rathal_os.Tools.Blocks.{block_offset, padding_length}
use rathal_os.Tools.Blocks.Padding.{Written, blocks_write-Written}
use rathal_os.Tools.Tables.{is_block_size}
use rathal_os.Tools.Superblock.{Superblock}
use rathal_os.Tools.Superblock.Bytes.{
  fields, superblock_header, superblock_bytes, load_superblock, is_superblock, superblock_read,
  superblock_write,
}
use rathal_os.Tools.Superblock.Words.{
  AllWords, load32-same, store_fields-word, store_fields-outside,
}

-- Bytes before the fields.
header-at :
    (p label : ℕ) (sb : Superblock) (m : Memory) (j : ℕ)
    → j < 6
    → superblock_bytes p label sb m (p + j) ≡ superblock_header p sb.block_size m (p + j)
unfolding superblock_bytes
header-at p label sb m j lt =
    let header = superblock_header p sb.block_size m in
    store_fields-outside (strncpy header (p + 6) label 31) (p + 38) (fields sb) (p + j)
      (inl (omega arith))
    ∙ strncpy-outside header (p + 6) label 31 (p + j) (inl (omega arith))

field-at :
    (p label : ℕ) (sb : Superblock) (m : Memory) (i : ℕ)
    → AllWords (fields sb)
    → i < 10
    → load32 (superblock_bytes p label sb m) (p + 38 + 4 * i) ≡ get_or (fields sb) i 0
unfolding superblock_bytes
field-at p label sb m i words lt =
    store_fields-word (strncpy (superblock_header p sb.block_size m) (p + 6) label 31) (p + 38)
      (fields sb) i words lt

-- The first bytes and the fields of a superblock at `q`.
record IsCopy (sb : Superblock) (m : Memory) (q : ℕ) : Type 0 where
  pub b : m q ≡ b'B'
  pub f : m (q + 1) ≡ b'F'
  pub s : m (q + 2) ≡ b'S'
  pub major : m (q + 4) ≡ 1
  pub word : (i : ℕ) → i < 10 → load32 m (q + 38 + 4 * i) ≡ get_or (fields sb) i 0

copied :
    (p label : ℕ) (sb : Superblock) (m m' : Memory) (q : ℕ)
    → AllWords (fields sb)
    → ((j : ℕ) → j < 78 → m' (q + j) ≡ superblock_bytes p label sb m (p + j))
    → IsCopy sb m' q
copied p label sb m m' q words same = record {
  b =
      ap m' {x = q} {y = q + 0} (omega arith)
      ∙ same 0 (omega arith)
      ∙ header-at p label sb m 0 (omega arith)
      ∙ ground arith;
  f = same 1 (omega arith) ∙ header-at p label sb m 1 (omega arith) ∙ ground arith;
  s = same 2 (omega arith) ∙ header-at p label sb m 2 (omega arith) ∙ ground arith;
  major = same 4 (omega arith) ∙ header-at p label sb m 4 (omega arith) ∙ ground arith;
  word = λ i lt.
      load32-same (superblock_bytes p label sb m) m' (p + 38 + 4 * i) (q + 38 + 4 * i) (λ j small.
        ap m' {x = q + 38 + 4 * i + j} {y = q + (38 + 4 * i + j)} (omega arith)
        ∙ same (38 + 4 * i + j) (omega arith)
        ∙ ap (superblock_bytes p label sb m) {x = p + (38 + 4 * i + j)} {y = p + 38 + 4 * i + j}
            (omega arith))
      ∙ field-at p label sb m i words lt;
}

field_of :
    (sb : Superblock) (m : Memory) (q i a : ℕ)
    → IsCopy sb m q
    → i < 10
    → q + 38 + 4 * i ≡ a
    → load32 m a ≡ get_or (fields sb) i 0
field_of sb m q i a c lt e = ap (load32 m) (sym e) ∙ c.word i lt

load_copied : (sb : Superblock) (m : Memory) (q : ℕ) → IsCopy sb m q → load_superblock m q ≡ sb
load_copied sb m q c = λ i. record {
  block_size = field_of sb m q 0 (q + 38) c (omega arith) (omega arith) i;
  inode_bitmap_start = field_of sb m q 1 (q + 42) c (omega arith) (omega arith) i;
  inode_bitmap_block_count = field_of sb m q 2 (q + 46) c (omega arith) (omega arith) i;
  datablock_bitmap_start = field_of sb m q 3 (q + 50) c (omega arith) (omega arith) i;
  datablock_bitmap_block_count = field_of sb m q 4 (q + 54) c (omega arith) (omega arith) i;
  inode_start = field_of sb m q 5 (q + 58) c (omega arith) (omega arith) i;
  inode_count = field_of sb m q 6 (q + 62) c (omega arith) (omega arith) i;
  inode_block_count = field_of sb m q 7 (q + 66) c (omega arith) (omega arith) i;
  datablocks_start = field_of sb m q 8 (q + 70) c (omega arith) (omega arith) i;
  datablock_count = field_of sb m q 9 (q + 74) c (omega arith) (omega arith) i;
}

is_superblock-copied :
    (sb : Superblock) (m : Memory) (q : ℕ)
    → IsCopy sb m q
    → is_block_size sb.block_size ≡ true
    → is_superblock m q ≡ true
unfolding is_superblock
is_superblock-copied sb m q c ok =
    let size = field_of sb m q 0 (q + 38) c (omega arith) (omega arith) in
    rw (c.b, c.f, c.s, c.major, size, ok) refl

-- The first bytes of block 0.
superblock_byte :
    (bs : ℕ) (m : Memory) (p : ℕ) (f f' : File) (q j : ℕ) (m2 : Memory)
    → Written bs 0 m p bs f f'
    → 512 ≤ bs
    → j < 78
    → fread (fseek 0 f') q 78 m2 (q + j) ≡ m (p + j)
superblock_byte bs m p f f' q j m2 w large lt =
    let first : block_offset bs 0 ≡ 0 = ap (λ (k : ℕ). k % 2 ^ 32) (mul-zero bs) in
    fread-at f' 0 q 78 (q + j) m2 (omega (arith, w.size, first))
    ∙ inside (f'.content (0 + (q + j - q))) (m2 (q + j))
    ∙ ap f'.content {x = 0 + (q + j - q)} {y = j} (omega arith)
    ∙ w.content j
    ∙ ap
        (λ (o : ℕ).
          if leb o j && ltb j (o + bs)
          then m (p + (j - o))
          else if leb o j && ltb j (o + bs + padding_length bs bs)
          then 0
          else f.content j)
        first
    ∙ in_data (m (p + (j - 0))) _
    ∙ ap m {x = p + (j - 0)} {y = p + j} (omega arith)
  where
    inside : (x y : ℕ) → (if leb q (q + j) && ltb (q + j) (q + 78) then x else y) ≡ x
    inside x y = ground arith

    in_data : (x y : ℕ) → (if leb 0 j && ltb j (0 + bs) then x else y) ≡ x
    in_data x y = ground arith

-- A superblock with numbers below 2 ^ 32 and a block size that the tools accept, written to an image and
-- read again at any addresses, is the same superblock.
pub superblock_read-superblock_write :
    (p label q : ℕ) (sb : Superblock) (m m2 : Memory) (f : File)
    → AllWords (fields sb)
    → is_block_size sb.block_size ≡ true
    → (f' : File) × (superblock_write p sb.block_size (superblock_bytes p label sb m) f ≡ some f')
      × (superblock_read q f' m2 ≡ some sb)
unfolding superblock_write superblock_read
superblock_read-superblock_write p label q sb m m2 f words ok =
    let large : 512 ≤ sb.block_size = ground arith in
    let bytes = superblock_bytes p label sb m in
    let w =
      blocks_write-Written sb.block_size 0 bytes p sb.block_size f (λ e. omega (arith, large))
        (λ e. omega (arith, large)) in
    let m' = fread (fseek 0 w.0) q 78 (memset m2 q 0 78) in
    let c =
      copied p label sb m m' q words
        (λ j lt. superblock_byte sb.block_size bytes p f w.0 q j (memset m2 q 0 78) w.2 large lt) in
    (
      w.0,
      w.1,
      rw (superblock_read, is_superblock-copied sb m' q c ok)
          (ap (λ (s : Superblock). some s) (load_copied sb m' q c)),
    )
