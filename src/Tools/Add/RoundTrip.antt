-- ===== src/Tools/Add/RoundTrip.antt =====
-- A file copied to an image and read from it.
use native.Mathlib.Nat.{div-lt_iff_lt-mul, mul_comm}
use rathal_os.Prelude.{
  ℕ, ◌+◌, ◌*◌, ◌/◌, ◌%◌, ◌^◌, ◌<◌, ◌≤◌, ◌≡◌, arith, some, if◌then◌else◌, ltb, pos, ap, ◌∙◌,
}
use rathal_os.Memory.{Memory, load16}
use rathal_os.Common.Bitmap.{Bitmap}
use rathal_os.Tools.Blocks.{block_offset}
use rathal_os.Tools.Fs.{data_block, fs_read_inode}
use rathal_os.Tools.Fs.Offset.{nth_block}
use rathal_os.Tools.Fs.Content.{Apart, file_byte}
use rathal_os.Tools.Fs.Read.{IsSetting, Reaches, fs_read_inode-Delivered}
use rathal_os.Tools.Add.{Copying, fill_pointers}
use rathal_os.Tools.Add.Address.{address, block_offset-address, data_block-number}
use rathal_os.Tools.Add.Ready.{IsImage, IsReady}
use rathal_os.Tools.Add.Filled.{Filled}
use rathal_os.Tools.Add.Fill.{fill_pointers-Filled}

first_branch : (q x y : ℕ) → q < 4 → (if ltb q 4 then x else y) ≡ x
first_branch q x y lt = ground arith

module _ (bs w datablocks_start buf : ℕ) (b : Bitmap) (inode : ℕ) (c c' : Copying)
    (i : IsImage bs datablocks_start buf b) (behind_tables : 0 < datablocks_start)
    (fits : c.data_left ≤ bs * 4) (f : Filled bs datablocks_start buf b (inode + 38) 4 c c') where
  abbrev word : ℕ → ℕ
  word o = load16 c'.memory (inode + 38 + 2 * (o / bs))

  quotient : (o : ℕ) → o < c.data_left → o / bs < 4
  quotient o lt =
      (div-lt_iff_lt-mul {k = bs} {x = o} {y = 4} i.positive).1
        (omega (arith, lt, fits, mul_comm bs 4))

  direct_block :
      (o : ℕ)
      → o < c.data_left
      → nth_block bs w datablocks_start c'.fs c'.memory inode (o / bs) ≡ word o
  direct_block o lt = first_branch (o / bs) (word o) _ (quotient o lt)

  word_address :
      (o : ℕ)
      → o < c.data_left
      → block_offset bs (data_block datablocks_start (pos (word o)))
        ≡ address bs datablocks_start (word o)
  word_address o lt =
      block_offset-address bs datablocks_start b.count (word o) i.positive i.small (f.named o lt).0

  reaches :
      (o : ℕ) → o < c.data_left → Reaches bs w datablocks_start 0 0 0 inode 0 c'.fs c'.memory o
  reaches o lt = (
    rw (direct_block o lt) (
      λ e. omega (
        arith,
        e,
        behind_tables,
        data_block-number bs datablocks_start b.count (word o) i.positive i.small (f.named o lt).0,
      ),
      omega (arith, word_address o lt, (f.named o lt).1),
    ),
    λ high. absurd (omega (arith, high, lt, fits, mul_comm bs 4)),
  )

  stored_byte :
      (o : ℕ)
      → o < c.data_left
      → file_byte bs w datablocks_start c'.fs c'.memory inode o ≡ c.f.content (c.f.position + o)
  stored_byte o lt =
      ap (λ (n : ℕ). c'.fs.content (block_offset bs (data_block datablocks_start (pos n)) + o % bs))
        (direct_block o lt)
      ∙ ap (λ (a : ℕ). c'.fs.content (a + o % bs)) (word_address o lt)
      ∙ f.stored o lt

-- A file of at most four blocks, copied by the loop over the direct pointers of an inode and read by
-- `fs_read` from there, gives its bytes again: with enough free blocks both return, and byte `k` of what is
-- read is byte `k` of what was to be copied. The block size is even, the pointers of an
-- inode cover less than 2 ^ 32 bytes, the image is below 4 GiB, its bitmap is
-- valid for at most 65536 blocks, the data blocks are not at its start, the file has what is to be copied
-- and is below 2 GiB; the destination, the buffers and the inode are apart, as are the bitmap, the pointers
-- and the first buffer.
pub fs_read_inode-fill_pointers :
    (bs w datablocks_start buf local read_buf dest inode : ℕ) (b : Bitmap) (c : Copying)
    → IsImage bs datablocks_start buf b
    → IsReady b c
    → bs ≡ 2 * w
    → 4 * bs + 9 * w * bs < 2 ^ 32
    → 0 < datablocks_start
    → Apart b.bits b.size (inode + 38) 8
    → Apart buf bs (inode + 38) 8
    → Apart dest c.data_left read_buf bs
    → Apart dest c.data_left inode 64
    → Apart read_buf bs inode 64
    → c.data_left ≤ bs * 4
    → c.data_left ≤ bs * c.free_datablocks
    → c.data_left < 2 ^ 31
    → (c' : Copying) × (m' : Memory) × (fill_pointers bs datablocks_start buf b (inode + 38) 4 c
        ≡ some c')
      × (fs_read_inode bs datablocks_start local read_buf dest 0 c.data_left c'.fs inode c'.memory
          ≡ some m')
      × ((k : ℕ) → k < c.data_left → m' (dest + k) ≡ c.f.content (c.f.position + k))
fs_read_inode-fill_pointers bs w datablocks_start buf local read_buf dest inode b c i r even covered
      behind bits buffer dest_buf dest_inode buf_inode fits free small =
    let (c', runs, f) =
      fill_pointers-Filled bs datablocks_start buf b (inode + 38) 4 c i bits buffer r fits free in
    let setting : IsSetting bs w datablocks_start local read_buf dest inode c.data_left c'.fs
        c'.memory =
      record {
        even = even;
        positive = omega (arith, even, i.positive);
        addressable = covered;
        dest_buf = dest_buf;
        dest_inode = dest_inode;
        buf_inode = buf_inode;
      } in
    let (m', reads, d) =
      fs_read_inode-Delivered bs w datablocks_start local read_buf dest inode c.data_left c'.fs
        c'.memory 0 c.data_left setting (omega arith) small (omega (arith, fits, mul_comm bs 4))
        (omega (arith, small))
        (λ o lo hi.
          reaches bs w datablocks_start buf b inode c c' i behind fits f o (omega arith)) in
    (
      c',
      m',
      runs,
      reads,
      λ k lt.
          ap m' {x = dest + k} {y = dest + 0 + k} (omega arith)
          ∙ d.bytes k lt
          ∙ ap (file_byte bs w datablocks_start c'.fs c'.memory inode) {x = 0 + k} {y = k}
              (omega arith)
          ∙ stored_byte bs w datablocks_start buf b inode c c' i behind fits f k lt,
    )
