-- ===== src/Tools/Add/Ready.antt =====
-- The state of the copying loops and what adding a chunk changes.
use native.Mathlib.Decide.{dec_lt}
use rathal_os.Prelude.{
  ℕ, ◌+◌, ◌-◌, ◌*◌, ◌/◌, ◌^◌, ◌<◌, ◌≤◌, ◌≡◌, ◌≢◌, arith, if◌then◌else◌, leb, ltb, ◌&&◌, ◌==◌, ◌∙◌,
  sym, true, false, ◌⊎◌,
}
use rathal_os.Memory.{Memory, IsBytes}
use rathal_os.Common.Bitmap.{Bitmap}
use rathal_os.Common.Bitmap.Bits.{bit, IsValid}
use rathal_os.Common.Bitmap.Reserve.{free_bits, free_bits-same}
use rathal_os.Tools.Image.{File, fread}
use rathal_os.Tools.Blocks.{padding_length}
use rathal_os.Tools.Blocks.Padding.{padding_length-block}
use rathal_os.Tools.Fs.Content.{Apart}
use rathal_os.Tools.Add.{Copying, chunk_length}
use rathal_os.Tools.Add.Address.{address}

-- A valid bitmap of the data blocks, of at most as many as pointers can name, on an image below 4 GiB; its
-- storage and the buffer are apart.
pub record IsImage (bs datablocks_start buf : ℕ) (b : Bitmap) : Type 0 where
  pub positive : 0 < bs
  pub valid : IsValid b
  pub count : b.count ≤ 2 ^ 16
  pub small : bs * (datablocks_start + b.count) ≤ 2 ^ 32
  pub buffer : Apart b.bits b.size buf bs

-- Bytes in memory and in the file to add, which has what is left; the counter of free blocks is right.
pub record IsReady (b : Bitmap) (c : Copying) : Type 0 where
  pub bytes : IsBytes c.memory
  pub file_bytes : (a : ℕ) → c.f.content a < 256
  pub source : c.f.position + c.data_left ≤ c.f.size
  pub free : c.free_datablocks ≡ free_bits c.memory b 0 b.count

-- Writes to memory outside the storage of the bitmap keep this.
pub IsReady-outside :
    (b : Bitmap) (c : Copying) (m : Memory)
    → IsValid b
    → IsReady b c
    → IsBytes m
    → ((a : ℕ) → b.bits ≤ a → a < b.bits + b.size → m a ≡ c.memory a)
    → IsReady b (record c { memory = m })
IsReady-outside b c m v r bytes same = record {
  bytes = bytes;
  file_bytes = r.file_bytes;
  source = r.source;
  free =
      r.free
      ∙ sym (
          free_bits-same c.memory m b 0 b.count
            (λ j lo hi. same (b.bits + j / 8) (omega arith) (omega (arith, v.fits, hi))));
}

-- What adding a chunk in block `k` changes.
pub record Added (bs datablocks_start buf : ℕ) (b : Bitmap) (k : ℕ) (c c' : Copying) : Type 0 where
  pub below : k < b.count
  pub was_free : bit c.memory b k ≡ false
  pub marked :
      (j : ℕ) → j < b.count → bit c'.memory b j ≡ (if k == j then true else bit c.memory b j)
  pub left : c'.data_left ≡ c.data_left - bs
  pub file : (a : ℕ) → c'.f.content a ≡ c.f.content a
  pub chunk :
      (r : ℕ)
      → r < bs
      → c'.fs.content (address bs datablocks_start k + r)
        ≡ (if ltb r c.data_left then c.f.content (c.f.position + r) else 0)
  pub other_blocks :
      (a : ℕ)
      → (a < address bs datablocks_start k) ⊎ (address bs datablocks_start k + bs ≤ a)
      → c'.fs.content a ≡ c.fs.content a
  pub size : (c.fs.size ≤ c'.fs.size) × (address bs datablocks_start k + bs ≤ c'.fs.size)
  pub others :
      (a : ℕ)
      → (a < b.bits) ⊎ (b.bits + b.size ≤ a)
      → (a < buf) ⊎ (buf + bs ≤ a)
      → c'.memory a ≡ c.memory a

pub fread-here :
    (f : File) (p count a : ℕ) (m : Memory)
    → f.position + count ≤ f.size
    → fread f p count m a
      ≡ (if leb p a && ltb a (p + count) then f.content (f.position + (a - p)) else m a)
unfolding fread
fread-here f p count a m fits = ground arith

pub chunk_lt : (bs left : ℕ) → 0 < bs → 0 < left → chunk_length bs left ≢ 0
chunk_lt bs left h k e = ground (arith, e)

pub chunk_padded :
    (bs left : ℕ)
    → 0 < bs
    → 0 < left
    → chunk_length bs left + padding_length bs (chunk_length bs left) ≡ bs
chunk_padded bs left h k =
    padding_length-block bs (chunk_length bs left) (chunk_lt bs left h k) (ground arith)

pub choose :
    (o bs left x y : ℕ)
    → o < bs
    → (o < chunk_length bs left → x ≡ y)
    → (if ltb o (chunk_length bs left) then x else 0) ≡ (if ltb o left then y else 0)
choose o bs left x y lt same = elim (dec_lt o (chunk_length bs left)) [
  | yes l ↦ let e = same l in ground arith
  | no ge ↦ ground arith
]

pub outside_block :
    (start len bs a : ℕ)
    → len ≤ bs
    → (a < start) ⊎ (start + bs ≤ a)
    → (x y : ℕ)
    → (if leb start a && ltb a (start + len)
        then x
        else if leb start a && ltb a (start + bs)
        then 0
        else y)
      ≡ y
outside_block start len bs a le out x y = ground arith
