-- ===== src/Tools/Blocks/Padding.antt =====
-- Which bytes of an image a write of blocks changes, and what a read gives back.
use native.Mathlib.Nat.{mod-lt, mod-add-div, mul-add, mod-add-mod, mod-eq_of_lt, mod-eq-sub-mod}
use native.Mathlib.Decide.{dec_lt}
use rathal_os.Prelude.{
  ℕ, ◌+◌, ◌-◌, ◌*◌, ◌/◌, ◌%◌, ◌<◌, ◌≤◌, ◌≡◌, ◌≢◌, refl, arith, some, if◌then◌else◌, leb, ltb, ◌&&◌,
  ◌==◌, ◌||◌, ◌↔◌, ap, ◌∙◌, true, false, sym, ◌⊎◌,
}
use rathal_os.Memory.{Memory}
use rathal_os.Tools.Image.{File, fseek, fwrite, fread}
use rathal_os.Tools.Image.Access.{fread-at}
use rathal_os.Tools.Blocks.{block_offset, padding_length, write_padded, blocks_write, block_read}

-- What `blocks_write` leaves: the data at the start of its first block, then zeros for as many bytes as
-- the padding has, and every other byte as before; the image grows to hold them.
pub record Written (block_size first_block : ℕ) (m : Memory) (p data_len : ℕ) (f f' : File)
    : Type 0 where
  pub content :
      (a : ℕ)
      → let start = block_offset block_size first_block in
        f'.content a ≡ (
          if leb start a && ltb a (start + data_len)
          then m (p + (a - start))
          else if leb start a && ltb a (start + data_len + padding_length block_size data_len)
          then 0
          else f.content a)
  pub size :
      let end =
        block_offset block_size first_block + data_len + padding_length block_size data_len in
      (f.size ≤ f'.size) × (end ≤ f'.size) × (f'.size ≤ f.size + end)

padded :
    (block_size first_block : ℕ) (m : Memory) (p data_len padding : ℕ) (f : File)
    → let start = block_offset block_size first_block in
      let f' =
        (if padding == 0
          then fwrite m p data_len (fseek start f)
          else fwrite (λ a. 0) 0 padding (fwrite m p data_len (fseek start f))) in
      ((a : ℕ)
        → f'.content a ≡ (
            if leb start a && ltb a (start + data_len)
            then m (p + (a - start))
            else if leb start a && ltb a (start + data_len + padding)
            then 0
            else f.content a))
      × (f.size ≤ f'.size)
      × (start + data_len + padding ≤ f'.size)
      × (f'.size ≤ f.size + (start + data_len + padding))
unfolding fseek fwrite
padded block_size first_block m p data_len padding f =
    (λ a. ground arith, ground arith, ground arith, ground arith)

-- `blocks_write` with a block size and a length that are not 0 returns, and leaves `Written`.
pub blocks_write-Written :
    (block_size first_block : ℕ) (m : Memory) (p data_len : ℕ) (f : File)
    → block_size ≢ 0
    → data_len ≢ 0
    → (f' : File) × (blocks_write block_size first_block m p data_len f ≡ some f')
      × Written block_size first_block m p data_len f f'
unfolding blocks_write
blocks_write-Written block_size first_block m p data_len f hb hd =
    let test : (block_size == 0 || data_len == 0) ≡ false = ground arith in
    let r = padded block_size first_block m p data_len (padding_length block_size data_len) f in
    (
      write_padded block_size m p data_len (fseek (block_offset block_size first_block) f),
      rw (blocks_write, test) refl,
      record { content = r.0; size = (r.1, r.2, r.3) },
    )

pub block_offset_read :
    (start dest size data_len i : ℕ)
    → i < size
    → data_len ≤ size
    → (x y : ℕ)
    → (if leb start (start + i) && ltb (start + i) (start + data_len)
        then x
        else if leb start (start + i) && ltb (start + i) (start + size)
        then 0
        else y)
      ≡ (if ltb i data_len then x else 0)
block_offset_read start dest size data_len i h fits x y = ground arith

-- The padding of at most a block fills the block.
pub padding_length-block :
    (block_size data_len : ℕ)
    → data_len ≢ 0
    → data_len ≤ block_size
    → data_len + padding_length block_size data_len ≡ block_size
padding_length-block block_size data_len hd fits = grind arith

-- What is written to a block, up to a block of it, is what `block_read` gives back, filled up with zeros;
-- memory outside the buffer is left. Block sizes and lengths are not 0, and the block is not the first,
-- which `block_read` refuses.
pub block_read-blocks_write :
    (block_size block : ℕ) (m : Memory) (p data_len : ℕ) (f : File) (dest : ℕ) (m2 : Memory) (i : ℕ)
    → block_size ≢ 0
    → block ≢ 0
    → data_len ≢ 0
    → data_len ≤ block_size
    → i < block_size
    → (f' : File) × (m' : Memory) × (blocks_write block_size block m p data_len f ≡ some f')
      × (block_read block_size block dest f' m2 ≡ some m')
      × (m' (dest + i) ≡ (if ltb i data_len then m (p + i) else 0))
      × ((a : ℕ)
          → (if leb dest a && ltb a (dest + block_size) then false else true) ≡ true
          → m' a ≡ m2 a)
unfolding block_read
block_read-blocks_write block_size block m p data_len f dest m2 i hb hk hd fits lt =
    let w = blocks_write-Written block_size block m p data_len f hb hd in
    let f' = w.0 in
    let start = block_offset block_size block in
    let test : (block_size == 0 || block == 0) ≡ false = ground arith in
    let whole : data_len + padding_length block_size data_len ≡ block_size =
      padding_length-block block_size data_len hd fits in
    let covered : start + block_size ≤ f'.size = omega (arith, w.2.size, whole) in
    let read = λ (a : ℕ). fread-at f' start dest block_size a m2 covered in
    (
      f',
      fread (fseek start f') dest block_size m2,
      w.1,
      rw (block_read, test) refl,
      read (dest + i)
          ∙ inside (f'.content (start + (dest + i - dest))) (m2 (dest + i))
          ∙ ap f'.content {x = start + (dest + i - dest)} {y = start + i} (omega arith)
          ∙ w.2.content (start + i)
          ∙ ap
              (λ (e : ℕ).
                if leb start (start + i) && ltb (start + i) (start + data_len)
                then m (p + (start + i - start))
                else if leb start (start + i) && ltb (start + i) e
                then 0
                else f.content (start + i))
              {x = start + data_len + padding_length block_size data_len} {y = start + block_size}
              (omega (arith, whole))
          ∙ block_offset_read start dest block_size data_len i lt fits _ (f.content (start + i))
          ∙ ap (λ (j : ℕ). if ltb i data_len then m (p + j) else 0) {x = start + i - start} {y = i}
              (omega arith),
      λ a out. read a ∙ outside a out (f'.content (start + (a - dest))) (m2 a),
    )
  where
    inside :
        (x y : ℕ) → (if leb dest (dest + i) && ltb (dest + i) (dest + block_size) then x else y) ≡ x
    inside x y = ground arith

    outside :
        (a : ℕ)
        → (if leb dest a && ltb a (dest + block_size) then false else true) ≡ true
        → (x y : ℕ) → (if leb dest a && ltb a (dest + block_size) then x else y) ≡ y
    outside a out x y = ground arith

-- Data of a block or more is followed by `data_len % block_size` zeros: it ends with a block exactly if
-- the length is a multiple of the block size or half a block more; if its last part is longer than half
-- a block, the zeros reach into the block behind, by `2 * (data_len % block_size) - block_size` bytes.
pub padding_length_lem :
    (block_size data_len : ℕ)
    → block_size ≢ 0
    → block_size ≤ data_len
    → let r = data_len % block_size in
      let written = data_len + padding_length block_size data_len in
      ((written % block_size ≡ 0) ↔ ((r ≡ 0) ⊎ (2 * r ≡ block_size)))
      × (block_size < 2 * r
          → written ≡ block_size * (data_len / block_size + 1) + (2 * r - block_size))
padding_length_lem block_size data_len hb le =
    let padding : padding_length block_size data_len ≡ data_len % block_size = ground arith in
    let lt = mod-lt data_len {m = block_size} (omega arith) in
    let parts = mod-add-div data_len block_size in
    let next = mul-add block_size (data_len / block_size) 1 in
    let wrap = mod-add-mod data_len block_size (data_len % block_size) in
    let twice = doubled (data_len % block_size) lt in
    (
      (
        λ e. twice.0 (wrap ∙ ap (λ (k : ℕ). (data_len + k) % block_size) (sym padding) ∙ e),
        λ e. ap (λ (k : ℕ). (data_len + k) % block_size) padding ∙ sym wrap ∙ twice.1 e,
      ),
      λ more. omega (arith, padding, lt, parts, next, more),
    )
  where
    doubled :
        (r : ℕ) → r < block_size → ((r + r) % block_size ≡ 0) ↔ ((r ≡ 0) ⊎ (2 * r ≡ block_size))
    doubled r lt = elim (dec_lt (r + r) block_size) [
      | yes small ↦ let e = mod-eq_of_lt {n = r + r} {m = block_size} small in ground (arith, e)
      | no large ↦
          let e = mod-eq-sub-mod {n = r + r} {m = block_size} (omega arith) in
          let e' = mod-eq_of_lt {n = r + r - block_size} {m = block_size} (omega arith) in
          ground (arith, e, e')
    ]
