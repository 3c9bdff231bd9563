-- ===== src/Tools/Add/Chunk.antt =====
-- What `alloc_block_and_copy` does when a block is free.
use rathal_os.Prelude.{
  ℕ, ◌+◌, ◌-◌, ◌/◌, ◌<◌, ◌≤◌, ◌≡◌, refl, arith, Option, some, ◌>>=◌, if◌then◌else◌, leb, ltb, ◌&&◌,
  ℤ, pos, ap, ◌∙◌, false, ◌⊎◌,
}
use rathal_os.Memory.{Memory}
use rathal_os.Common.Bitmap.{Bitmap, bitmap_set, bitmap_reserve_first_available_bit}
use rathal_os.Common.Bitmap.Bits.{
  bit, bitmap_set-frame, bitmap_set-IsBytes, bit-bitmap_set, bit-same,
}
use rathal_os.Common.Bitmap.Reserve.{
  Reserved, found, full, reserve-Reserved, free_bits-same, free_bits-set, free_bits-all_set,
}
use rathal_os.Tools.Image.{File, min, fread, advance}
use rathal_os.Tools.Image.Access.{fread-IsBytes}
use rathal_os.Tools.Blocks.{padding_length, blocks_write}
use rathal_os.Tools.Blocks.Padding.{Written, blocks_write-Written, block_offset_read}
use rathal_os.Tools.Fs.{data_block}
use rathal_os.Tools.Add.{Copying, chunk_length, copy_chunk, alloc_block_and_copy}
use rathal_os.Tools.Add.Address.{address, block_offset-address}
use rathal_os.Tools.Add.Ready.{
  IsImage, IsReady, Added, fread-here, chunk_lt, chunk_padded, choose, outside_block,
}

module _ (bs datablocks_start buf : ℕ) (b : Bitmap) (c : Copying)
    (i : IsImage bs datablocks_start buf b) (r : IsReady b c) (some_left : 0 < c.data_left) where
  abbrev len : ℕ
  len = chunk_length bs c.data_left

  len_le : (len ≤ bs) × (len ≤ c.data_left)
  len_le = (ground arith, ground arith)

  len_left : c.data_left - len ≡ c.data_left - bs
  len_left = ground arith

  module _ (k : ℕ) (below : k < b.count) (was_free : bit c.memory b k ≡ false) where
    abbrev marked_memory : Memory
    marked_memory = bitmap_set c.memory b k 1

    abbrev with_chunk : Memory
    with_chunk = fread c.f buf len marked_memory

    abbrev block : ℕ
    block = data_block datablocks_start (pos k)

    write :
        (fs' : File) × (blocks_write bs block with_chunk buf len c.fs ≡ some fs')
        × Written bs block with_chunk buf len c.fs fs'
    write =
        blocks_write-Written bs block with_chunk buf len c.fs (λ e. omega (arith, e, i.positive))
          (chunk_lt bs c.data_left i.positive some_left)

    abbrev after : Copying
    after = record {
      memory = with_chunk;
      data_left = c.data_left - len;
      free_datablocks = c.free_datablocks - 1;
      f = advance len c.f;
      fs = write.0;
    }

    copy_chunk-after :
        copy_chunk bs datablocks_start buf c (marked_memory, pos k) ≡ some (after, pos k)
    unfolding copy_chunk
    copy_chunk-after =
        ap
          (λ (x : Option File). x >>= λ fs'. some (
            record {
              memory = with_chunk;
              data_left = c.data_left - len;
              free_datablocks = c.free_datablocks - 1;
              f = advance len c.f;
              fs = fs';
            },
            pos k,
          ))
          write.1

    with_chunk-at :
        (a : ℕ)
        → with_chunk a ≡ (
            if leb buf a && ltb a (buf + len)
            then c.f.content (c.f.position + (a - buf))
            else marked_memory a)
    with_chunk-at a = fread-here c.f buf len a marked_memory (omega (arith, len_le.1, r.source))

    with_chunk-outside : (a : ℕ) → (a < buf) ⊎ (buf + bs ≤ a) → with_chunk a ≡ marked_memory a
    with_chunk-outside a out =
        with_chunk-at a ∙ outside (c.f.content (c.f.position + (a - buf))) (marked_memory a)
      where
        outside : (x y : ℕ) → (if leb buf a && ltb a (buf + len) then x else y) ≡ y
        outside x y = let le = len_le.0 in ground arith

    in_storage :
        (j : ℕ) → j < b.count → (b.bits ≤ b.bits + j / 8) × (b.bits + j / 8 < b.bits + b.size)
    in_storage j lt = (omega arith, omega (arith, i.valid.fits, lt))

    -- Bytes of the image.
    written_at :
        (a : ℕ)
        → write.0.content a ≡ (
            let start = address bs datablocks_start k in
            if leb start a && ltb a (start + len)
            then with_chunk (buf + (a - start))
            else if leb start a && ltb a (start + bs)
            then 0
            else c.fs.content a)
    written_at a =
        write.2.content a
        ∙ ap
            (λ (start : ℕ).
              if leb start a && ltb a (start + len)
              then with_chunk (buf + (a - start))
              else if leb start a && ltb a (start + len + padding_length bs len)
              then 0
              else c.fs.content a)
            (block_offset-address bs datablocks_start b.count k i.positive i.small below)
        ∙ ap
            (λ (end : ℕ).
              let start = address bs datablocks_start k in
              if leb start a && ltb a (start + len)
              then with_chunk (buf + (a - start))
              else if leb start a && ltb a end
              then 0
              else c.fs.content a)
            {x = address bs datablocks_start k + len + padding_length bs len}
            {y = address bs datablocks_start k + bs}
            (omega (arith, chunk_padded bs c.data_left i.positive some_left))

    chunk_byte :
        (o : ℕ)
        → o < len
        → with_chunk (buf + (address bs datablocks_start k + o - address bs datablocks_start k))
          ≡ c.f.content (c.f.position + o)
    chunk_byte o lt =
        ap with_chunk
          {x = buf + (address bs datablocks_start k + o - address bs datablocks_start k)}
          {y = buf + o} (omega arith)
        ∙ with_chunk-at (buf + o)
        ∙ inside (c.f.content (c.f.position + (buf + o - buf))) (marked_memory (buf + o))
        ∙ ap c.f.content {x = c.f.position + (buf + o - buf)} {y = c.f.position + o} (omega arith)
      where
        inside : (x y : ℕ) → (if leb buf (buf + o) && ltb (buf + o) (buf + len) then x else y) ≡ x
        inside x y = ground arith

    chunk_bytes :
        (o : ℕ)
        → o < bs
        → write.0.content (address bs datablocks_start k + o)
          ≡ (if ltb o c.data_left then c.f.content (c.f.position + o) else 0)
    chunk_bytes o lt =
        written_at (address bs datablocks_start k + o)
        ∙ block_offset_read (address bs datablocks_start k) buf bs len o lt len_le.0
            (with_chunk (buf + (address bs datablocks_start k + o - address bs datablocks_start k)))
            (c.fs.content (address bs datablocks_start k + o))
        ∙ choose o bs c.data_left _ (c.f.content (c.f.position + o)) lt (chunk_byte o)

    added : Added bs datablocks_start buf b k c after
    unfolding advance
    added = record {
      below = below;
      was_free = was_free;
      marked = λ j lt.
          bit-same with_chunk marked_memory b j
            (with_chunk-outside (b.bits + j / 8) (omega (arith, in_storage j lt, i.buffer)))
          ∙ bit-bitmap_set c.memory b k 1 j r.bytes;
      left = len_left;
      file = λ a. refl;
      chunk = chunk_bytes;
      other_blocks = λ a out.
          written_at a
          ∙ outside_block (address bs datablocks_start k) len bs a len_le.0 out
              (with_chunk (buf + (a - address bs datablocks_start k))) (c.fs.content a);
      size = (
        write.2.size.0,
        omega (
          arith,
          write.2.size.1,
          chunk_padded bs c.data_left i.positive some_left,
          block_offset-address bs datablocks_start b.count k i.positive i.small below,
        ),
      );
      others = λ a out_b out_buf.
          with_chunk-outside a out_buf
          ∙ bitmap_set-frame c.memory b k 1 a (λ e. omega (arith, e, out_b, in_storage k below));
    }

    advanced : (advance len c.f).position ≡ c.f.position + len
    unfolding advance
    advanced = moved len c.f.position c.f.size (omega (arith, len_le.1, r.source))
      where
        moved :
            (n position size : ℕ)
            → position + n ≤ size
            → position + min n (size - position) ≡ position + n
        moved n position size fits = ground arith

    ready : IsReady b after
    unfolding advance
    ready = record {
      bytes =
          fread-IsBytes c.f buf len marked_memory r.file_bytes
            (bitmap_set-IsBytes c.memory b k 1 r.bytes);
      file_bytes = r.file_bytes;
      source = omega (arith, advanced, len_le.1, r.source);
      free =
          let same = free_bits-same marked_memory with_chunk b 0 b.count (λ j lo hi.
            with_chunk-outside (b.bits + j / 8)
              (omega (arith, in_storage j (omega arith), i.buffer))) in
          let counted =
            free_bits-set c.memory b k 0 b.count r.bytes was_free (omega arith) (omega arith) in
          omega (arith, same, counted, r.free);
    }

    position : after.f.position + after.data_left ≡ c.f.position + c.data_left
    position = omega (arith, advanced, len_le.1)

-- With a free block and bytes left, a chunk is added in the lowest free block, and what comes next is ready.
abbrev pub AddsChunk : ℕ → ℕ → ℕ → Bitmap → Copying → Type 0
AddsChunk bs datablocks_start buf b c =
    (k : ℕ) × (c' : Copying) × (alloc_block_and_copy bs datablocks_start buf b c ≡ some (c', pos k))
    × Added bs datablocks_start buf b k c c'
    × IsReady b c'
    × (c'.free_datablocks + 1 ≡ c.free_datablocks)
    × (c'.f.position + c'.data_left ≡ c.f.position + c.data_left)

-- `alloc_block_and_copy` with a free block and bytes left takes a free block, sets its bit and no other,
-- writes to the block the next bytes of the file, up to a block, filled up with zeros, and changes no other
-- byte of the image; memory changes in the bitmap and in the buffer only.
pub alloc_block_and_copy-Added :
    (bs datablocks_start buf : ℕ) (b : Bitmap) (c : Copying)
    → IsImage bs datablocks_start buf b
    → IsReady b c
    → 0 < c.data_left
    → 0 < c.free_datablocks
    → AddsChunk bs datablocks_start buf b c
unfolding alloc_block_and_copy advance
alloc_block_and_copy-Added bs datablocks_start buf b c i r some_left some_free =
    go (bitmap_reserve_first_available_bit c.memory b) refl (reserve-Reserved c.memory b)
  where
    go :
        (x : Memory × ℤ)
        → bitmap_reserve_first_available_bit c.memory b ≡ x
        → Reserved c.memory b 0 b.count x
        → AddsChunk bs datablocks_start buf b c
    go x ex (full e all) = absurd (
        omega (
          arith,
          r.free,
          some_free,
          free_bits-all_set c.memory b 0 b.count (λ j lo hi. all j lo (omega arith)),
        ))
    go x ex (found k e lo below was_free before) = (
      k,
      after bs datablocks_start buf b c i r some_left k below was_free,
      ap (copy_chunk bs datablocks_start buf c) (ex ∙ e)
          ∙ copy_chunk-after bs datablocks_start buf b c i r some_left k below was_free,
      added bs datablocks_start buf b c i r some_left k below was_free,
      ready bs datablocks_start buf b c i r some_left k below was_free,
      omega (arith, some_free),
      position bs datablocks_start buf b c i r some_left k below was_free,
    )
