-- ===== src/Tools/Blocks/Tests.antt =====
-- Five bytes, and a table of 832 bytes, in blocks of 512.
use rathal_os.Prelude.{
  ℕ, ◌+◌, ◌-◌, ◌*◌, ◌/◌, ◌%◌, ◌<◌, ◌≡◌, refl, arith, [], ◌∷◌, Option, none, some, if◌then◌else◌,
  leb, ltb, ◌&&◌, true, false, ◌↔◌, ◌⊎◌,
}
use rathal_os.Memory.{Memory, place, zeros}
use rathal_os.Tools.Image.{File, fseek, fwrite}
use rathal_os.Tools.Blocks.{padding_length, blocks_write, block_read}
use rathal_os.Tools.Blocks.Padding.{block_read-blocks_write, padding_length_lem}

abbrev image : File
image = record { content = λ a. 9; size = 2048; position = 0 }

abbrev ram : Memory
ram = place 100 (1 ∷ 2 ∷ 3 ∷ 4 ∷ 5 ∷ []) zeros

abbrev byte_at : ℕ → Option File → ℕ
byte_at a none = 1
byte_at a (some f) = f.content a

-- The zeros behind 832 bytes of data in block 1 reach 128 bytes into block 3.
overruns : byte_at (3 * 512 + 127) (blocks_write 512 1 ram 100 832 image) ≡ 0
unfolding blocks_write fwrite fseek
overruns = refl

block_read-blocks_write_example :
    (f' : File) × (m' : Memory) × (blocks_write 512 2 ram 100 5 image ≡ some f')
    × (block_read 512 2 3000 f' ram ≡ some m')
    × (m' (3000 + 4) ≡ (if ltb 4 5 then ram (100 + 4) else 0))
    × ((a : ℕ) → (if leb 3000 a && ltb a (3000 + 512) then false else true) ≡ true → m' a ≡ ram a)
block_read-blocks_write_example =
    block_read-blocks_write 512 2 ram 100 5 image 3000 ram 4 (λ e. omega arith) (λ e. omega arith)
      (λ e. omega arith) (omega arith) (omega arith)

padding_length_lem_example :
    let written = 832 + padding_length 512 832 in
    ((written % 512 ≡ 0) ↔ ((832 % 512 ≡ 0) ⊎ (2 * (832 % 512) ≡ 512)))
    × (512 < 2 * (832 % 512) → written ≡ 512 * (832 / 512 + 1) + (2 * (832 % 512) - 512))
padding_length_lem_example = padding_length_lem 512 832 (λ e. omega arith) (omega arith)
