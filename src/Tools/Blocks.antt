-- ===== src/Tools/Blocks.antt =====
-- tools/blocks.c: blocks of an image. `none` is a failed assertion.
pub mod Padding
pub mod Tests
use rathal_os.Prelude.{
  ℕ, ◌+◌, ◌-◌, ◌*◌, ◌%◌, ◌^◌, Option, none, some, if◌then◌else◌, ltb, ◌==◌, ◌||◌,
}
use rathal_os.Memory.{Memory, zeros}
use rathal_os.Tools.Image.{File, fseek, fwrite, fread}

-- `block_size*first_block`, an unsigned int.
abbrev pub block_offset : ℕ → ℕ → ℕ
block_offset block_size block = block_size * block % 2 ^ 32

-- `data_len < block_size ? block_size-data_len : data_len % block_size`
abbrev pub padding_length : ℕ → ℕ → ℕ
padding_length block_size data_len =
    if ltb data_len block_size then block_size - data_len else data_len % block_size

-- Data, then the padding.
abbrev pub write_padded : ℕ → Memory → ℕ → ℕ → File → File
write_padded block_size m p data_len f =
    let padding_len = padding_length block_size data_len in
    if padding_len == 0
    then fwrite m p data_len f
    else fwrite zeros 0 padding_len (fwrite m p data_len f)

unfoldable pub blocks_write : ℕ → ℕ → Memory → ℕ → ℕ → File → Option File
unfolding fseek fwrite
blocks_write block_size first_block m p data_len f =
    if block_size == 0 || data_len == 0
    then none
    else some (write_padded block_size m p data_len (fseek (block_offset block_size first_block) f))

-- The memory after reading a block to `dest`.
unfoldable pub block_read : ℕ → ℕ → ℕ → File → Memory → Option Memory
unfolding fseek fread
block_read block_size block dest f m =
    if block_size == 0 || block == 0
    then none
    else some (fread (fseek (block_offset block_size block) f) dest block_size m)
