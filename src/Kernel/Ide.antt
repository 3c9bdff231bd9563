-- ===== src/Kernel/Ide.antt =====
-- kernel/drivers/ide.c: reading and writing sectors through the ports of the drive. Writes to ports are
-- pairs of a port and a value; `wait_drive` only waits. What the drive answers is a parameter.
pub mod Sectors
pub mod Tests
use rathal_os.Prelude.{ℕ, zero, suc, ◌+◌, ◌-◌, ◌*◌, ◌/◌, ◌%◌, ◌^◌, List, [], ◌∷◌, ◌++◌, bit_or}
use rathal_os.Memory.{Memory, store16, load16}
use rathal_os.Kernel.Disk.{sector_size}

-- `sector` is not negative.
unfoldable pub pio_prepare : ℕ → List (ℕ × ℕ)
pio_prepare sector =
    (0x1f2, 1)
    ∷ (0x1f3, sector % 2 ^ 8)
    ∷ (0x1f4, sector / 2 ^ 8 % 2 ^ 8)
    ∷ (0x1f5, sector / 2 ^ 16 % 2 ^ 8)
    ∷ (0x1f6, bit_or (sector / 2 ^ 24 % 2 ^ 4) 0xe0)
    ∷ []

-- `inw(0x1f0)` into the two bytes at `p`, `left` times; `words` are what is read from the port.
unfoldable pub read_words : (ℕ → ℕ) → ℕ → ℕ → ℕ → Memory → Memory
read_words words i p zero m = m
read_words words i p (suc left) m = read_words words (i + 1) (p + 2) left (store16 m p (words i))

-- `outw(0x1f0, *data)`
unfoldable pub write_words : Memory → ℕ → ℕ → List (ℕ × ℕ)
write_words m p zero = []
write_words m p (suc left) = (0x1f0, load16 m p) ∷ write_words m (p + 2) left

-- The words that the drive delivers depend on what was written to its ports.
unfoldable pub ide_read_sector : (List (ℕ × ℕ) → ℕ → ℕ) → ℕ → ℕ → Memory → Memory
unfolding pio_prepare read_words
ide_read_sector drive sector dst m =
    read_words (drive (pio_prepare sector ++ ((0x1f7, 0x20) ∷ []))) 0 dst (sector_size / 2) m

unfoldable pub ide_write_sector : ℕ → ℕ → Memory → List (ℕ × ℕ)
unfolding pio_prepare write_words
ide_write_sector sector src m =
    pio_prepare sector ++ ((0x1f7, 0x30) ∷ write_words m src (sector_size / 2))
