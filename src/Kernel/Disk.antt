-- ===== src/Kernel/Disk.antt =====
-- What the file system asks of the disk driver (kernel/drivers/ide.h): reading a sector into memory.
use rathal_os.Prelude.{ℕ, ◌+◌, ◌-◌, ◌<◌, ◌≡◌, leb, ltb, ◌&&◌, if◌then◌else◌}
use rathal_os.Memory.{Memory}

-- `SECTOR_SIZE`
abbrev pub sector_size : ℕ
sector_size = 512

-- `read_sector sector dst m` is the memory after `ide_read_sector(sector, dst)`, and `content` the
-- bytes on the disk, sector by sector.
pub record Disk : Type 0 where
  pub content : ℕ → ℕ → ℕ
  pub read_sector : ℕ → ℕ → Memory → Memory
  pub read_sector_lem :
      (sector dst : ℕ) (m : Memory) (a : ℕ)
      → read_sector sector dst m a
        ≡ (if leb dst a && ltb a (dst + sector_size) then content sector (a - dst) else m a)
  pub content_lt : (sector i : ℕ) → content sector i < 256
