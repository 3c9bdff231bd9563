-- ===== src/Kernel/Fs/Init.antt =====
-- `files_system_init`, and the block of an offset.
use rathal_os.Prelude.{
  ℕ, zero, suc, ◌+◌, ◌-◌, ◌*◌, ◌/◌, ◌<◌, ◌≤◌, ◌≡◌, refl, arith, ◌==◌, ltb, leb, ◌&&◌, if◌then◌else◌,
  ◌⊎◌, pos, minus_one, get_or, ap, ◌∙◌, replicate,
}
use rathal_os.Memory.{Memory, load32}
use rathal_os.Kernel.Disk.{Disk}
use rathal_os.Kernel.Fs.{
  Fs, unused, descriptor, descriptor-table, files_system_init, get_block_from_offset, block_size,
}

-- The 32-bit number at an offset of sector 0.
abbrev pub sector32 : Disk → ℕ → ℕ
sector32 disk off =
    disk.content 0 off
    + 256 * disk.content 0 (off + 1)
    + 65536 * disk.content 0 (off + 2)
    + 16777216 * disk.content 0 (off + 3)

-- Sector 0 stands at `sb`.
abbrev HoldsSuperblock : Disk → Memory → ℕ → Type 0
HoldsSuperblock disk m sb = (i : ℕ) → i < 512 → m (sb + i) ≡ disk.content 0 i

load-sector32 :
    (disk : Disk) (m : Memory) (sb off : ℕ)
    → HoldsSuperblock disk m sb
    → off < 509
    → load32 m (sb + off) ≡ sector32 disk off
load-sector32 disk m sb off h lt = ground (
  arith,
  h off (omega arith),
  h (off + 1) (omega arith),
  h (off + 2) (omega arith),
  h (off + 3) (omega arith),
)

-- Reading a sector behind the superblock leaves it.
superblock-read_sector :
    (disk : Disk) (m : Memory) (sb sector dst : ℕ)
    → sb + 512 ≤ dst
    → HoldsSuperblock disk m sb
    → HoldsSuperblock disk (disk.read_sector sector dst m) sb
superblock-read_sector disk m sb sector dst apart h i lt =
    ground (arith, disk.read_sector_lem sector dst m (sb + i), h i lt)

-- What `files_system_init` leaves.
pub record Loaded (disk : Disk) (s s' : Fs) : Type 0 where
  pub superblock : s'.superblock ≡ s.global_buffer
  pub bitmap_count : s'.inode_bitmap.count ≡ sector32 disk 62
  pub table_count : s'.inode_table.inode_count ≡ sector32 disk 62
  pub bitmap_bits : s'.inode_bitmap.bits ≡ s.global_buffer + 512
  pub table_inodes : s'.inode_table.inodes ≡ s.global_buffer + 2048
  pub superblock_bytes : (i : ℕ) → i < 512 → s'.memory (s.global_buffer + i) ≡ disk.content 0 i
  pub bitmap_bytes :
      (i : ℕ) → i < 512 → s'.memory (s.global_buffer + 512 + i) ≡ disk.content (sector32 disk 42) i
  pub table_bytes :
      (i : ℕ) → i < 512 → s'.memory (s.global_buffer + 2048 + i) ≡ disk.content (sector32 disk 58) i
  pub rest :
      (a : ℕ) → (a < s.global_buffer) ⊎ (s.global_buffer + 2560 ≤ a) → s'.memory a ≡ s.memory a
  pub table : s'.file_descriptor_tab ≡ replicate 50 unused
  pub descriptors : (fd : ℕ) → fd < 50 → descriptor s' fd ≡ unused

get_or-replicate {ℓ} : {A : Type ℓ} (n i : ℕ) (d : A) → get_or (replicate n d) i d ≡ d
get_or-replicate zero i d = refl
get_or-replicate (suc n) zero d = refl
get_or-replicate (suc n) (suc i) d = get_or-replicate n i d

module _ (disk : Disk) (s : Fs) where
  -- The memory after each of the three reads.
  first : Memory
  first = disk.read_sector 0 s.global_buffer s.memory

  second : Memory
  second = disk.read_sector (sector32 disk 42) (s.global_buffer + 512) first

  third : Memory
  third = disk.read_sector (sector32 disk 58) (s.global_buffer + 2048) second

  first-superblock : HoldsSuperblock disk first s.global_buffer
  unfolding first
  first-superblock i lt =
      ground (arith, disk.read_sector_lem 0 s.global_buffer s.memory (s.global_buffer + i), back i)
    where
      back : (i : ℕ) → s.global_buffer + i - s.global_buffer ≡ i
      back i = omega arith

  second-superblock : HoldsSuperblock disk second s.global_buffer
  unfolding second
  second-superblock =
      superblock-read_sector disk first s.global_buffer _ _ (omega arith) first-superblock

  third-superblock : HoldsSuperblock disk third s.global_buffer
  unfolding third
  third-superblock =
      superblock-read_sector disk second s.global_buffer _ _ (omega arith) second-superblock

  -- The superblock and the two pointers are those of the first sector's bytes.
  init-memory : (files_system_init disk s).memory ≡ third
  unfolding files_system_init third second first
  init-memory =
      rw
        (
          load-sector32 disk first s.global_buffer 42 first-superblock (omega arith),
          load-sector32 disk second s.global_buffer 58 second-superblock (omega arith),
        )
        refl

  -- The bytes of the three regions, and those outside them.
  third-at :
      (a : ℕ)
      → third a ≡ (
          if leb (s.global_buffer + 2048) a && ltb a (s.global_buffer + 2048 + 512)
          then disk.content (sector32 disk 58) (a - (s.global_buffer + 2048))
          else second a)
  unfolding third
  third-at a = disk.read_sector_lem _ _ _ a

  second-at :
      (a : ℕ)
      → second a ≡ (
          if leb (s.global_buffer + 512) a && ltb a (s.global_buffer + 512 + 512)
          then disk.content (sector32 disk 42) (a - (s.global_buffer + 512))
          else first a)
  unfolding second
  second-at a = disk.read_sector_lem _ _ _ a

  first-at :
      (a : ℕ)
      → first a ≡ (
          if leb s.global_buffer a && ltb a (s.global_buffer + 512)
          then disk.content 0 (a - s.global_buffer)
          else s.memory a)
  unfolding first
  first-at a = disk.read_sector_lem _ _ _ a

  third-table :
      (i : ℕ) → i < 512 → third (s.global_buffer + 2048 + i) ≡ disk.content (sector32 disk 58) i
  third-table i lt = ground (arith, third-at (s.global_buffer + 2048 + i), back i)
    where
      back : (i : ℕ) → s.global_buffer + 2048 + i - (s.global_buffer + 2048) ≡ i
      back i = omega arith

  third-bitmap :
      (i : ℕ) → i < 512 → third (s.global_buffer + 512 + i) ≡ disk.content (sector32 disk 42) i
  third-bitmap i lt =
      ground
        (arith, third-at (s.global_buffer + 512 + i), second-at (s.global_buffer + 512 + i), back i)
    where
      back : (i : ℕ) → s.global_buffer + 512 + i - (s.global_buffer + 512) ≡ i
      back i = omega arith

  third-rest : (a : ℕ) → (a < s.global_buffer) ⊎ (s.global_buffer + 2560 ≤ a) → third a ≡ s.memory a
  third-rest a out = ground (arith, third-at a, second-at a, first-at a)

  second-eq :
      disk.read_sector (load32 first (s.global_buffer + 42)) (s.global_buffer + 512) first ≡ second
  unfolding second
  second-eq = rw (load-sector32 disk first s.global_buffer 42 first-superblock (omega arith)) refl

  third-eq :
      disk.read_sector (load32 second (s.global_buffer + 58)) (s.global_buffer + 2048) second
      ≡ third
  unfolding third
  third-eq = rw (load-sector32 disk second s.global_buffer 58 second-superblock (omega arith)) refl

  init-counts :
      ((files_system_init disk s).inode_bitmap.count ≡ sector32 disk 62)
      × ((files_system_init disk s).inode_table.inode_count ≡ sector32 disk 62)
  unfolding files_system_init first
  init-counts = (
    ap (λ (m : Memory). load32 m (s.global_buffer + 62)) second-eq
        ∙ load-sector32 disk second s.global_buffer 62 second-superblock (omega arith),
    ap (λ (m : Memory). load32 m (s.global_buffer + 62))
          (ap
              (λ (m : Memory).
                disk.read_sector (load32 m (s.global_buffer + 58)) (s.global_buffer + 2048) m)
              second-eq
            ∙ third-eq)
        ∙ load-sector32 disk third s.global_buffer 62 third-superblock (omega arith),
  )

-- After `files_system_init`, from the numbers in sector 0: the superblock, one sector of the inode
-- bitmap and one of the inode table (eight inodes) stand in the buffer, with the counts and pointers
-- set accordingly; each of the 50 descriptors is unused; every other byte of memory, the rest of the table
-- included, is as it was before.
pub files_system_init-Loaded : (disk : Disk) (s : Fs) → Loaded disk s (files_system_init disk s)
files_system_init-Loaded disk s = record {
  superblock = unfold files_system_init in refl;
  bitmap_count = (init-counts disk s).0;
  table_count = (init-counts disk s).1;
  bitmap_bits = unfold files_system_init in refl;
  table_inodes = unfold files_system_init in refl;
  superblock_bytes = rw (init-memory disk s) (third-superblock disk s);
  bitmap_bytes = rw (init-memory disk s) (third-bitmap disk s);
  table_bytes = rw (init-memory disk s) (third-table disk s);
  rest = rw (init-memory disk s) (third-rest disk s);
  table = unfold files_system_init in refl;
  descriptors = λ fd h.
      descriptor-table (files_system_init disk s) fd h
      ∙ (unfold files_system_init in get_or-replicate 50 fd unused);
}

-- With blocks of 512 bytes `get_block_from_offset` returns the block of the descriptor's offset for
-- the blocks 0 to 3 and 5 to 1151; for block 4, the first behind the direct pointers, and from 1152
-- on it returns -1.
pub get_block_from_offset_lem :
    (s : Fs) (fd : ℕ)
    → block_size s.memory s.superblock ≡ 512
    → let block = (descriptor s fd).offset / 512 in
      get_block_from_offset s fd
      ≡ (if block == 4 then minus_one else if ltb block 1152 then pos block else minus_one)
unfolding get_block_from_offset
get_block_from_offset_lem s fd e = rw e (ground arith)
