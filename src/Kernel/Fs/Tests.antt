-- ===== src/Kernel/Fs/Tests.antt =====
-- A buffer at 0 with four inodes: inode 2 is the file "ab", inode 3 the file "cd".
use rathal_os.Prelude.{
  ℕ, zero, suc, ◌<◌, ◌≡◌, ◌≢◌, refl, arith, [], ◌∷◌, pos, if◌then◌else◌, ltb, ◌+◌, ◌*◌, ◌/◌, ◌%◌,
  ◌-◌, some, true, false, replicate, inl, inr, ◌⊎◌, leb, ◌&&◌,
}
use rathal_os.Memory.{Memory, IsBytes, place, zeros, place-IsBytes}
use rathal_os.Common.Func.{strncmp, memset}
use rathal_os.Common.Bitmap.{bitmap_set}
use rathal_os.Common.Inode.{number, inode_get_from_filename, inode_get_next}
use rathal_os.Kernel.Disk.{Disk}
use rathal_os.Kernel.Fs.{
  Fs, unused, find, file_exists, file_remove, file_open, file_seek, file_has_next, file_next,
  file_iterator, files_system_init,
}
use rathal_os.Kernel.Fs.Init.{Loaded, files_system_init-Loaded}
use rathal_os.Kernel.Fs.Table.{IsLaidOut}
use rathal_os.Kernel.Fs.Remove.{Removal, file_remove-Removal, file_remove-gone}
use rathal_os.Kernel.Fs.Open.{Opened, file_open-Opened}
use rathal_os.Kernel.Fs.Iterator.{IsAt, next_times, iterator_never_ends}
use rathal_os.Kernel.Fs.Read.{read_block, file_read}
use rathal_os.Kernel.Fs.Read.Bytes.{file_read-direct}
use rathal_os.Kernel.Fs.Read.Flaws.{file_read_overruns, file_read_ignores_seek}

-- The superblock's block size is 512 and its data blocks start at 20. The names "ab" and "no" are at
-- 5000 and 5100.
abbrev pub names : Memory
names = place 5000 (b'a' ∷ b'b' ∷ []) (place 5100 (b'n' ∷ b'o' ∷ []) zeros)

abbrev pub blocks : Memory
blocks = place 512 (13 ∷ []) (place 38 (0 ∷ 2 ∷ []) (place 70 (20 ∷ []) names))

abbrev pub start : Memory
start =
    place 2176 (2 ∷ 0 ∷ b'a' ∷ b'b' ∷ [])
      (place 2214 (7 ∷ 0 ∷ 9 ∷ []) (place 2240 (3 ∷ 0 ∷ b'c' ∷ b'd' ∷ []) blocks))

names-IsBytes : IsBytes names
names-IsBytes =
    place-IsBytes 5000 (b'a' ∷ b'b' ∷ []) (place 5100 (b'n' ∷ b'o' ∷ []) zeros) (omega arith)
      (place-IsBytes 5100 (b'n' ∷ b'o' ∷ []) zeros (omega arith) (λ a. omega arith))

blocks-IsBytes : IsBytes blocks
blocks-IsBytes =
    place-IsBytes 512 (13 ∷ []) (place 38 (0 ∷ 2 ∷ []) (place 70 (20 ∷ []) names)) (omega arith) (
      place-IsBytes 38 (0 ∷ 2 ∷ []) (place 70 (20 ∷ []) names) (omega arith)
        (place-IsBytes 70 (20 ∷ []) names (omega arith) names-IsBytes))

pub start-IsBytes : IsBytes start
start-IsBytes =
    place-IsBytes 2176 (2 ∷ 0 ∷ b'a' ∷ b'b' ∷ [])
      (place 2214 (7 ∷ 0 ∷ 9 ∷ []) (place 2240 (3 ∷ 0 ∷ b'c' ∷ b'd' ∷ []) blocks)) (omega arith)
      (place-IsBytes 2214 (7 ∷ 0 ∷ 9 ∷ []) (place 2240 (3 ∷ 0 ∷ b'c' ∷ b'd' ∷ []) blocks)
        (omega arith)
        (place-IsBytes 2240 (3 ∷ 0 ∷ b'c' ∷ b'd' ∷ []) blocks (omega arith) blocks-IsBytes))

abbrev pub files : Fs
files = record {
  memory = start;
  global_buffer = 0;
  superblock = 0;
  inode_bitmap = record { count = 4; size = 1; bits = 512 };
  inode_table = record { inode_count = 4; size = 256; inodes = 2048 };
  file_descriptor_tab = replicate 50 unused;
  tab_address = 100000;
}

-- "ab" is open on descriptor 0.
abbrev opened_files : Fs
opened_files = record files {
  file_descriptor_tab = record { inode = 2176; status = 1; offset = 0 } ∷ replicate 49 unused;
}

files-numbered :
    (k : ℕ) → k < 4 → (number start (2048 + 64 * k) ≡ 0) ⊎ (number start (2048 + 64 * k) ≡ k)
files-numbered zero h = inl refl
files-numbered (suc zero) h = inl refl
files-numbered (suc (suc zero)) h = inr refl
files-numbered (suc (suc (suc zero))) h = inr refl
files-numbered (suc (suc (suc (suc k)))) h = absurd (omega arith)

files-IsLaidOut : IsLaidOut files
files-IsLaidOut = record {
  bitmap = omega arith;
  counts = refl;
  apart = omega arith;
  small = omega arith;
  numbered = files-numbered;
}

-- A disk whose byte `i` of sector `n` is `n + i`.
abbrev pub pattern_disk : Disk
pattern_disk = record {
  content = λ sector i. (sector + i) % 256;
  read_sector =
      λ sector dst m a. if leb dst a && ltb a (dst + 512) then (sector + (a - dst)) % 256 else m a;
  read_sector_lem = λ sector dst m a. refl;
  content_lt = λ sector i. omega arith;
}

opens : (file_open files 5000).1 ≡ pos 0
unfolding file_open inode_get_from_filename strncmp
opens = refl

removes :
    ((file_remove files 5000).1 ≡ 0)
    × (file_exists (file_remove files 5000).0 5000 ≡ false)
    × ((file_remove files 5100).1 ≡ 1)
unfolding file_remove file_exists inode_get_from_filename strncmp bitmap_set memset
removes = (refl, refl, refl)

lists :
    (file_has_next files (file_iterator files) ≡ true)
    × ((file_next files 6000 (file_iterator files)).1 ≡ 2176)
    × ((file_next files 6000 2176).1 ≡ 2176)
unfolding file_has_next file_next file_iterator inode_get_next
lists = (refl, refl, refl)

reads : (file_read pattern_disk 0 opened_files 0 8000 3).0.memory 8002 ≡ 29
unfolding file_read read_block
reads = refl

file_remove-Removal_example :
    Removal files 5000 (file_remove files 5000).0 (file_remove files 5000).1
file_remove-Removal_example = file_remove-Removal files 5000 files-IsLaidOut start-IsBytes

file_open-Opened_example : Opened files 5000 (file_open files 5000).0 (file_open files 5000).1
file_open-Opened_example = file_open-Opened files 5000

-- "ab" is removed: not even a search for "no" finds its inode.
file_remove-gone_example :
    IsLaidOut (file_remove files 5000).0 × (find (file_remove files 5000).0 5100 ≢ some 2176)
unfolding inode_get_from_filename strncmp
file_remove-gone_example = file_remove-gone files 5000 2176 5100 files-IsLaidOut start-IsBytes refl

files-IsAt : IsAt files 2
files-IsAt = record {
  inside = omega arith;
  small = omega arith;
  positive = omega arith;
  numbered = refl;
}

iterator_never_ends_example :
    ((next_times 10 files 6000 2176).1 ≡ 2176)
    × (file_has_next (next_times 10 files 6000 2176).0 (next_times 10 files 6000 2176).1 ≡ true)
iterator_never_ends_example = iterator_never_ends 10 files 6000 2 (inr (omega arith)) files-IsAt

files_system_init-Loaded_example : Loaded pattern_disk files (files_system_init pattern_disk files)
files_system_init-Loaded_example = files_system_init-Loaded pattern_disk files

file_read-direct_example :
    ((file_read pattern_disk 0 opened_files 0 8000 600).1 ≡ pos 600)
    × ((file_read pattern_disk 0 opened_files 0 8000 600).0.memory (8000 + 513) ≡ 30)
file_read-direct_example =
    file_read-direct pattern_disk 0 opened_files 0 8000 600 513 (λ e. omega arith) (omega arith)
      (omega arith) (inl (omega arith)) (omega arith)

file_read_overruns_example :
    (3 < 512 * (3 / 512 + 1))
    × ((sector : ℕ) × ((i : ℕ)
          → i < 512
          → (file_read pattern_disk 0 opened_files 0 8000 3).0.memory
              (8000 + 512 * (3 / 512 + 1) + i)
            ≡ pattern_disk.content sector i))
file_read_overruns_example =
    file_read_overruns pattern_disk 0 opened_files 0 8000 3 (λ e. omega arith)

file_read_ignores_seek_example :
    let sought = (file_seek opened_files 0 512).0 in
    ((file_read pattern_disk 0 sought 0 8000 3).0.memory
      ≡ (file_read pattern_disk 0 opened_files 0 8000 3).0.memory)
    × ((file_read pattern_disk 0 sought 0 8000 3).1
        ≡ (file_read pattern_disk 0 opened_files 0 8000 3).1)
file_read_ignores_seek_example =
    file_read_ignores_seek pattern_disk 0 opened_files 0 8000 3 512 (omega arith) (omega arith)
