-- ===== src/Kernel/Fs/Read.antt =====
-- `file_read` of kernel/fs/fs.c.
pub mod Bytes
pub mod Flaws
use rathal_os.Prelude.{
  ℕ, zero, suc, ◌+◌, ◌-◌, ◌*◌, ◌%◌, ◌/◌, ◌^◌, ◌<◌, ◌≤◌, ◌≡◌, ◌≢◌, refl, arith, Bool, true, false,
  Option, none, some, ◌==◌, ltb, leb, ◌&&◌, if◌then◌else◌, Bool-cases, inl, inr, ◌⊎◌, ◌↔◌, ℤ, pos,
  minus_one, List, length, set, get_or, get_or-set_self, get_or-set_ne, length-set, ap, sym, ◌∙◌,
  Option-cases, replicate,
}
use native.Mathlib.Decide.{dec_lt, ℕ_discrete}
use rathal_os.Memory.{Memory, IsBytes, load16, load32}
use rathal_os.Common.Inode.{inode_direct_ptr_cnt, inode_indirect_ptr_cnt, direct_ptr, indirect_ptr}
use rathal_os.Kernel.Disk.{Disk, sector_size}
use rathal_os.Kernel.Fs.{Fs, descriptor, datablocks_start}

-- The locals of `file_read` that change in its loop, and the memory.
pub record Locals : Type 0 where
  pub memory : Memory
  pub block : ℕ
  pub data_block : ℕ
  pub adress_in_indirect_block : ℕ

-- `block_adresses_per_block`
abbrev pub adresses_per_block : ℕ
adresses_per_block = sector_size / 2

-- `inode` stands for `file_descriptor_tab[fd].inode`, which each round reads.
module _ (disk : Disk) (data_start : ℕ) (inode : Memory → ℕ) where
  -- One round of the loop, which reads a sector to `buf`.
  unfoldable pub read_block : ℕ → Locals → Locals
  read_block buf l =
      if ltb l.block inode_direct_ptr_cnt
      then (let data_block = direct_ptr l.memory (inode l.memory) l.block in
          record l {
            memory = disk.read_sector (data_start + data_block) buf l.memory;
            data_block = data_block;
            block = l.block + 1;
          })
      else (if ltb l.block (inode_indirect_ptr_cnt * adresses_per_block)
          then (let block = l.block - inode_direct_ptr_cnt in
              let adress_block =
                indirect_ptr l.memory (inode l.memory) (block / adresses_per_block) in
              let adress = 2 * (block % adresses_per_block) in
              record l {
                memory = disk.read_sector (data_start + (adress_block + adress) + 1) buf l.memory;
                adress_in_indirect_block = adress;
                block = l.block + 1;
              })
          else record l { block = l.block + 1 })

  -- `rounds` rounds; the buffer pointer advances by a sector in each.
  unfoldable pub read_loop : ℕ → ℕ → Locals → Locals
  read_loop zero buf l = l
  read_loop (suc rounds) buf l = read_loop rounds (buf + sector_size) (read_block buf l)

-- The inode of descriptor `fd` when memory is `m`.
abbrev pub descriptor_inode : Fs → ℕ → Memory → ℕ
descriptor_inode s fd m = (descriptor (record s { memory = m }) fd).inode

-- The do-while loop makes `count / 512 + 1` rounds from block 0 on. `garbage` is what the local
-- `adress_in_indirect_block` holds at the start, which the code does not set; `data_block` is set in
-- the first round.
unfoldable pub loop_end : Disk → ℕ → Fs → ℕ → ℕ → ℕ → Locals
unfolding read_loop
loop_end disk garbage s fd buf count =
    read_loop disk (datablocks_start s.memory s.superblock) (descriptor_inode s fd)
      (count / sector_size + 1) buf
      (record { memory = s.memory; block = 0; data_block = 0; adress_in_indirect_block = garbage })

-- Behind the loop one more sector is read, to where the buffer pointer then stands.
unfoldable pub read_all : Disk → ℕ → Fs → ℕ → ℕ → ℕ → Fs × ℤ
unfolding loop_end
read_all disk garbage s fd buf count =
    let l = loop_end disk garbage s fd buf count in
    let data_start = datablocks_start s.memory s.superblock in
    (
      record s {
        memory =
            disk.read_sector (data_start + (l.data_block + l.adress_in_indirect_block))
              (buf + sector_size * (count / sector_size + 1)) l.memory;
      },
      pos count,
    )

-- `block >= 0` always holds, since `block` is 0.
unfoldable pub file_read : Disk → ℕ → Fs → ℕ → ℕ → ℕ → Fs × ℤ
unfolding read_all
file_read disk garbage s fd buf count =
    if ltb (descriptor s fd).status 1 then (s, minus_one) else read_all disk garbage s fd buf count

-- On an open descriptor: the loop, and the sector behind it.
pub file_read_open :
    (disk : Disk) (garbage : ℕ) (s : Fs) (fd buf count : ℕ)
    → (descriptor s fd).status ≢ 0
    → file_read disk garbage s fd buf count ≡ read_all disk garbage s fd buf count
unfolding file_read
file_read_open disk garbage s fd buf count used = rw closed refl
  where
    closed : ltb (descriptor s fd).status 1 ≡ false
    closed = ground arith

pub read_all-at :
    (disk : Disk) (garbage : ℕ) (s : Fs) (fd buf count a : ℕ)
    → let l = loop_end disk garbage s fd buf count in
      let past = buf + 512 * (count / 512 + 1) in
      (read_all disk garbage s fd buf count).0.memory a ≡ (
        if leb past a && ltb a (past + 512)
        then disk.content
            (datablocks_start s.memory s.superblock + (l.data_block + l.adress_in_indirect_block))
            (a - past)
        else l.memory a)
unfolding read_all
read_all-at disk garbage s fd buf count a =
    disk.read_sector_lem _ (buf + 512 * (count / 512 + 1)) _ a
