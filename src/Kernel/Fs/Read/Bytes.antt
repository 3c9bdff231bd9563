-- ===== src/Kernel/Fs/Read/Bytes.antt =====
-- The bytes that `file_read` delivers of a file's first four blocks.
use rathal_os.Prelude.{
  ℕ, zero, suc, ◌+◌, ◌-◌, ◌*◌, ◌%◌, ◌/◌, ◌<◌, ◌≤◌, ◌≡◌, ◌≢◌, refl, arith, ltb, leb, ◌&&◌,
  if◌then◌else◌, ◌⊎◌, pos, ap, ap₂, ◌∙◌, sym,
}
use native.Mathlib.Decide.{dec_lt}
use rathal_os.Memory.{Memory}
use rathal_os.Common.Inode.{direct_ptr}
use rathal_os.Kernel.Disk.{Disk}
use rathal_os.Kernel.Fs.{Fs, FileOpen, descriptor, descriptor-table, datablocks_start}
use rathal_os.Kernel.Fs.Read.{
  Locals, descriptor_inode, read_block, read_loop, file_read, read_all, read_all-at, file_read_open,
  loop_end,
}

module _ (disk : Disk) (data_start inode : ℕ) where
  -- One round on a direct block.
  read_block_direct :
      (buf : ℕ) (l : Locals)
      → l.block < 4
      → read_block disk data_start (λ m. inode) buf l ≡ record l {
        memory = disk.read_sector (data_start + direct_ptr l.memory inode l.block) buf l.memory;
        data_block = direct_ptr l.memory inode l.block;
        block = l.block + 1;
      }
  unfolding read_block
  read_block_direct buf l h = ground arith

  -- The locals after a round on a direct block.
  after_direct : ℕ → Locals → Locals
  after_direct buf l = record l {
    memory = disk.read_sector (data_start + direct_ptr l.memory inode l.block) buf l.memory;
    data_block = direct_ptr l.memory inode l.block;
    block = l.block + 1;
  }

  read_loop_step :
      (rounds buf : ℕ) (l : Locals) (a : ℕ)
      → l.block < 4
      → (read_loop disk data_start (λ m. inode) (suc rounds) buf l).memory a
        ≡ (read_loop disk data_start (λ m. inode) rounds (buf + 512) (after_direct buf l)).memory a
  unfolding read_loop after_direct
  read_loop_step rounds buf l a h =
      ap (λ (k : Locals). (read_loop disk data_start (λ m. inode) rounds (buf + 512) k).memory a)
        (read_block_direct buf l h)

  after_direct-at :
      (buf : ℕ) (l : Locals) (a : ℕ)
      → (after_direct buf l).memory a ≡ (
          if leb buf a && ltb a (buf + 512)
          then disk.content (data_start + direct_ptr l.memory inode l.block) (a - buf)
          else l.memory a)
  unfolding after_direct
  after_direct-at buf l a =
      disk.read_sector_lem (data_start + direct_ptr l.memory inode l.block) buf l.memory a

  after_direct-block : (buf : ℕ) (l : Locals) → (after_direct buf l).block ≡ l.block + 1
  unfolding after_direct
  after_direct-block buf l = refl

  -- Direct rounds touch `512 * rounds` bytes at `buf`.
  pub read_loop-outside :
      (rounds buf : ℕ) (l : Locals) (a : ℕ)
      → l.block + rounds ≤ 4
      → (a < buf) ⊎ (buf + 512 * rounds ≤ a)
      → (read_loop disk data_start (λ m. inode) rounds buf l).memory a ≡ l.memory a
  unfolding read_loop
  read_loop-outside zero buf l a h out = refl
  read_loop-outside (suc rounds) buf l a h out =
      read_loop_step rounds buf l a (omega arith)
      ∙ read_loop-outside rounds (buf + 512) (after_direct buf l) a
          (omega (arith, after_direct-block buf l)) (omega arith)
      ∙ ground (arith, after_direct-at buf l a)

  -- The pointers of an inode that the round does not overwrite.
  after_direct-ptr :
      (buf : ℕ) (l : Locals) (t : ℕ)
      → t < 4
      → (inode + 64 ≤ buf) ⊎ (buf + 512 ≤ inode)
      → direct_ptr (after_direct buf l).memory inode t ≡ direct_ptr l.memory inode t
  after_direct-ptr buf l t h out = omega (
    arith,
    at_same (inode + 38 + 2 * t) (omega arith) (omega arith),
    at_same (inode + 38 + 2 * t + 1) (omega arith) (omega arith),
  )
    where
      at_same : (a : ℕ) → inode ≤ a → a < inode + 64 → (after_direct buf l).memory a ≡ l.memory a
      at_same a lo hi = ground (arith, after_direct-at buf l a)

  -- And fill them with the sectors of the blocks, if the inode is not among them.
  pub read_loop-inside :
      (rounds buf : ℕ) (l : Locals) (i : ℕ)
      → l.block + rounds ≤ 4
      → (inode + 64 ≤ buf) ⊎ (buf + 512 * rounds ≤ inode)
      → i < 512 * rounds
      → (read_loop disk data_start (λ m. inode) rounds buf l).memory (buf + i)
        ≡ disk.content (data_start + direct_ptr l.memory inode (l.block + i / 512)) (i % 512)
  read_loop-inside zero buf l i h out lt = absurd (omega arith)
  read_loop-inside (suc rounds) buf l i h out lt =
      read_loop_step rounds buf l (buf + i) (omega arith) ∙ elim (dec_lt i 512) [
        | yes first ↦
            read_loop-outside rounds (buf + 512) (after_direct buf l) (buf + i)
              (omega (arith, after_direct-block buf l)) (omega arith)
            ∙ ground (arith, after_direct-at buf l (buf + i))
            ∙ ap₂ (λ (b c : ℕ). disk.content (data_start + direct_ptr l.memory inode b) c)
                {x = l.block} {y = l.block + i / 512} {u = i} {v = i % 512} (omega arith)
                (omega arith)
        | no later ↦
            ap
              (read_loop disk data_start (λ m. inode) rounds (buf + 512)
                (after_direct buf l)).memory
              {x = buf + i} {y = buf + 512 + (i - 512)} (omega arith)
            ∙ read_loop-inside rounds (buf + 512) (after_direct buf l) (i - 512)
                (omega (arith, after_direct-block buf l)) (omega arith) (omega arith)
            ∙ ap₂ (λ (b c : ℕ). disk.content (data_start + b) c)
                (ap (λ (t : ℕ). direct_ptr (after_direct buf l).memory inode t)
                    {x = (after_direct buf l).block + (i - 512) / 512} {y = l.block + i / 512}
                    (omega (arith, after_direct-block buf l))
                  ∙ after_direct-ptr buf l (l.block + i / 512) (omega arith) (omega arith))
                (omega arith)
      ]

-- An entry of the table stays the same while memory changes.
descriptor_inode_const :
    (s : Fs) (fd : ℕ) → fd < 50 → descriptor_inode s fd ≡ (λ (m : Memory). (descriptor s fd).inode)
descriptor_inode_const s fd h = λ i m.
    (ap (λ (x : FileOpen). x.inode) (descriptor-table (record s { memory = m }) fd h)
        ∙ sym (ap (λ (x : FileOpen). x.inode) (descriptor-table s fd h)))
      i

loop_end-inside :
    (disk : Disk) (garbage : ℕ) (s : Fs) (fd buf count i : ℕ)
    → fd < 50
    → count < 2048
    → ((descriptor s fd).inode + 64 ≤ buf)
      ⊎ (buf + 512 * (count / 512 + 1) ≤ (descriptor s fd).inode)
    → i < 512 * (count / 512 + 1)
    → (loop_end disk garbage s fd buf count).memory (buf + i)
      ≡ disk.content
          (datablocks_start s.memory s.superblock
            + direct_ptr s.memory (descriptor s fd).inode (i / 512))
          (i % 512)
unfolding loop_end
loop_end-inside disk garbage s fd buf count i in_table small apart h =
    ap
      (λ (inode : Memory → ℕ).
        (read_loop disk (datablocks_start s.memory s.superblock) inode (count / 512 + 1) buf
            (record {
              memory = s.memory;
              block = 0;
              data_block = 0;
              adress_in_indirect_block = garbage;
            })).memory
          (buf + i))
      {x = descriptor_inode s fd} {y = λ m. (descriptor s fd).inode}
      (descriptor_inode_const s fd in_table)
    ∙ read_loop-inside disk (datablocks_start s.memory s.superblock) (descriptor s fd).inode
        (count / 512 + 1) buf _ i (omega arith) apart h
    ∙ ap
        (λ (b : ℕ).
          disk.content
            (datablocks_start s.memory s.superblock + direct_ptr s.memory (descriptor s fd).inode b)
            (i % 512))
        {x = 0 + i / 512} {y = i / 512} (omega arith)

-- `file_read` on an open descriptor below 50 of fewer than 2048 bytes, into a buffer that the sectors read do
-- not push over the inode: it returns `count`, and each byte of the sectors covering the request,
-- from the start of the file on, comes from the data block that the inode's direct pointers give.
pub file_read-direct :
    (disk : Disk) (garbage : ℕ) (s : Fs) (fd buf count i : ℕ)
    → (descriptor s fd).status ≢ 0
    → fd < 50
    → count < 2048
    → ((descriptor s fd).inode + 64 ≤ buf)
      ⊎ (buf + 512 * (count / 512 + 1) ≤ (descriptor s fd).inode)
    → i < 512 * (count / 512 + 1)
    → let (s', r) = file_read disk garbage s fd buf count in
      (r ≡ pos count)
      × (s'.memory (buf + i)
          ≡ disk.content
              (datablocks_start s.memory s.superblock
                + direct_ptr s.memory (descriptor s fd).inode (i / 512))
              (i % 512))
file_read-direct disk garbage s fd buf count i used in_table small apart h =
    rw (file_read_open disk garbage s fd buf count used) (result, inside)
  where
    result : (read_all disk garbage s fd buf count).1 ≡ pos count
    result = unfold read_all in refl

    inside :
        (read_all disk garbage s fd buf count).0.memory (buf + i)
        ≡ disk.content
            (datablocks_start s.memory s.superblock
              + direct_ptr s.memory (descriptor s fd).inode (i / 512))
            (i % 512)
    inside =
        ground (arith, read_all-at disk garbage s fd buf count (buf + i))
        ∙ loop_end-inside disk garbage s fd buf count i in_table small apart h
