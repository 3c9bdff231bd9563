-- ===== src/Kernel/Fs/Read/Flaws.antt =====
-- Where `file_read` departs from what a reader of a file expects.
use rathal_os.Prelude.{
  ℕ, ◌+◌, ◌-◌, ◌*◌, ◌/◌, ◌<◌, ◌≡◌, ◌≢◌, refl, arith, ◌==◌, ltb, Bool-cases, inl, inr, List, length,
  set, get_or, get_or-set_self, true, ap, sym, ◌∙◌,
}
use rathal_os.Memory.{Memory}
use rathal_os.Kernel.Disk.{Disk}
use rathal_os.Kernel.Fs.{
  Fs, FileOpen, unused, descriptor, descriptor-table, set_offset, datablocks_start, file_seek,
}
use rathal_os.Kernel.Fs.Read.{
  loop_end, file_read, read_all, read_all-at, file_read_open, descriptor_inode, read_loop,
}

-- Whatever `file_read` of an open descriptor is asked for, behind the `count / 512 + 1` sectors,
-- which already cover more than `count` bytes, it writes 512 more bytes: those of some sector.
pub file_read_overruns :
    (disk : Disk) (garbage : ℕ) (s : Fs) (fd buf count : ℕ)
    → (descriptor s fd).status ≢ 0
    → (count < 512 * (count / 512 + 1))
      × ((sector : ℕ) × ((i : ℕ)
            → i < 512
            → (file_read disk garbage s fd buf count).0.memory (buf + 512 * (count / 512 + 1) + i)
              ≡ disk.content sector i))
file_read_overruns disk garbage s fd buf count used = (
  omega arith,
  (
    (let l = loop_end disk garbage s fd buf count in
        datablocks_start s.memory s.superblock + (l.data_block + l.adress_in_indirect_block)),
    λ i h. rw (file_read_open disk garbage s fd buf count used) (
        ground (
          arith,
          read_all-at disk garbage s fd buf count (buf + 512 * (count / 512 + 1) + i),
          shift i,
        )),
  ),
)
  where
    shift : (i : ℕ) → buf + 512 * (count / 512 + 1) + i - (buf + 512 * (count / 512 + 1)) ≡ i
    shift i = omega arith

-- A read from an entry of the table depends on its status and inode, not on the rest of the table.
file_read-same :
    (disk : Disk) (garbage : ℕ) (s : Fs) (tab : List FileOpen) (fd buf count : ℕ)
    → fd < 50
    → (get_or tab fd unused).status ≡ (get_or s.file_descriptor_tab fd unused).status
    → (get_or tab fd unused).inode ≡ (get_or s.file_descriptor_tab fd unused).inode
    → let t = record s { file_descriptor_tab = tab } in
      ((file_read disk garbage t fd buf count).0.memory
        ≡ (file_read disk garbage s fd buf count).0.memory)
      × ((file_read disk garbage t fd buf count).1 ≡ (file_read disk garbage s fd buf count).1)
unfolding file_read read_all loop_end
file_read-same disk garbage s tab fd buf count low e i =
    let t : Fs = record s { file_descriptor_tab = tab } in
    let same : (descriptor t fd).status ≡ (descriptor s fd).status =
      ap (λ (x : FileOpen). x.status) (descriptor-table t fd low)
      ∙ e
      ∙ sym (ap (λ (x : FileOpen). x.status) (descriptor-table s fd low)) in
    let inodes : descriptor_inode t fd ≡ descriptor_inode s fd = λ k m.
      (ap (λ (x : FileOpen). x.inode) (descriptor-table (record t { memory = m }) fd low)
          ∙ i
          ∙ sym
              (ap (λ (x : FileOpen). x.inode) (descriptor-table (record s { memory = m }) fd low)))
        k in
    elim (Bool-cases (ltb (descriptor s fd).status 1)) [
      | inl closed ↦ rw (file_read, same, closed) (refl, refl)
      | inr used ↦
          rw (file_read, same, used)
            (
              ap
                  (λ (inode : Memory → ℕ).
                    let start = datablocks_start s.memory s.superblock in
                    let l = read_loop disk start inode (count / 512 + 1) buf (record {
                      memory = s.memory;
                      block = 0;
                      data_block = 0;
                      adress_in_indirect_block = garbage;
                    }) in
                    disk.read_sector (start + (l.data_block + l.adress_in_indirect_block))
                      (buf + 512 * (count / 512 + 1)) l.memory)
                  inodes,
              refl,
            )
    ]

seek-descriptor :
    (s : Fs) (fd offset : ℕ)
    → fd < length s.file_descriptor_tab
    → let entry = get_or s.file_descriptor_tab fd unused in
      let tab = set s.file_descriptor_tab fd (record entry { offset = offset }) in
      ((get_or tab fd unused).status ≡ entry.status) × ((get_or tab fd unused).inode ≡ entry.inode)
seek-descriptor s fd offset h =
    rw
      (get_or-set_self s.file_descriptor_tab fd
        (record (get_or s.file_descriptor_tab fd unused) { offset = offset }) unused h)
      (refl, refl)

-- The offset that `file_seek` sets for a descriptor of the table is not read: with or without the
-- call, `file_read` leaves the same memory and returns the same.
pub file_read_ignores_seek :
    (disk : Disk) (garbage : ℕ) (s : Fs) (fd buf count offset : ℕ)
    → fd < length s.file_descriptor_tab
    → fd < 50
    → let sought = (file_seek s fd offset).0 in
      ((file_read disk garbage sought fd buf count).0.memory
        ≡ (file_read disk garbage s fd buf count).0.memory)
      × ((file_read disk garbage sought fd buf count).1 ≡ (file_read disk garbage s fd buf count).1)
unfolding file_seek set_offset
file_read_ignores_seek disk garbage s fd buf count offset h low =
    let test : ltb fd 50 ≡ true = ground arith in
    elim (Bool-cases ((get_or s.file_descriptor_tab fd unused).status == 1)) [
      | inl e ↦
          rw (file_seek, set_offset, test, e)
            (file_read-same disk garbage s _ fd buf count low (seek-descriptor s fd offset h).0
              (seek-descriptor s fd offset h).1)
      | inr ne ↦ rw (file_seek, test, ne) (refl, refl)
    ]
