-- ===== src/Tools/Fs/Content.antt =====
-- The contents of a file of an image, and what `fs_read` delivers of them.
use native.Mathlib.Nat.{
  mod-add-div, add-mul-div_left, div-eq_of_lt, add-mul-mod_self_left, mod-eq_of_lt,
  div-lt_iff_lt-mul, add-mul,
}
use native.Mathlib.Decide.{dec_lt}
use rathal_os.Prelude.{
  ℕ, ◌+◌, ◌-◌, ◌*◌, ◌/◌, ◌%◌, ◌<◌, ◌≤◌, ◌≡◌, ◌≢◌, arith, Option, some, ◌>>=◌, pos, if◌then◌else◌,
  leb, ltb, ◌&&◌, ap, ap₂, ◌∙◌, true, false, ◌⊎◌,
}
use rathal_os.Memory.{Memory, load16}
use rathal_os.Common.Func.{memcpy}
use rathal_os.Common.Func.Blocks.{memcpy_inside, memcpy_outside}
use rathal_os.Common.Inode.{direct_ptr, indirect_ptr}
use rathal_os.Tools.Image.{File, fread, fseek}
use rathal_os.Tools.Image.Access.{fread-at}
use rathal_os.Tools.Blocks.{block_offset}
use rathal_os.Tools.Fs.{data_block, copy_part}
use rathal_os.Tools.Fs.Offset.{nth_block, block_read_lem}

-- Byte `o` of the file whose inode is at `inode`: byte `o % bs` of its block `o / bs`.
abbrev pub file_byte : ℕ → ℕ → ℕ → File → Memory → ℕ → ℕ → ℕ
file_byte bs w datablocks_start f m inode o = f.content (
    block_offset bs
      (data_block datablocks_start (pos (nth_block bs w datablocks_start f m inode (o / bs))))
    + o % bs)

-- Offsets within a block.
pub same_block :
    (bs o k : ℕ) → 0 < bs → o % bs + k < bs → ((o + k) / bs ≡ o / bs) × ((o + k) % bs ≡ o % bs + k)
same_block bs o k hb h =
    let split : o + k ≡ o % bs + k + bs * (o / bs) = omega (arith, mod-add-div o bs) in
    (
      ap (λ (x : ℕ). x / bs) split
          ∙ add-mul-div_left (o % bs + k) (o / bs) {y = bs} hb
          ∙ ap (λ (x : ℕ). x + o / bs) (div-eq_of_lt {n = o % bs + k} {m = bs} h)
          ∙ omega arith,
      ap (λ (x : ℕ). x % bs) split
          ∙ add-mul-mod_self_left (o % bs + k) bs (o / bs)
          ∙ mod-eq_of_lt {n = o % bs + k} {m = bs} h,
    )

-- The blocks of memory `[a, a + n)` and `[b, b + k)` do not meet.
abbrev pub Apart : ℕ → ℕ → ℕ → ℕ → Type 0
Apart a n b k = (a + n ≤ b) ⊎ (b + k ≤ a)

-- What copying `n` bytes of a block leaves: the bytes at `dst`, the block in the buffer.
pub record Copied (bs start buf r n dst : ℕ) (f : File) (m m' : Memory) : Type 0 where
  pub bytes : (k : ℕ) → k < n → m' (dst + k) ≡ f.content (start + (r + k))
  pub others : (a : ℕ) → (a < dst) ⊎ (dst + n ≤ a) → (a < buf) ⊎ (buf + bs ≤ a) → m' a ≡ m a

pub copy_part-Copied :
    (bs block buf o n dest dest_offset : ℕ) (f : File) (m : Memory)
    → bs ≢ 0
    → block ≢ 0
    → block_offset bs block + bs ≤ f.size
    → o % bs + n ≤ bs
    → Apart (dest + dest_offset) n buf bs
    → (m' : Memory) × (copy_part bs block buf o n dest dest_offset f m ≡ some m')
      × Copied bs (block_offset bs block) buf (o % bs) n (dest + dest_offset) f m m'
unfolding copy_part
copy_part-Copied bs block buf o n dest dest_offset f m hb hk holds fits apart =
    let start = block_offset bs block in
    let read = fread (fseek start f) buf bs m in
    let dst = dest + dest_offset in
    (
      memcpy read dst (buf + o % bs) n,
      ap (λ (r : Option Memory). r >>= λ m'. some (memcpy m' (dest + dest_offset) (buf + o % bs) n))
          (block_read_lem bs block buf f m hb hk),
      record {
        bytes = λ k lt.
            memcpy_inside read dst (buf + o % bs) n k (omega arith) lt
            ∙ fread-at f start buf bs (buf + o % bs + k) m holds
            ∙ inside k lt (f.content _) (m (buf + o % bs + k))
            ∙ ap f.content {x = start + (buf + o % bs + k - buf)} {y = start + (o % bs + k)}
                (omega arith);
        others = λ a out out2.
            memcpy_outside read dst (buf + o % bs) n a out
            ∙ fread-at f start buf bs a m holds
            ∙ outside a out2 (f.content _) (m a);
      },
    )
  where
    inside :
        (k : ℕ)
        → k < n
        → (x y : ℕ)
        → (if leb buf (buf + o % bs + k) && ltb (buf + o % bs + k) (buf + bs) then x else y) ≡ x
    inside k lt x y = ground arith

    outside :
        (a : ℕ)
        → (a < buf) ⊎ (buf + bs ≤ a)
        → (x y : ℕ) → (if leb buf a && ltb a (buf + bs) then x else y) ≡ y
    outside a out x y = ground arith

-- Memory agrees with `m0` on the inode.
abbrev pub SameInode : ℕ → Memory → Memory → Type 0
SameInode inode m0 m = (i : ℕ) → i < 64 → m (inode + i) ≡ m0 (inode + i)

same_word :
    (inode i a : ℕ) (m0 m : Memory)
    → SameInode inode m0 m
    → inode + i ≡ a
    → i < 63
    → load16 m a ≡ load16 m0 a
same_word inode i a m0 m same e lt =
    ap₂ (λ (x y : ℕ). x + 256 * y)
      (ap m {x = a} {y = inode + i} (omega arith)
        ∙ same i (omega arith)
        ∙ ap m0 {x = inode + i} {y = a} e)
      (ap m {x = a + 1} {y = inode + (i + 1)} (omega arith)
        ∙ same (i + 1) (omega arith)
        ∙ ap m0 {x = inode + (i + 1)} {y = a + 1} (omega arith))

same_direct :
    (inode q : ℕ) (m0 m : Memory)
    → SameInode inode m0 m
    → q < 4
    → direct_ptr m inode q ≡ direct_ptr m0 inode q
same_direct inode q m0 m same lt =
    same_word inode (38 + 2 * q) (inode + 38 + 2 * q) m0 m same (omega arith) (omega arith)

pub same_indirect :
    (inode i : ℕ) (m0 m : Memory)
    → SameInode inode m0 m
    → i < 9
    → indirect_ptr m inode i ≡ indirect_ptr m0 inode i
same_indirect inode i m0 m same lt =
    same_word inode (46 + 2 * i) (inode + 46 + 2 * i) m0 m same (omega arith) (omega arith)

-- The index of the indirect block of an offset that the pointers cover.
pub indirect_lt : (bs w o : ℕ) → 0 < bs → 0 < w → o < 4 * bs + 9 * w * bs → (o / bs - 4) / w < 9
indirect_lt bs w o hb hw h =
    let blocks = div-lt_iff_lt-mul {k = bs} {x = o} {y = 4 + 9 * w} hb in
    let q : o / bs < 4 + 9 * w = blocks.1 (omega (arith, h, distribute)) in
    let r = div-lt_iff_lt-mul {k = w} {x = o / bs - 4} {y = 9} hw in r.1 (omega (arith, q, hw))
  where
    distribute : (4 + 9 * w) * bs ≡ 4 * bs + 9 * w * bs
    distribute = add-mul 4 (9 * w) bs

pub same_nth_block :
    (bs w datablocks_start inode o : ℕ) (f : File) (m0 m : Memory)
    → 0 < bs
    → 0 < w
    → SameInode inode m0 m
    → o < 4 * bs + 9 * w * bs
    → nth_block bs w datablocks_start f m inode (o / bs)
      ≡ nth_block bs w datablocks_start f m0 inode (o / bs)
same_nth_block bs w datablocks_start inode o f m0 m hb hw same h = elim (dec_lt (o / bs) 4) [
  | yes low ↦
      let test : ltb (o / bs) 4 ≡ true = ground arith in
      rw test (same_direct inode (o / bs) m0 m same low)
  | no high ↦
      let test : ltb (o / bs) 4 ≡ false = ground arith in
      rw test (
        ap
          (λ (p : ℕ).
            load16 f.content
              (block_offset bs (data_block datablocks_start (pos p)) + 2 * ((o / bs - 4) % w)))
          (same_indirect inode ((o / bs - 4) / w) m0 m same (indirect_lt bs w o hb hw h)))
]
