-- ===== src/Tools/Fs/Read.antt =====
-- The loop of `fs_read`.
use native.Mathlib.Nat.{mod-lt}
use native.Mathlib.Decide.{dec_lt}
use mathlib.Core.Path.{subst}
use rathal_os.Prelude.{
  ℕ, zero, suc, ◌+◌, ◌-◌, ◌*◌, ◌/◌, ◌%◌, ◌^◌, ◌<◌, ◌≤◌, ◌≡◌, refl, arith, Option, some, ◌>>=◌, ℤ,
  pos, minus_one, if◌then◌else◌, ltb, ◌==◌, ap, ap₂, ◌∙◌, sym, true, false, ◌⊎◌, Bool, >>=-step,
}
use rathal_os.Memory.{Memory}
use rathal_os.Common.Inode.{indirect_ptr}
use rathal_os.Tools.Image.{File}
use rathal_os.Tools.Blocks.{block_offset}
use rathal_os.Tools.Fs.{
  data_block, fs_offset_to_block, copy_part, part, fs_read_loop, fs_read_inode,
}
use rathal_os.Tools.Fs.Offset.{nth_block, Holds, fs_offset_to_block_lem}
use rathal_os.Tools.Fs.Content.{
  file_byte, same_block, Apart, copy_part-Copied, SameInode, same_indirect, indirect_lt,
  same_nth_block,
}

module _ (bs w datablocks_start local buf dest inode total : ℕ) (f : File) (m0 : Memory) where
  -- The image holds the block of offset `o`, and the indirect block that points to it.
  abbrev pub Reaches : ℕ → Type 0
  Reaches o =
      Holds bs datablocks_start f (nth_block bs w datablocks_start f m0 inode (o / bs))
      × (4 * bs ≤ o → Holds bs datablocks_start f (indirect_ptr m0 inode ((o / bs - 4) / w)))

  -- Block sizes are even, and the pointers cover less than 2 ^ 32 bytes; the destination, the buffer and the inode are apart.
  pub record IsSetting : Type 0 where
    pub even : bs ≡ 2 * w
    pub positive : 0 < w
    pub addressable : 4 * bs + 9 * w * bs < 2 ^ 32
    pub dest_buf : Apart dest total buf bs
    pub dest_inode : Apart dest total inode 64
    pub buf_inode : Apart buf bs inode 64

  -- The bytes delivered to `dest` from index `i` on, and what is left.
  pub record Delivered (i offset n : ℕ) (m m' : Memory) : Type 0 where
    pub bytes :
        (k : ℕ)
        → k < n
        → m' (dest + i + k) ≡ file_byte bs w datablocks_start f m0 inode (offset + k)
    pub others :
        (a : ℕ) → (a < dest + i) ⊎ (dest + i + n ≤ a) → (a < buf) ⊎ (buf + bs ≤ a) → m' a ≡ m a

  -- Two parts, one after the other.
  Delivered-append :
      (i offset n left : ℕ) (m m1 m2 : Memory)
      → IsSetting
      → i + (n + left) ≤ total
      → Delivered i offset n m m1
      → Delivered (i + n) (offset + n) left m1 m2
      → Delivered i offset (n + left) m m2
  Delivered-append i offset n left m m1 m2 v fits d1 d2 = record {
    bytes = λ k lt. elim (dec_lt k n) [
      | yes first ↦
          d2.others (dest + i + k) (omega arith) (omega (arith, v.dest_buf)) ∙ d1.bytes k first
      | no later ↦
          ap m2 {x = dest + i + k} {y = dest + (i + n) + (k - n)} (omega arith)
          ∙ d2.bytes (k - n) (omega arith)
          ∙ ap (file_byte bs w datablocks_start f m0 inode) {x = offset + n + (k - n)}
              {y = offset + k} (omega arith)
    ];
    others = λ a out out2. d2.others a (omega arith) out2 ∙ d1.others a (omega arith) out2;
  }

  Delivered-SameInode :
      (i offset n : ℕ) (m m' : Memory)
      → IsSetting
      → i + n ≤ total
      → SameInode inode m0 m
      → Delivered i offset n m m'
      → SameInode inode m0 m'
  Delivered-SameInode i offset n m m' v fits same d j lt =
      d.others (inode + j) (omega (arith, v.dest_inode)) (omega (arith, v.buf_inode)) ∙ same j lt

  -- One round.
  round-Delivered :
      (offset i n : ℕ) (m : Memory)
      → IsSetting
      → SameInode inode m0 m
      → offset < 4 * bs + 9 * w * bs
      → Reaches offset
      → offset % bs + n ≤ bs
      → i + n ≤ total
      → (m' : Memory) × ((fs_offset_to_block bs datablocks_start local offset f m inode >>= λ block.
            copy_part bs (data_block datablocks_start block) buf offset n dest i f m)
          ≡ some m')
        × Delivered i offset n m m'
  round-Delivered offset i n m v same inside reach fits room =
      let hb : 0 < bs = omega (arith, v.even, v.positive) in
      let nth =
        same_nth_block bs w datablocks_start inode offset f m0 m hb v.positive same inside in
      let q = nth_block bs w datablocks_start f m0 inode (offset / bs) in
      let holds_indirect = λ (le : 4 * bs ≤ offset) (end : offset ≤ 4 * bs + 9 * w * bs).
        subst (λ (p : ℕ). Holds bs datablocks_start f p)
          (sym (
            same_indirect inode ((offset / bs - 4) / w) m0 m same
              (indirect_lt bs w offset hb v.positive inside)))
          (reach.1 le) in
      let found =
        fs_offset_to_block_lem bs w datablocks_start local offset f m inode v.even v.positive
          v.addressable holds_indirect in
      let not_beyond : ltb (4 * bs + 9 * w * bs) offset ≡ false = ground arith in
      let block : fs_offset_to_block bs datablocks_start local offset f m inode ≡ some (pos q) =
        found
        ∙ ap
            (λ (b : Bool).
              if b
              then some minus_one
              else some (pos (nth_block bs w datablocks_start f m inode (offset / bs))))
            not_beyond
        ∙ ap (λ (p : ℕ). some (pos p)) nth in
      let copied =
        copy_part-Copied bs (data_block datablocks_start (pos q)) buf offset n dest i f m
          (λ e. omega (arith, hb)) reach.0.0 reach.0.1 fits (omega (arith, v.dest_buf)) in
      (
        copied.0,
        ap
              (λ (r : Option ℤ). r >>= λ block.
                copy_part bs (data_block datablocks_start block) buf offset n dest i f m)
              block
            ∙ copied.1,
        record {
          bytes = λ k lt.
              let sb = same_block bs offset k hb (omega arith) in
              copied.2.bytes k lt
              ∙ ap₂
                  (λ (p r : ℕ). f.content (
                    block_offset bs (
                      data_block datablocks_start
                        (pos (nth_block bs w datablocks_start f m0 inode p)))
                    + r))
                  (sym sb.0) (sym sb.1);
          others = copied.2.others;
        },
      )

  loop_step :
      (fuel offset left i : ℕ) (m : Memory)
      → let n = part bs offset (suc left) in
        fs_read_loop (suc fuel) bs datablocks_start local buf dest offset (suc left) f inode i m ≡ (
          fs_offset_to_block bs datablocks_start local offset f m inode >>= λ block.
          copy_part bs (data_block datablocks_start block) buf offset n dest i f m >>= λ m'.
          fs_read_loop fuel bs datablocks_start local buf dest
            ((offset + n) % 2 ^ 32)
            (suc left - n)
            f
            inode
            (i + n)
            m')
  unfolding fs_read_loop
  loop_step fuel offset left i m =
      let test : (suc left == 0) ≡ false = ground arith in rw (fs_read_loop, test) refl

  pub fs_read_loop_lem :
      (fuel offset bytes_left i : ℕ) (m : Memory)
      → IsSetting
      → SameInode inode m0 m
      → bytes_left ≤ fuel
      → offset + bytes_left ≤ 4 * bs + 9 * w * bs
      → offset + bytes_left < 2 ^ 32
      → i + bytes_left ≤ total
      → ((o : ℕ) → offset ≤ o → o < offset + bytes_left → Reaches o)
      → (m' : Memory) × (fs_read_loop fuel bs datablocks_start local buf dest offset bytes_left f
            inode i m
          ≡ some m')
        × Delivered i offset bytes_left m m'
  unfolding fs_read_loop
  fs_read_loop_lem fuel offset zero i m v same enough cover small room reach = (
    m,
    none_left fuel,
    record { bytes = λ k lt. absurd (omega arith); others = λ a out out2. refl },
  )
    where
      none_left :
          (fuel : ℕ)
          → fs_read_loop fuel bs datablocks_start local buf dest offset 0 f inode i m ≡ some m
      none_left zero = refl
      none_left (suc fuel) = refl
  fs_read_loop_lem zero offset (suc left) i m v same enough cover small room reach =
      absurd (omega arith)
  fs_read_loop_lem (suc fuel) offset (suc left) i m v same enough cover small room reach =
      let hb : 0 < bs = omega (arith, v.even, v.positive) in
      let n = part bs offset (suc left) in
      let rem = mod-lt offset {m = bs} hb in
      let size : (0 < n) × (n ≤ suc left) × (offset % bs + n ≤ bs) = part_lem bs offset left rem in
      let first =
        round-Delivered offset i n m v same (omega (arith, cover))
          (reach offset (omega arith) (omega arith)) size.2 (omega (arith, room, size.1)) in
      let next : (offset + n) % 2 ^ 32 ≡ offset + n = omega (arith, small, size.1) in
      let rest =
        fs_read_loop_lem fuel (offset + n) (suc left - n) (i + n) first.0 v
          (Delivered-SameInode i offset n m first.0 v (omega (arith, room, size.1)) same first.2)
          (omega (arith, enough, size.0)) (omega (arith, cover, size.1))
          (omega (arith, small, size.1)) (omega (arith, room, size.1))
          (λ o ge lt. reach o (omega arith) (omega (arith, size.1))) in
      (
        rest.0,
        loop_step fuel offset left i m
            ∙ >>=-step (fs_offset_to_block bs datablocks_start local offset f m inode)
                (λ block. copy_part bs (data_block datablocks_start block) buf offset n dest i f m)
                (λ m'.
                  fs_read_loop fuel bs datablocks_start local buf dest ((offset + n) % 2 ^ 32)
                    (suc left - n) f inode (i + n) m')
                first.1
            ∙ ap
                (λ (o : ℕ).
                  fs_read_loop fuel bs datablocks_start local buf dest o (suc left - n) f inode
                    (i + n) first.0)
                next
            ∙ rest.1,
        subst (λ (k : ℕ). Delivered i offset k m rest.0) {x = n + (suc left - n)} {y = suc left}
            (omega (arith, size.1))
            (Delivered-append i offset n (suc left - n) m first.0 rest.0 v
              (omega (arith, room, size.1)) first.2 rest.2),
      )
    where
      part_lem :
          (bs offset left : ℕ)
          → offset % bs < bs
          → let n = part bs offset (suc left) in (0 < n) × (n ≤ suc left) × (offset % bs + n ≤ bs)
      part_lem bs offset left h = ground arith

  -- `fs_read` from an inode returns, for a range of fewer than 2 ^ 31 bytes that the file's pointers
  -- cover and whose blocks the image holds: the bytes of the range stand at the destination, and memory
  -- outside the destination and the buffer for blocks is as before. The block size is even, the pointers
  -- cover less than 2 ^ 32 bytes, and the destination, the buffer and the inode are apart.
  pub fs_read_inode-Delivered :
      (offset count : ℕ)
      → IsSetting
      → count ≤ total
      → count < 2 ^ 31
      → offset + count ≤ 4 * bs + 9 * w * bs
      → offset + count < 2 ^ 32
      → ((o : ℕ) → offset ≤ o → o < offset + count → Reaches o)
      → (m' : Memory) × (fs_read_inode bs datablocks_start local buf dest offset count f inode m0
          ≡ some m')
        × Delivered 0 offset count m0 m'
  unfolding fs_read_inode
  fs_read_inode-Delivered offset count v room small cover fits reach =
      let test : ltb count (2 ^ 31) ≡ true = ground arith in
      let r =
        fs_read_loop_lem count offset count 0 m0 v (λ j lt. refl) (omega arith) cover fits
          (omega arith) reach in
      (r.0, rw (fs_read_inode, test) r.1, r.2)
