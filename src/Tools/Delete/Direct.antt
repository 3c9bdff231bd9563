-- ===== src/Tools/Delete/Direct.antt =====
-- Deleting a file of direct blocks.
use rathal_os.Prelude.{
  ℕ, zero, suc, ◌+◌, ◌*◌, ◌/◌, ◌<◌, ◌≤◌, ◌≡◌, refl, arith, Option, some, ◌>>=◌, if◌then◌else◌, leb,
  ltb, ◌&&◌, ◌==◌, not, Bool, ap, ap₂, ◌∙◌, true, false, ◌⊎◌,
}
use rathal_os.Memory.{Memory, load16, IsBytes}
use rathal_os.Common.Func.{memset}
use rathal_os.Common.Func.Blocks.{memset_lem}
use rathal_os.Common.Bitmap.{Bitmap, bitmap_set}
use rathal_os.Common.Bitmap.Bits.{
  bit, bitmap_set-frame, bitmap_set-IsBytes, bit-bitmap_set, bit-same,
}
use rathal_os.Common.Inode.{number, indirect_ptr}
use rathal_os.Tools.Image.{File}
use rathal_os.Tools.Fs.Content.{Apart}
use rathal_os.Tools.Delete.{clear_pointers, clear_indirect_block, clear_indirect, delete_inode}
use rathal_os.Tools.Delete.Bits.{
  is_pointed, ArePointers, word_same, is_pointed-same, bit-clear_pointers, clear_pointers-outside,
}

-- A file of direct blocks: its indirect pointers are 0, and its number and direct pointers name bits of
-- the two bitmaps. The bitmaps and the inode are apart in memory.
pub record IsDirect (ib db : Bitmap) (inode : ℕ) (m : Memory) : Type 0 where
  pub no_indirect : (i : ℕ) → i < 9 → indirect_ptr m inode i ≡ 0
  pub number_below : number m inode < 8 * ib.size
  pub pointers_below : (j : ℕ) → j < 4 → load16 m (inode + 38 + 2 * j) < 8 * db.size
  pub bitmaps : Apart ib.bits ib.size db.bits db.size
  pub inode_bits : Apart ib.bits ib.size inode 64
  pub block_bits : Apart db.bits db.size inode 64

-- What a deletion in memory changes: the bit of the inode's number, the bits of its direct blocks, the
-- bytes of the inode, and nothing else.
pub record Deleted (ib db : Bitmap) (inode : ℕ) (m m' : Memory) : Type 0 where
  pub inode_bit :
      (k : ℕ) → k < 8 * ib.size → bit m' ib k ≡ (if number m inode == k then false else bit m ib k)
  pub block_bit :
      (k : ℕ) → k < 8 * db.size → bit m' db k ≡ (bit m db k && not (is_pointed m (inode + 38) 4 k))
  pub zeroed : (a : ℕ) → inode ≤ a → a < inode + 64 → m' a ≡ 0
  pub others :
      (a : ℕ)
      → (a < ib.bits) ⊎ (ib.bits + ib.size ≤ a)
      → (a < db.bits) ⊎ (db.bits + db.size ≤ a)
      → (a < inode) ⊎ (inode + 64 ≤ a)
      → m' a ≡ m a

no_block :
    (bs contents : ℕ) (f : File) (b : Bitmap) (block : ℕ) (m : Memory)
    → block ≡ 0
    → clear_indirect_block bs contents f b block m ≡ some m
unfolding clear_indirect_block
no_block bs contents f b block m e =
    let test : (block == 0) ≡ true = ground (arith, e) in rw (clear_indirect_block, test) refl

no_indirect_blocks :
    (bs contents : ℕ) (f : File) (b : Bitmap) (inode i left : ℕ) (m : Memory)
    → ((j : ℕ) → j < i + left → indirect_ptr m inode j ≡ 0)
    → clear_indirect bs contents f b inode i left m ≡ some m
unfolding clear_indirect
no_indirect_blocks bs contents f b inode i zero m none_there = refl
no_indirect_blocks bs contents f b inode i (suc left) m none_there =
    ap (λ (r : Option Memory). r >>= λ m'. clear_indirect bs contents f b inode (i + 1) left m')
      (no_block bs contents f b (indirect_ptr m inode i) m (none_there i (omega arith)))
    ∙ no_indirect_blocks bs contents f b inode (i + 1) left m (λ j lt. none_there j (omega arith))

-- Clearing the bit of the inode's number leaves the inode and the bits of the blocks.
module _ (ib db : Bitmap) (inode : ℕ) (m : Memory) (h : IsBytes m)
    (d : IsDirect ib db inode m) where
  abbrev cleared : Memory
  cleared = bitmap_set m ib (number m inode) 0

  abbrev without_blocks : Memory
  without_blocks = clear_pointers cleared db (inode + 38) 4

  cleared-outside : (a : ℕ) → (a < ib.bits) ⊎ (ib.bits + ib.size ≤ a) → cleared a ≡ m a
  cleared-outside a out =
      bitmap_set-frame m ib (number m inode) 0 a (λ e. omega (arith, e, out, d.number_below))

  cleared-inode : (j : ℕ) → j < 64 → cleared (inode + j) ≡ m (inode + j)
  cleared-inode j lt = cleared-outside (inode + j) (omega (arith, d.inode_bits))

  cleared-pointer :
      (j : ℕ) → j < 13 → load16 cleared (inode + 38 + 2 * j) ≡ load16 m (inode + 38 + 2 * j)
  cleared-pointer j lt =
      word_same m cleared (inode + 38 + 2 * j) (inode + 38 + 2 * j + 1)
        (cleared-outside (inode + 38 + 2 * j) (omega (arith, d.inode_bits)))
        (cleared-outside (inode + 38 + 2 * j + 1) (omega (arith, d.inode_bits)))

  cleared-ArePointers : ArePointers cleared db (inode + 38) 4
  cleared-ArePointers = record {
    below = λ j lt. omega (arith, cleared-pointer j (omega arith), d.pointers_below j lt);
    apart = omega (arith, d.block_bits);
  }

  without_blocks-outside :
      (a : ℕ) → (a < db.bits) ⊎ (db.bits + db.size ≤ a) → without_blocks a ≡ cleared a
  without_blocks-outside a out =
      clear_pointers-outside cleared db (inode + 38) 4 a cleared-ArePointers out

  direct_lem :
      (bs contents : ℕ) (f : File)
      → delete_inode bs contents f ib db inode m ≡ some (memset without_blocks inode 0 64)
  unfolding delete_inode
  direct_lem bs contents f =
      ap (λ (r : Option Memory). r >>= λ m3. some (memset m3 inode 0 64))
        (no_indirect_blocks bs contents f db inode 0 9 without_blocks (λ j lt.
          word_same m without_blocks (inode + 46 + 2 * j) (inode + 46 + 2 * j + 1)
            (unchanged (inode + 46 + 2 * j) (omega arith) (omega arith))
            (unchanged (inode + 46 + 2 * j + 1) (omega arith) (omega arith))
          ∙ d.no_indirect j lt))
    where
      unchanged : (a : ℕ) → inode ≤ a → a < inode + 64 → without_blocks a ≡ m a
      unchanged a lo hi =
          without_blocks-outside a (omega (arith, d.block_bits))
          ∙ cleared-outside a (omega (arith, d.inode_bits))

  final_outside :
      (a : ℕ)
      → (a < inode) ⊎ (inode + 64 ≤ a)
      → memset without_blocks inode 0 64 a ≡ without_blocks a
  final_outside a out = memset_lem without_blocks inode 0 64 a ∙ outside (without_blocks a)
    where
      outside : (x : ℕ) → (if leb inode a && ltb a (inode + 64) then 0 else x) ≡ x
      outside x = ground arith

  final_inode_bits :
      (k : ℕ)
      → k < 8 * ib.size
      → memset without_blocks inode 0 64 (ib.bits + k / 8) ≡ cleared (ib.bits + k / 8)
  final_inode_bits k lt =
      final_outside (ib.bits + k / 8) (omega (arith, d.inode_bits))
      ∙ without_blocks-outside (ib.bits + k / 8) (omega (arith, d.bitmaps))

  deleted : Deleted ib db inode m (memset without_blocks inode 0 64)
  deleted = record {
    inode_bit = λ k lt.
        bit-same (memset without_blocks inode 0 64) cleared ib k (final_inode_bits k lt)
        ∙ bit-bitmap_set m ib (number m inode) 0 k h;
    block_bit = λ k lt.
        bit-same (memset without_blocks inode 0 64) without_blocks db k
          (final_outside (db.bits + k / 8) (omega (arith, d.block_bits)))
        ∙ bit-clear_pointers cleared db (inode + 38) 4 k
            (bitmap_set-IsBytes m ib (number m inode) 0 h) cleared-ArePointers
        ∙ ap₂ (λ (x y : Bool). x && not y)
            (bit-same cleared m db k (cleared-outside (db.bits + k / 8) (omega (arith, d.bitmaps))))
            (is_pointed-same m cleared (inode + 38) 4 k
              (λ a lo hi. cleared-outside a (omega (arith, d.inode_bits))));
    zeroed = λ a lo hi. memset_lem without_blocks inode 0 64 a ∙ ground arith;
    others = λ a out_i out_d out_n.
        final_outside a out_n ∙ without_blocks-outside a out_d ∙ cleared-outside a out_i;
  }

-- Deleting a file of at most four direct blocks, whose indirect pointers are 0, clears in memory the bit of
-- its inode, the bits of its data blocks and the 64 bytes of its inode, and changes nothing else.
pub delete_inode-Deleted :
    (bs contents : ℕ) (f : File) (ib db : Bitmap) (inode : ℕ) (m : Memory)
    → IsBytes m
    → IsDirect ib db inode m
    → (m' : Memory) × (delete_inode bs contents f ib db inode m ≡ some m')
      × Deleted ib db inode m m'
delete_inode-Deleted bs contents f ib db inode m h d =
    (_, direct_lem ib db inode m h d bs contents f, deleted ib db inode m h d)
