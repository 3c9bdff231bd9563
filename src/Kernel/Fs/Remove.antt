-- ===== src/Kernel/Fs/Remove.antt =====
-- `file_remove`.
use rathal_os.Prelude.{
  ℕ, ◌+◌, ◌/◌, ◌<◌, ◌≡◌, ◌≢◌, refl, arith, true, false, none, some, ◌==◌, ltb, leb, ◌&&◌,
  if◌then◌else◌, inl, ap, sym, ◌∙◌,
}
use native.Mathlib.Decide.{ℕ_discrete}
use rathal_os.Memory.{Memory, IsBytes}
use rathal_os.Common.Func.{memset}
use rathal_os.Common.Func.Blocks.{memset_lem}
use rathal_os.Common.Bitmap.{bitmap_set}
use rathal_os.Common.Bitmap.Bits.{bit, bit-bitmap_set, bitmap_set-frame, bit-same}
use rathal_os.Common.Inode.{number, inode_get, matches_name}
use rathal_os.Common.Inode.Lookup.{First, found, missing, from_filename-First}
use rathal_os.Kernel.Fs.{Fs, find, remove_inode, file_remove}
use rathal_os.Kernel.Fs.Table.{IsLaidOut, inode_get-injective}

-- What removing inode `k` does to a laid out file system.
pub record Removed (s s' : Fs) (k : ℕ) : Type 0 where
  pub bit_clear : bit s'.memory s'.inode_bitmap k ≡ false
  pub other_bits :
      (j : ℕ)
      → j < s.inode_table.inode_count
      → j ≢ k
      → bit s'.memory s'.inode_bitmap j ≡ bit s.memory s.inode_bitmap j
  pub zeroed : (i : ℕ) → i < 64 → s'.memory (inode_get s'.inode_table k + i) ≡ 0
  pub other_inodes :
      (j i : ℕ)
      → j ≢ k
      → i < 64
      → s'.memory (inode_get s'.inode_table j + i) ≡ s.memory (inode_get s.inode_table j + i)
  pub same_table : s'.inode_table ≡ s.inode_table
  pub same_bitmap : s'.inode_bitmap ≡ s.inode_bitmap
  pub same_descriptors : s'.file_descriptor_tab ≡ s.file_descriptor_tab

used-number :
    (m : Memory) (filename inode : ℕ) → matches_name m filename inode ≡ true → 0 < number m inode
unfolding matches_name
used-number m filename inode h = ground arith

-- The memory after clearing bit `k` of the bitmap and inode `k` of the table.
cleared : Fs → ℕ → Memory
cleared s k = memset (bitmap_set s.memory s.inode_bitmap k 0) (inode_get s.inode_table k) 0 64

remove_inode-cleared :
    (s : Fs) (k : ℕ)
    → IsLaidOut s
    → k < s.inode_table.inode_count
    → number s.memory (inode_get s.inode_table k) ≡ k
    → remove_inode s (inode_get s.inode_table k) ≡ record s { memory = cleared s k }
unfolding remove_inode cleared
remove_inode-cleared s k v lt e = rw (e, kept) refl
  where
    kept : number (bitmap_set s.memory s.inode_bitmap k 0) (inode_get s.inode_table k) ≡ k
    kept = omega (
      arith,
      e,
      v.bitmap.fits,
      v.counts,
      v.apart,
      bitmap_set-frame s.memory s.inode_bitmap k 0 (inode_get s.inode_table k)
          (omega (arith, v.bitmap.fits, v.counts, v.apart)),
      bitmap_set-frame s.memory s.inode_bitmap k 0 (inode_get s.inode_table k + 1)
          (omega (arith, v.bitmap.fits, v.counts, v.apart)),
    )

-- The memory of `cleared`, outside the inode and the byte of the bit.
cleared-at :
    (s : Fs) (k a : ℕ)
    → cleared s k a ≡ (
        if leb (inode_get s.inode_table k) a && ltb a (inode_get s.inode_table k + 64)
        then 0
        else bitmap_set s.memory s.inode_bitmap k 0 a)
unfolding cleared
cleared-at s k a =
    memset_lem (bitmap_set s.memory s.inode_bitmap k 0) (inode_get s.inode_table k) 0 64 a

module _ (s : Fs) (k : ℕ) (v : IsLaidOut s) (bytes : IsBytes s.memory)
    (lt : k < s.inode_table.inode_count) where
  cleared-bit :
      (j : ℕ)
      → j < s.inode_table.inode_count
      → bit (cleared s k) s.inode_bitmap j
        ≡ (if k == j then false else bit s.memory s.inode_bitmap j)
  cleared-bit j h =
      bit-same (cleared s k) (bitmap_set s.memory s.inode_bitmap k 0) s.inode_bitmap j outside
      ∙ bit-bitmap_set s.memory s.inode_bitmap k 0 j bytes
    where
      outside :
          cleared s k (s.inode_bitmap.bits + j / 8)
          ≡ bitmap_set s.memory s.inode_bitmap k 0 (s.inode_bitmap.bits + j / 8)
      outside =
          ground
            (arith, cleared-at s k (s.inode_bitmap.bits + j / 8), v.bitmap.fits, v.counts, v.apart)

  cleared-inode :
      (j i : ℕ)
      → j ≢ k
      → i < 64
      → cleared s k (inode_get s.inode_table j + i) ≡ s.memory (inode_get s.inode_table j + i)
  cleared-inode j i ne h = ground (
    arith,
    cleared-at s k (inode_get s.inode_table j + i),
    bitmap_set-frame s.memory s.inode_bitmap k 0 (inode_get s.inode_table j + i)
        (omega (arith, v.bitmap.fits, v.counts, v.apart)),
  )

  cleared-Removed : Removed s (record s { memory = cleared s k }) k
  cleared-Removed = record {
    bit_clear = ground (arith, cleared-bit k lt);
    other_bits = λ j h ne. ground (arith, cleared-bit j h);
    zeroed = λ i h. ground (arith, cleared-at s k (inode_get s.inode_table k + i));
    other_inodes = cleared-inode;
    same_table = refl;
    same_bitmap = refl;
    same_descriptors = refl;
  }

-- What the bytes of the inodes say of their numbers.
module _ (s s' : Fs) (k : ℕ) (gone : Removed s s' k) where
  removed-number :
      (j : ℕ)
      → j ≢ k
      → number s'.memory (inode_get s'.inode_table j) ≡ number s.memory (inode_get s.inode_table j)
  removed-number j ne = omega (arith, gone.other_inodes j 1 ne (omega arith), first)
    where
      first : s'.memory (inode_get s'.inode_table j) ≡ s.memory (inode_get s.inode_table j)
      first =
          ap s'.memory (omega arith)
          ∙ gone.other_inodes j 0 ne (omega arith)
          ∙ ap s.memory (omega arith)

  removed-zero : number s'.memory (inode_get s'.inode_table k) ≡ 0
  removed-zero = omega (arith, first, gone.zeroed 1 (omega arith))
    where
      first : s'.memory (inode_get s'.inode_table k) ≡ 0
      first = ap s'.memory (omega arith) ∙ gone.zeroed 0 (omega arith)

  removed-not_matching :
      (filename : ℕ) → matches_name s'.memory filename (inode_get s'.inode_table k) ≡ false
  unfolding matches_name
  removed-not_matching filename = ground (arith, removed-zero)

  -- No search returns the inode that was removed.
  removed-not_found : (filename : ℕ) → find s' filename ≢ some (inode_get s'.inode_table k)
  removed-not_found filename e = go (from_filename-First s'.memory s'.inode_table filename)
    where
      go :
          First
            (matches_name s'.memory filename)
            s'.inode_table
            0
            s'.inode_table.inode_count
            (find s' filename)
          → ⊥
      go (found j at lo hi hit before) =
          let same : j ≡ k = inode_get-injective s' j k (sym at ∙ e) in
          cc (
            removed-not_matching filename,
            ap (λ (i : ℕ). matches_name s'.memory filename (inode_get s'.inode_table i)) same,
          )
      go (missing none_at before) = cc

  -- Removing keeps the layout.
  removed-IsLaidOut : IsLaidOut s → IsLaidOut s'
  removed-IsLaidOut v = record {
    bitmap = rw gone.same_bitmap v.bitmap;
    counts = rw (gone.same_bitmap, gone.same_table) v.counts;
    apart = rw (gone.same_bitmap, gone.same_table) v.apart;
    small = rw gone.same_table v.small;
    numbered = λ j h. elim (ℕ_discrete j k) [
      | yes e ↦ inl (rw e removed-zero)
      | no ne ↦ rw (removed-number j ne) (v.numbered j (rw gone.same_table at h))
    ];
  }

-- The two outcomes of `file_remove` with result `(s', r)`.
pub data Removal (s : Fs) (filename : ℕ) (s' : Fs) (r : ℕ) : Type 0 where
  no_file : find s filename ≡ none → s' ≡ s → r ≡ 1 → Removal s filename s' r
  removed :
      (k : ℕ)
      → find s filename ≡ some (inode_get s.inode_table k)
      → k < s.inode_table.inode_count
      → r ≡ 0
      → Removed s s' k
      → Removal s filename s' r

-- `file_remove` in a laid out file system. If no inode in use has the name it changes nothing and
-- returns 1. Otherwise it returns 0, and the inode that the search found, at some index `k`, is
-- zeroed and its bit in the bitmap cleared; all other inodes, bits and the descriptors are left.
pub file_remove-Removal :
    (s : Fs) (filename : ℕ)
    → IsLaidOut s
    → IsBytes s.memory
    → Removal s filename (file_remove s filename).0 (file_remove s filename).1
unfolding file_remove
file_remove-Removal s filename v bytes = go (from_filename-First s.memory s.inode_table filename)
  where
    go :
        First
          (matches_name s.memory filename)
          s.inode_table
          0
          s.inode_table.inode_count
          (find s filename)
        → Removal s filename (file_remove s filename).0 (file_remove s filename).1
    go (missing e before) = no_file e (rw (e, file_remove) refl) (rw (e, file_remove) refl)
    go (found k e lo hi hit before) =
        let n : number s.memory (inode_get s.inode_table k) ≡ k =
          ground (
            arith,
            v.numbered k hi,
            used-number s.memory filename (inode_get s.inode_table k) hit,
          ) in
        removed k e hi (rw (e, file_remove) refl)
          (rw (e, file_remove, remove_inode-cleared s k v hi n) (cleared-Removed s k v bytes hi))

Removal-gone :
    (s s' : Fs) (filename inode other r : ℕ)
    → IsLaidOut s
    → find s filename ≡ some inode
    → Removal s filename s' r
    → IsLaidOut s' × (find s' other ≢ some inode)
Removal-gone s s' filename inode other r v e (no_file absent same one) = absurd (cc)
Removal-gone s s' filename inode other r v e (removed k at lt zero_result gone) = (
  removed-IsLaidOut s s' k gone v,
  rw (some-eq, ← gone.same_table) (removed-not_found s s' k gone other),
)
  where
    some-eq : inode ≡ inode_get s.inode_table k
    some-eq = cc

-- Removing a file that is there keeps the layout, and no search by name, for whatever name, returns
-- the inode that was removed.
pub file_remove-gone :
    (s : Fs) (filename inode other : ℕ)
    → IsLaidOut s
    → IsBytes s.memory
    → find s filename ≡ some inode
    → IsLaidOut (file_remove s filename).0 × (find (file_remove s filename).0 other ≢ some inode)
file_remove-gone s filename inode other v bytes e =
    Removal-gone s _ filename inode other _ v e (file_remove-Removal s filename v bytes)
