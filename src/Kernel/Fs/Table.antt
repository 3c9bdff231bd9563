-- ===== src/Kernel/Fs/Table.antt =====
-- The layout of the global buffer that the operations rely on.
use rathal_os.Prelude.{ℕ, ◌+◌, ◌^◌, ◌<◌, ◌≤◌, ◌≡◌, arith, some, ◌⊎◌}
use rathal_os.Common.Bitmap.Bits.{IsValid}
use rathal_os.Common.Inode.{number, inode_get}
use rathal_os.Kernel.Fs.{Fs}

-- The bitmap stands before the table and has a bit for each inode; an inode in use has its index for
-- a number (0 marks one that is not in use).
pub record IsLaidOut (s : Fs) : Type 0 where
  pub bitmap : IsValid s.inode_bitmap
  pub counts : s.inode_bitmap.count ≡ s.inode_table.inode_count
  pub apart : s.inode_bitmap.bits + s.inode_bitmap.size ≤ s.inode_table.inodes
  pub small : s.inode_table.inode_count ≤ 2 ^ 16
  pub numbered :
      (k : ℕ)
      → k < s.inode_table.inode_count
      → (number s.memory (inode_get s.inode_table k) ≡ 0)
        ⊎ (number s.memory (inode_get s.inode_table k) ≡ k)

-- The searches return inodes of the table.
pub inode_get-injective :
    (t : Fs) (j k : ℕ) → some (inode_get t.inode_table j) ≡ some (inode_get t.inode_table k) → j ≡ k
inode_get-injective t j k e = omega (arith, some-eq e)
  where
    some-eq : {a b : ℕ} → some a ≡ some b → a ≡ b
    some-eq e = cc
