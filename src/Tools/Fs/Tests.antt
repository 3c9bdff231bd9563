-- ===== src/Tools/Fs/Tests.antt =====
-- An image with blocks of 4 bytes, which hold two pointers, and data blocks from block 2 on. The inode at
-- 1000 has data blocks 1 to 4, and behind them 6 and 7 through the indirect block 5.
use rathal_os.Prelude.{
  ℕ, zero, suc, ◌+◌, ◌-◌, ◌*◌, ◌/◌, ◌<◌, ◌≤◌, ◌≡◌, refl, arith, [], ◌∷◌, some, pos, minus_one,
  if◌then◌else◌, ltb, inl, inr,
}
use rathal_os.Memory.{Memory, place, zeros}
use rathal_os.Common.Inode.{indirect_ptr}
use rathal_os.Tools.Image.{File}
use rathal_os.Tools.Fs.{fs_offset_to_block, fs_read_inode}
use rathal_os.Tools.Fs.Offset.{nth_block, Holds, fs_offset_to_block_lem}
use rathal_os.Tools.Fs.Read.{IsSetting, Reaches, Delivered, fs_read_inode-Delivered}

abbrev ram : Memory
ram = place 1038 (1 ∷ 0 ∷ 2 ∷ 0 ∷ 3 ∷ 0 ∷ 4 ∷ 0 ∷ 5 ∷ 0 ∷ []) zeros

-- Block `b` of the image is full of its number, but for block 7, the indirect block.
abbrev image : File
image = record { content = place 28 (6 ∷ 0 ∷ 7 ∷ 0 ∷ []) (λ a. a / 4); size = 64; position = 0 }

finds :
    (fs_offset_to_block 4 2 3000 9 image ram 1000 ≡ some (pos 3))
    × (fs_offset_to_block 4 2 3000 21 image ram 1000 ≡ some (pos 7))
    × (fs_offset_to_block 4 2 3000 89 image ram 1000 ≡ some minus_one)
unfolding fs_offset_to_block
finds = (refl, refl, refl)

fs_offset_to_block_lem_example : fs_offset_to_block 4 2 3000 21 image ram 1000 ≡ (
    if ltb (4 * 4 + 9 * 2 * 4) 21
    then some minus_one
    else some (pos (nth_block 4 2 2 image ram 1000 (21 / 4))))
fs_offset_to_block_lem_example =
    fs_offset_to_block_lem 4 2 2 3000 21 image ram 1000 refl (omega arith) (omega arith)
      (λ le end. (λ e. omega arith, omega arith))

setting : IsSetting 4 2 2 3000 4000 2000 1000 9 image ram
setting = record {
  even = refl;
  positive = omega arith;
  addressable = omega arith;
  dest_buf = inl (omega arith);
  dest_inode = inr (omega arith);
  buf_inode = inr (omega arith);
}

-- The bytes 14 to 22, of blocks 3, 4 and 5 of the file.
reached : (o : ℕ) → 14 ≤ o → o < 14 + 9 → Reaches 4 2 2 3000 4000 2000 1000 9 image ram o
reached o lo hi = let r = by_block (o / 4) (omega arith) (omega arith) in (r.0, λ le. r.1)
  where
    by_block :
        (q : ℕ)
        → 3 ≤ q
        → q ≤ 5
        → Holds 4 2 image (nth_block 4 2 2 image ram 1000 q)
          × Holds 4 2 image (indirect_ptr ram 1000 ((q - 4) / 2))
    by_block zero lo hi = absurd (omega arith)
    by_block (suc zero) lo hi = absurd (omega arith)
    by_block (suc (suc zero)) lo hi = absurd (omega arith)
    by_block (suc (suc (suc zero))) lo hi = omega arith
    by_block (suc (suc (suc (suc zero)))) lo hi = omega arith
    by_block (suc (suc (suc (suc (suc zero))))) lo hi = omega arith
    by_block (suc (suc (suc (suc (suc (suc q)))))) lo hi = absurd (omega arith)

fs_read_inode-Delivered_example :
    (m' : Memory) × (fs_read_inode 4 2 3000 4000 2000 14 9 image 1000 ram ≡ some m')
    × Delivered 4 2 2 3000 4000 2000 1000 9 image ram 0 14 9 ram m'
fs_read_inode-Delivered_example =
    fs_read_inode-Delivered 4 2 2 3000 4000 2000 1000 9 image ram 14 9 setting (omega arith)
      (omega arith) (omega arith) (omega arith) reached
