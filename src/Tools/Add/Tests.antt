-- ===== src/Tools/Add/Tests.antt =====
-- Seven bytes, added to an image with blocks of 4 bytes whose data blocks are 10 to 17; data block 0 is
-- taken. The inode is at 1000.
use rathal_os.Prelude.{ℕ, ◌+◌, ◌<◌, ◌≡◌, refl, arith, [], ◌∷◌, some, inl, inr, ◌∙◌}
use rathal_os.Memory.{Memory, place, place-IsBytes, zeros}
use rathal_os.Common.Bitmap.{Bitmap, bitmap_get, bitmap_get_free_bits}
use rathal_os.Common.Bitmap.Bits.{IsValid}
use rathal_os.Common.Bitmap.Reserve.{get_free_bits_lem}
use rathal_os.Tools.Image.{File}
use rathal_os.Tools.Fs.{fs_read_inode}
use rathal_os.Tools.Add.{Copying, fill_pointers}
use rathal_os.Tools.Add.Ready.{IsImage, IsReady}
use rathal_os.Tools.Add.Filled.{Filled}
use rathal_os.Tools.Add.Fill.{fill_pointers-Filled}
use rathal_os.Tools.Add.RoundTrip.{fs_read_inode-fill_pointers}

abbrev bitmap : Bitmap
bitmap = record { count = 8; size = 1; bits = 200 }

abbrev ram : Memory
ram = place 200 (1 ∷ []) zeros

abbrev source : File
source = record {
  content = place 0 (b'h' ∷ b'e' ∷ b'l' ∷ b'l' ∷ b'o' ∷ b' ' ∷ b'w' ∷ []) zeros;
  size = 7;
  position = 0;
}

abbrev state : Copying
state = record {
  memory = ram;
  data_left = 7;
  free_datablocks = 7;
  f = source;
  fs = record { content = zeros; size = 72; position = 0 };
}

bitmap-IsValid : IsValid bitmap
bitmap-IsValid = record { fits = omega arith; small = omega arith }

blocks-IsImage : IsImage 4 10 3000 bitmap
blocks-IsImage = record {
  positive = omega arith;
  valid = bitmap-IsValid;
  count = omega arith;
  small = omega arith;
  buffer = inl (omega arith);
}

seven_free : 7 ≡ bitmap_get_free_bits ram bitmap
unfolding bitmap_get_free_bits bitmap_get
seven_free = refl

state-IsReady : IsReady bitmap state
state-IsReady = record {
  bytes = place-IsBytes 200 (1 ∷ []) zeros (omega arith, _) (λ a. omega arith);
  file_bytes =
      place-IsBytes 0 (b'h' ∷ b'e' ∷ b'l' ∷ b'l' ∷ b'o' ∷ b' ' ∷ b'w' ∷ []) zeros
        (
          omega arith,
          (
            omega arith,
            (omega arith, (omega arith, (omega arith, (omega arith, (omega arith, _))))),
          ),
        )
        (λ a. omega arith);
  source = omega arith;
  free = seven_free ∙ get_free_bits_lem ram bitmap bitmap-IsValid;
}

fill_pointers-Filled_example :
    (c' : Copying) × (fill_pointers 4 10 3000 bitmap 1038 4 state ≡ some c')
    × Filled 4 10 3000 bitmap 1038 4 state c'
fill_pointers-Filled_example =
    fill_pointers-Filled 4 10 3000 bitmap 1038 4 state blocks-IsImage (inl (omega arith))
      (inr (omega arith)) state-IsReady (omega arith) (omega arith)

fs_read_inode-fill_pointers_example :
    (c' : Copying) × (m' : Memory) × (fill_pointers 4 10 3000 bitmap (1000 + 38) 4 state ≡ some c')
    × (fs_read_inode 4 10 5000 4000 2000 0 7 c'.fs 1000 c'.memory ≡ some m')
    × ((k : ℕ) → k < 7 → m' (2000 + k) ≡ source.content (0 + k))
fs_read_inode-fill_pointers_example =
    fs_read_inode-fill_pointers 4 2 10 3000 5000 4000 2000 1000 bitmap state blocks-IsImage
      state-IsReady refl (omega arith) (omega arith) (inl (omega arith)) (inr (omega arith))
      (inl (omega arith)) (inr (omega arith)) (inr (omega arith)) (omega arith) (omega arith)
      (omega arith)
