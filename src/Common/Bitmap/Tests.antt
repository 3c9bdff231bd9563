-- ===== src/Common/Bitmap/Tests.antt =====
-- The bitmap functions on a bitmap of ten bits, of which 0, 1 and 9 are set.
use rathal_os.Prelude.{◌≡◌, refl, arith, [], ◌∷◌, pos}
use rathal_os.Memory.{Memory, IsBytes, place, zeros, place-IsBytes}
use rathal_os.Common.Bitmap.{
  Bitmap, bitmap_get, bitmap_set, bitmap_reserve_first_available_bit, bitmap_get_free_bits,
}
use rathal_os.Common.Bitmap.Bits.{IsValid}
use rathal_os.Common.Bitmap.Reserve.{Reserved, reserve-Reserved, IsCounted, reserve-IsCounted}

abbrev ten : Bitmap
ten = record { count = 10; size = 2; bits = 100 }

abbrev start : Memory
start = place 100 (3 ∷ 2 ∷ []) zeros

start-IsBytes : IsBytes start
start-IsBytes = place-IsBytes 100 (3 ∷ 2 ∷ []) zeros (omega arith) (λ a. omega arith)

ten-IsValid : IsValid ten
ten-IsValid = omega arith

gets : (bitmap_get start ten 9 ≡ 2) × (bitmap_get start ten 8 ≡ 0)
unfolding bitmap_get
gets = (refl, refl)

reserves :
    ((bitmap_reserve_first_available_bit start ten).1 ≡ pos 2)
    × ((bitmap_reserve_first_available_bit start ten).0 100 ≡ 7)
    × (bitmap_get_free_bits start ten ≡ 7)
unfolding bitmap_reserve_first_available_bit bitmap_get_free_bits bitmap_get bitmap_set
reserves = (refl, refl, refl)

reserve-Reserved_example : Reserved start ten 0 10 (bitmap_reserve_first_available_bit start ten)
reserve-Reserved_example = reserve-Reserved start ten

reserve-IsCounted_example : IsCounted start ten (bitmap_reserve_first_available_bit start ten)
reserve-IsCounted_example = reserve-IsCounted start ten start-IsBytes ten-IsValid
