-- ===== src/User/Wrapper/Tests.antt =====
-- Strings at concrete addresses.
use rathal_os.Prelude.{◌≡◌, refl, [], ◌∷◌, some}
use rathal_os.Memory.{Memory, place, zeros}
use rathal_os.User.Wrapper.{starts_with, atoi}

-- "407" at 500.
abbrev lines : Memory
lines = place 500 (b'4' ∷ b'0' ∷ b'7' ∷ []) zeros

words : atoi 9 lines 500 ≡ some 407
unfolding atoi
words = refl

-- "xabc d" at 0x010101 and "abcd" at 0x010201: one string is not a prefix of the other.
abbrev low : Memory
low =
    place 0x010101 (b'x' ∷ b'a' ∷ b'b' ∷ b'c' ∷ 32 ∷ b'd' ∷ [])
      (place 0x010201 (b'a' ∷ b'b' ∷ b'c' ∷ b'd' ∷ []) zeros)

starts : starts_with 9 low 0x020000 0x010101 0x010201 ≡ some 1
unfolding starts_with
starts = refl
