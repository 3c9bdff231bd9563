-- ===== src/Kernel/Keymap.antt =====
-- kernel/drivers/key_map.c: the characters of the keys. The scan code of a pressed key is below 128,
-- the size of both maps.
use rathal_os.Prelude.{
  ℕ, ◌+◌, ◌<◌, ◌≡◌, refl, arith, Bool, true, false, List, [], ◌∷◌, if◌then◌else◌, leb, ◌==◌, ◌&&◌,
  holds_below, holds_below-at, not,
}
use rathal_os.Memory.{store}

-- The assignments of a map, in order, upon the values that it had before.
abbrev pub assign : List (ℕ × ℕ) → (ℕ → ℕ) → ℕ → ℕ
assign [] map = map
assign ((key, c) ∷ rest) map = assign rest (store map key c)

-- The regular map.
abbrev pub regular_keys : List (ℕ × ℕ)
regular_keys =
    (0x01, 0x02)
    ∷ (0x02, 0x31)
    ∷ (0x03, 0x32)
    ∷ (0x04, 0x33)
    ∷ (0x05, 0x34)
    ∷ (0x06, 0x35)
    ∷ (0x07, 0x36)
    ∷ (0x08, 0x37)
    ∷ (0x09, 0x38)
    ∷ (0x0a, 0x39)
    ∷ (0x0b, 0x30)
    ∷ (0x10, 0x71)
    ∷ (0x11, 0x77)
    ∷ (0x12, 0x65)
    ∷ (0x13, 0x72)
    ∷ (0x14, 0x74)
    ∷ (0x15, 0x7a)
    ∷ (0x16, 0x75)
    ∷ (0x17, 0x69)
    ∷ (0x18, 0x6f)
    ∷ (0x19, 0x70)
    ∷ (0x1e, 0x61)
    ∷ (0x1f, 0x73)
    ∷ (0x20, 0x64)
    ∷ (0x21, 0x66)
    ∷ (0x22, 0x67)
    ∷ (0x23, 0x68)
    ∷ (0x24, 0x6a)
    ∷ (0x25, 0x6b)
    ∷ (0x26, 0x6c)
    ∷ (0x2c, 0x79)
    ∷ (0x2d, 0x78)
    ∷ (0x2e, 0x63)
    ∷ (0x2f, 0x76)
    ∷ (0x30, 0x62)
    ∷ (0x31, 0x6e)
    ∷ (0x32, 0x6d)
    ∷ (0x27, 0x82)
    ∷ (0x28, 0x85)
    ∷ (0x1a, 0x8a)
    ∷ (0x0c, 0x27)
    ∷ (0x33, 0x2c)
    ∷ (0x34, 0x2e)
    ∷ (0x35, 0x2d)
    ∷ (0x56, 0x3c)
    ∷ (0x1b, 0x21)
    ∷ (0x4b, 0x1b)
    ∷ (0x4d, 0x1a)
    ∷ (0x48, 0x18)
    ∷ (0x50, 0x19)
    ∷ (0x1c, 0x0d)
    ∷ (0x0e, 0x08)
    ∷ []

-- The map under shift.
abbrev pub shifted_keys : List (ℕ × ℕ)
shifted_keys =
    (0x01, 0x1b)
    ∷ (0x02, 0x2b)
    ∷ (0x03, 0x22)
    ∷ (0x04, 0x2a)
    ∷ (0x05, 0x80)
    ∷ (0x06, 0x25)
    ∷ (0x07, 0x26)
    ∷ (0x08, 0x2f)
    ∷ (0x09, 0x28)
    ∷ (0x0a, 0x29)
    ∷ (0x0b, 0x3d)
    ∷ (0x10, 0x51)
    ∷ (0x11, 0x57)
    ∷ (0x12, 0x45)
    ∷ (0x13, 0x52)
    ∷ (0x14, 0x54)
    ∷ (0x15, 0x5a)
    ∷ (0x16, 0x55)
    ∷ (0x17, 0x49)
    ∷ (0x18, 0x4f)
    ∷ (0x19, 0x50)
    ∷ (0x1e, 0x41)
    ∷ (0x1f, 0x53)
    ∷ (0x20, 0x44)
    ∷ (0x21, 0x46)
    ∷ (0x22, 0x47)
    ∷ (0x23, 0x48)
    ∷ (0x24, 0x4a)
    ∷ (0x25, 0x4b)
    ∷ (0x26, 0x4c)
    ∷ (0x2c, 0x59)
    ∷ (0x2d, 0x58)
    ∷ (0x2e, 0x43)
    ∷ (0x2f, 0x56)
    ∷ (0x30, 0x42)
    ∷ (0x31, 0x4e)
    ∷ (0x32, 0x4d)
    ∷ (0x27, 0x94)
    ∷ (0x28, 0x84)
    ∷ (0x1a, 0x81)
    ∷ (0x0c, 0x3f)
    ∷ (0x33, 0x3b)
    ∷ (0x34, 0x3a)
    ∷ (0x35, 0x5f)
    ∷ (0x1b, 0x22)
    ∷ (0x1c, 0x0d)
    ∷ (0x0e, 0x08)
    ∷ []

-- `init_keymap` empties both maps first.
unfoldable pub map : ℕ → ℕ
map = assign regular_keys (λ key. 0)

unfoldable pub shift_map : ℕ → ℕ
shift_map = assign shifted_keys (λ key. 0)

unfoldable pub scan2char : ℕ → Bool → ℕ
unfolding map shift_map
scan2char key_code shift = if not shift then map key_code else shift_map key_code

abbrev pub is_lower : ℕ → Bool
is_lower c = leb b'a' c && leb c b'z'

abbrev pub is_upper : ℕ → Bool
is_upper c = leb b'A' c && leb c b'Z'

letter_test : ℕ → Bool
letter_test key =
    if is_lower (scan2char key false)
    then scan2char key true + 32 == scan2char key false
    else not (is_upper (scan2char key true))

letter_table : holds_below letter_test 128 ≡ true
unfolding holds_below letter_test scan2char
letter_table = refl

-- On every key, shift turns a lower-case letter into its upper-case letter, and gives upper-case
-- letters on these keys only.
pub scan2char_letters :
    (key : ℕ)
    → key < 128
    → (is_lower (scan2char key false) ≡ true → scan2char key true + 32 ≡ scan2char key false)
      × (is_lower (scan2char key false) ≡ false → is_upper (scan2char key true) ≡ false)
unfolding letter_test
scan2char_letters key h =
    let t = holds_below-at letter_test {bound = 128} key h letter_table in
    (λ e. ground arith, λ e. ground arith)
