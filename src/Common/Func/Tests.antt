-- ===== src/Common/Func/Tests.antt =====
-- The string and block functions at concrete inputs.
use rathal_os.Prelude.{ℕ, ◌≡◌, refl, arith, none, some, List, [], ◌∷◌, pos, negsuc}
use rathal_os.Memory.{Memory, IsString, place, zeros}
use rathal_os.Common.Func.{strlen, strcmp, strncmp, int_len}

abbrev cat : List ℕ
cat = b'c' ∷ b'a' ∷ b't' ∷ []

abbrev car : List ℕ
car = b'c' ∷ b'a' ∷ b'r' ∷ []

-- "cat" at 100 and "car" at 200.
abbrev words : Memory
words = place 100 cat (place 200 car zeros)

cat-IsString : IsString words 100 cat
cat-IsString = omega arith

car-IsString : IsString words 200 car
car-IsString = omega arith

strlen_stops : (strlen 4 words 100 ≡ some 3) × (strlen 3 words 100 ≡ none)
unfolding strlen
strlen_stops = (refl, refl)

strcmp_signs :
    (strcmp 9 words 100 200 ≡ some (pos 2))
    × (strcmp 9 words 200 100 ≡ some (negsuc 1))
    × (strncmp words 100 200 2 0 0 ≡ pos 0)
unfolding strcmp strncmp
strcmp_signs = (refl, refl, refl)

int_len_runs : (int_len (pos 0) ≡ some 1) × (int_len (negsuc 1233) ≡ some 4)
unfolding int_len
int_len_runs = (refl, refl)
