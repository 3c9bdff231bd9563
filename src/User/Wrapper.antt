-- ===== src/User/Wrapper.antt =====
-- The string helpers of user/wrapper.c, on the memory as the program sees it; the lines that `trim`
-- prints are left out. Of the stack only the parameter of the wrapper's `strlen` is modelled, at the
-- address `arg`; the kernel reads it through the base of the program's own segments.
pub mod Pointer
pub mod Words
pub mod Calls
pub mod System
pub mod Tests
use rathal_os.Prelude.{
  ℕ, zero, suc, ◌+◌, ◌-◌, ◌*◌, ◌/◌, ◌%◌, ◌^◌, List, [], ◌∷◌, Option, none, some, if◌then◌else◌,
  ◌==◌, length, Bool, true, false,
}
use rathal_os.Memory.{Memory, store, store32}
use rathal_os.Common.Func.{strlen}

-- The loop of `starts_with` at index `i`, with `left` rounds to go: the result is 1 or 0.
starts_from : Memory → ℕ → ℕ → ℕ → ℕ → ℕ
starts_from m str line i zero = 1
starts_from m str line i (suc left) =
    let rest = starts_from m str line (i + 1) left in
    if m (str + (i + 1)) == m (line + i) then rest else 0

-- The wrapper's `strlen(str)`: its parameter is stored at `arg`, and the system call gets `&str`, so
-- that the kernel's `strlen` (common/func.c), which runs on fuel, starts at `arg`.
unfoldable pub strlen_of_pointer : ℕ → Memory → ℕ → ℕ → Option ℕ
unfolding strlen
strlen_of_pointer fuel m arg str = strlen fuel (store32 m arg str) arg

-- The result is 1 or 0.
unfoldable pub starts_with : ℕ → Memory → ℕ → ℕ → ℕ → Option ℕ
unfolding starts_from strlen_of_pointer
starts_with fuel m arg str line = elim (strlen_of_pointer fuel m arg str) [
  | none ↦ none
  | some size ↦ some (starts_from (store32 m arg str) str line 0 size)
]

-- `res*10 + str[i] - '0'` on an `int`, modulo 2 ^ 32.
abbrev pub add_digit : ℕ → ℕ → ℕ
add_digit res c = (res * 10 + c + 2 ^ 32 - 48) % 2 ^ 32

atoi_from : ℕ → Memory → ℕ → ℕ → Option ℕ
atoi_from zero m str res = none
atoi_from (suc fuel) m str res =
    let rest = atoi_from fuel m (str + 1) (add_digit res (m str)) in
    if m str == 0 then some res else rest

-- The bit pattern of the result.
unfoldable pub atoi : ℕ → Memory → ℕ → Option ℕ
unfolding atoi_from
atoi fuel m str = atoi_from fuel m str 0

-- The characters of `buf` from index `i` on that are not blanks, as `trim` gathers them in `tmp`.
gather : Memory → ℕ → ℕ → List ℕ
gather m buf zero = []
gather m buf (suc left) =
    let rest = gather m (buf + 1) left in if m buf == 32 then rest else m buf ∷ rest

-- Writing them back, and NULs up to `size`.
write_back : Memory → ℕ → List ℕ → ℕ → Memory
write_back m buf tmp zero = m
write_back m buf [] (suc left) = write_back (store m buf 0) (buf + 1) [] left
write_back m buf (c ∷ tmp) (suc left) = write_back (store m buf c) (buf + 1) tmp left

-- The string is changed in place. (`tmp` of `size` bytes takes one byte more if the `size` characters
-- have no blank; that write is not in the model.)
unfoldable pub trim : ℕ → Memory → ℕ → ℕ → Option Memory
unfolding gather write_back strlen_of_pointer
trim fuel m arg buf = elim (strlen_of_pointer fuel m arg buf) [
  | none ↦ none
  | some size ↦ let m' = store32 m arg buf in some (write_back m' buf (gather m' buf size) size)
]
