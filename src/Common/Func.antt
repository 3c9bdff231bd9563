-- ===== src/Common/Func.antt =====
-- common/func.c: memory blocks and strings. `p++` is the address `p + 1`. What the functions return
-- besides the memory is the pointer that they were given, unless the model says otherwise.
pub mod Blocks
pub mod Strings
pub mod Copy
pub mod Digits
pub mod Tests
use rathal_os.Prelude.{
  ℕ, zero, suc, ◌+◌, ◌%◌, ◌/◌, ◌^◌, Option, none, some, ℤ, sub_ℕ, if◌then◌else◌, ◌==◌, div_trunc,
  is_zero, abs_ℕ,
}
use rathal_os.Memory.{Memory, store}

unfoldable pub memset : Memory → ℕ → ℕ → ℕ → Memory
memset m p value zero = m
memset m p value (suc count) = memset (store m p (value % 256)) (p + 1) value count

unfoldable pub memcpy : Memory → ℕ → ℕ → ℕ → Memory
memcpy m dp sp zero = m
memcpy m dp sp (suc count) = memcpy (store m dp (m sp)) (dp + 1) (sp + 1) count

-- `while (*s++) cnt++` on fuel; `none` means that no NUL was met.
strlen_from : ℕ → Memory → ℕ → ℕ → Option ℕ
strlen_from zero m s cnt = none
strlen_from (suc fuel) m s cnt =
    let rest = strlen_from fuel m (s + 1) ((cnt + 1) % 2 ^ 32) in
    if m s == 0 then some cnt else rest

unfoldable pub strlen : ℕ → Memory → ℕ → Option ℕ
unfolding strlen_from
strlen fuel m s = strlen_from fuel m s 0

-- `while (count--) *dst++ = '\0'`
strncpy_pad : Memory → ℕ → ℕ → Memory
strncpy_pad m dst zero = m
strncpy_pad m dst (suc count) = strncpy_pad (store m dst 0) (dst + 1) count

unfoldable pub strncpy : Memory → ℕ → ℕ → ℕ → Memory
unfolding strncpy_pad
strncpy m dst src zero = m
strncpy m dst src (suc count) =
    let rest = strncpy (store m dst (m src)) (dst + 1) (src + 1) count in
    if m src == 0 then strncpy_pad (store m dst 0) (dst + 1) count else rest

-- On fuel, since nothing but a NUL or a difference ends the loop.
unfoldable pub strcmp : ℕ → Memory → ℕ → ℕ → Option ℤ
strcmp zero m p q = none
strcmp (suc fuel) m p q =
    let rest = strcmp fuel m (p + 1) (q + 1) in
    if m p == 0
    then some (sub_ℕ (m p) (m q))
    else if m p == m q
    then rest
    else some (sub_ℕ (m p) (m q))

-- `c1` and `c2` are the two characters read last; they are not initialised when `count` is 0.
strncmp_from : Memory → ℕ → ℕ → ℕ → ℕ → ℕ → ℤ
strncmp_from m p q zero c1 c2 = sub_ℕ c1 c2
strncmp_from m p q (suc count) c1 c2 =
    let rest = strncmp_from m (p + 1) (q + 1) count (m p) (m q) in
    if m p == 0 then sub_ℕ (m p) (m q) else if m p == m q then rest else sub_ℕ (m p) (m q)

-- The last two arguments are what `c1` and `c2` hold at the start.
unfoldable pub strncmp : Memory → ℕ → ℕ → ℕ → ℕ → ℕ → ℤ
unfolding strncmp_from
strncmp m p q count c1 c2 = strncmp_from m p q count c1 c2

-- `while ((*dst++ = *src++));`
strcat_copy : ℕ → Memory → ℕ → ℕ → Option Memory
strcat_copy zero m dst src = none
strcat_copy (suc fuel) m dst src =
    let rest = strcat_copy fuel (store m dst (m src)) (dst + 1) (src + 1) in
    if m src == 0 then some (store m dst (m src)) else rest

strcat_at : ℕ → Memory → ℕ → ℕ → Option ℕ → Option Memory
strcat_at fuel m dst src none = none
strcat_at fuel m dst src (some n) = strcat_copy fuel m (dst + n) src

unfoldable pub strcat : ℕ → Memory → ℕ → ℕ → Option Memory
unfolding strcat_at strcat_copy strlen
strcat fuel m dst src = strcat_at fuel m dst src (strlen fuel m dst)

-- `do i++; while (x /= 10);`. The fuel is the absolute value of `x` and one.
int_len_from : ℕ → ℤ → ℕ → Option ℕ
int_len_from zero x i = none
int_len_from (suc fuel) x i =
    let rest = int_len_from fuel (div_trunc x 10) (i + 1) in
    if is_zero (div_trunc x 10) then some (i + 1) else rest

unfoldable pub int_len : ℤ → Option ℕ
unfolding int_len_from
int_len x = int_len_from (suc (abs_ℕ x)) x 0
