-- ===== src/Common/Func/Copy.antt =====
-- `strncpy` and `strcat` on NUL-terminated strings.
use rathal_os.Prelude.{
  ℕ, zero, suc, ◌+◌, ◌-◌, ◌^◌, ◌≤◌, ◌<◌, ◌≡◌, ◌≢◌, refl, ◌⊎◌, arith, leb, ltb, ◌&&◌, if◌then◌else◌,
  some, List, [], ◌∷◌, ◌++◌, length, get_or, ap,
}
use rathal_os.Memory.{Memory, store, IsString}
use rathal_os.Common.Func.{strncpy_pad, strncpy, strcat_copy, strcat}
use rathal_os.Common.Func.Strings.{strlen_lem}

-- A write outside a string leaves the string.
pub IsString-store :
    (m : Memory) (a v p : ℕ) (xs : List ℕ)
    → (a < p) ⊎ (p + length xs < a)
    → IsString m p xs
    → IsString (store m a v) p xs
IsString-store m a v p [] h s = ground arith
IsString-store m a v p (x ∷ xs) h s =
    (ground arith, s.1, IsString-store m a v (p + 1) xs (ground arith) s.2)

strncpy_pad_lem :
    (m : Memory) (dst count a : ℕ)
    → strncpy_pad m dst count a ≡ (if leb dst a && ltb a (dst + count) then 0 else m a)
unfolding strncpy_pad
strncpy_pad_lem m dst zero a = ground arith
strncpy_pad_lem m dst (suc count) a =
    ground (arith, strncpy_pad_lem (store m dst 0) (dst + 1) count a)

-- `strncpy` leaves every byte outside its block, whatever the source holds.
pub strncpy-outside :
    (m : Memory) (dst src count a : ℕ)
    → (a < dst) ⊎ (dst + count ≤ a)
    → strncpy m dst src count a ≡ m a
unfolding strncpy
strncpy-outside m dst src zero a h = refl
strncpy-outside m dst src (suc count) a h = ground (
  arith,
  strncpy_pad_lem (store m dst 0) (dst + 1) count a,
  strncpy-outside (store m dst (m src)) (dst + 1) (src + 1) count a,
)

get_or-cons : (x : ℕ) (xs : List ℕ) (n : ℕ) → n ≢ 0 → get_or (x ∷ xs) n 0 ≡ get_or xs (n - 1) 0
get_or-cons x xs zero h = absurd (h refl)
get_or-cons x xs (suc n) h = ap (λ k. get_or xs k 0) (omega arith)

-- `strncpy` from a string that the destination block does not touch: the block of `count` bytes
-- receives the characters of the string, cut off at `count` (then with no NUL) or filled up with
-- NULs, and every byte outside the block is left.
pub strncpy_lem :
    (m : Memory) (dst src count a : ℕ) (xs : List ℕ)
    → IsString m src xs
    → (src + length xs < dst) ⊎ (dst + count ≤ src)
    → strncpy m dst src count a
      ≡ (if leb dst a && ltb a (dst + count) then get_or xs (a - dst) 0 else m a)
unfolding strncpy
strncpy_lem m dst src zero a xs s h = ground arith
strncpy_lem m dst src (suc count) a [] s h =
    ground (arith, strncpy_pad_lem (store m dst 0) (dst + 1) count a)
strncpy_lem m dst src (suc count) a (x ∷ xs) s h = ground (
  arith,
  strncpy_lem (store m dst (m src)) (dst + 1) (src + 1) count a xs
      (IsString-store m dst (m src) (src + 1) xs (ground arith) s.2) (ground arith),
  get_or-cons x xs (a - dst),
  ap (λ k. get_or xs k 0) (the_rest a dst),
)
  where
    the_rest : (a dst : ℕ) → a - (dst + 1) ≡ a - dst - 1
    the_rest a dst = omega arith

-- What the copying loop of `strcat` leaves.
record Copied (m m' : Memory) (dst : ℕ) (ys : List ℕ) : Type 0 where
  pub string : IsString m' dst ys
  pub before : (a : ℕ) → a < dst → m' a ≡ m a

strcat_copy_lem :
    (fuel : ℕ) (m : Memory) (dst src : ℕ) (ys : List ℕ)
    → IsString m src ys
    → (src + length ys < dst) ⊎ (dst + length ys < src)
    → length ys < fuel
    → (m' : Memory) × (strcat_copy fuel m dst src ≡ some m') × Copied m m' dst ys
unfolding strcat_copy
strcat_copy_lem zero m dst src ys s apart h = absurd (omega arith)
strcat_copy_lem (suc fuel) m dst src [] s apart h = (
  store m dst (m src),
  ground arith,
  record { string = ground arith; before = λ a lt. ground arith },
)
strcat_copy_lem (suc fuel) m dst src (y ∷ ys) s apart h =
    let (m', e, c) =
      strcat_copy_lem fuel (store m dst (m src)) (dst + 1) (src + 1) ys
        (IsString-store m dst (m src) (src + 1) ys (ground arith) s.2) (ground arith)
        (omega arith) in
    (
      m',
      ground arith,
      record {
        string = (ground (arith, c.before dst), s.1, c.string);
        before = λ a lt. ground (arith, c.before a);
      },
    )

IsString-append :
    (m m' : Memory) (p q : ℕ) (xs ys : List ℕ)
    → IsString m p xs
    → ((a : ℕ) → a < q → m' a ≡ m a)
    → p + length xs ≡ q
    → IsString m' q ys
    → IsString m' p (xs ++ ys)
IsString-append m m' p q [] ys s same e t = let e' : p ≡ q = omega arith in rw e' t
IsString-append m m' p q (x ∷ xs) ys s same e t =
    (ground (arith, same p), s.1, IsString-append m m' (p + 1) q xs ys s.2 same (omega arith) t)

-- `strcat` returns, given fuel above both lengths, and leaves at `dst` the concatenation of the two
-- strings; bytes before the end of the first string are left. The bytes that it writes, from the
-- NUL of `dst` on, must not meet the second string.
pub strcat_lem :
    (fuel : ℕ) (m : Memory) (dst src : ℕ) (xs ys : List ℕ)
    → IsString m dst xs
    → IsString m src ys
    → (src + length ys < dst + length xs) ⊎ (dst + length xs + length ys < src)
    → length xs < 2 ^ 32
    → length xs < fuel
    → length ys < fuel
    → (m' : Memory) × (strcat fuel m dst src ≡ some m')
      × IsString m' dst (xs ++ ys)
      × ((a : ℕ) → a < dst + length xs → m' a ≡ m a)
unfolding strcat
strcat_lem fuel m dst src xs ys sx sy apart small hx hy =
    let (m', e, c) = strcat_copy_lem fuel m (dst + length xs) src ys sy apart hy in
    (
      m',
      rw (strlen_lem fuel m dst xs sx small hx) e,
      IsString-append m m' dst (dst + length xs) xs ys sx c.before refl c.string,
      c.before,
    )
