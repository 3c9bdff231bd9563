-- ===== src/Common/Func/Strings.antt =====
-- The string functions on NUL-terminated strings, seen as lists of characters.
use rathal_os.Prelude.{
  ℕ, zero, suc, ◌+◌, ◌^◌, ◌<◌, ◌≡◌, ◌≢◌, refl, ◌↔◌, arith, if◌then◌else◌, ◌==◌, some, List, [], ◌∷◌,
  length, take, ℤ, pos, sub_ℕ, ap, sym, ◌∙◌,
}
use rathal_os.Memory.{Memory, IsString}
use rathal_os.Common.Func.{strlen_from, strlen, strcmp, strncmp_from, strncmp}

strlen_from_lem :
    (fuel : ℕ) (m : Memory) (s cnt : ℕ) (xs : List ℕ)
    → IsString m s xs
    → cnt + length xs < 2 ^ 32
    → length xs < fuel
    → strlen_from fuel m s cnt ≡ some (cnt + length xs)
unfolding strlen_from
strlen_from_lem zero m s cnt xs str small enough = absurd (omega arith)
strlen_from_lem (suc fuel) m s cnt [] str small enough = ground arith
strlen_from_lem (suc fuel) m s cnt (x ∷ xs) str small enough =
    ground (arith, strlen_from_lem fuel m (s + 1) (cnt + 1) xs str.2)

-- `strlen` of a string shorter than 2 ^ 32 returns its length once the fuel exceeds it.
pub strlen_lem :
    (fuel : ℕ) (m : Memory) (s : ℕ) (xs : List ℕ)
    → IsString m s xs
    → length xs < 2 ^ 32
    → length xs < fuel
    → strlen fuel m s ≡ some (length xs)
unfolding strlen
strlen_lem fuel m s xs str small enough = ground (arith, strlen_from_lem fuel m s 0 xs str)

-- The specification of both comparisons: the difference of the first two characters that differ,
-- the end of a string counting as 0.
abbrev pub order : List ℕ → List ℕ → ℤ
order [] [] = pos 0
order [] (y ∷ ys) = sub_ℕ 0 y
order (x ∷ xs) [] = sub_ℕ x 0
order (x ∷ xs) (y ∷ ys) = if x == y then order xs ys else sub_ℕ x y

-- Characters of a string are not NUL.
abbrev pub NoNul : List ℕ → Type 0
NoNul [] = Unit {0}
NoNul (x ∷ xs) = (x ≢ 0) × NoNul xs

pub string-NoNul : (m : Memory) (p : ℕ) (xs : List ℕ) → IsString m p xs → NoNul xs
string-NoNul m p [] h = tt
string-NoNul m p (x ∷ xs) h = (h.1, string-NoNul m (p + 1) xs h.2)

pub take-NoNul : (n : ℕ) (xs : List ℕ) → NoNul xs → NoNul (take n xs)
take-NoNul zero xs h = tt
take-NoNul (suc n) [] h = tt
take-NoNul (suc n) (x ∷ xs) h = (h.0, take-NoNul n xs h.1)

pub order_zero : (xs ys : List ℕ) → NoNul xs → NoNul ys → order xs ys ≡ pos 0 → xs ≡ ys
order_zero [] [] hx hy e = refl
order_zero [] (y ∷ ys) hx hy e = ground arith
order_zero (x ∷ xs) [] hx hy e = ground arith
order_zero (x ∷ xs) (y ∷ ys) hx hy e = ground (arith, order_zero xs ys hx.1 hy.1)

pub order_self : (xs : List ℕ) → order xs xs ≡ pos 0
order_self [] = refl
order_self (x ∷ xs) = ground (arith, order_self xs)

strcmp-order :
    (fuel : ℕ) (m : Memory) (p q : ℕ) (xs ys : List ℕ)
    → IsString m p xs
    → IsString m q ys
    → length xs < fuel
    → strcmp fuel m p q ≡ some (order xs ys)
unfolding strcmp
strcmp-order zero m p q xs ys sx sy h = absurd (omega arith)
strcmp-order (suc fuel) m p q [] [] sx sy h = ground arith
strcmp-order (suc fuel) m p q [] (y ∷ ys) sx sy h = ground arith
strcmp-order (suc fuel) m p q (x ∷ xs) [] sx sy h = ground arith
strcmp-order (suc fuel) m p q (x ∷ xs) (y ∷ ys) sx sy h =
    ground (arith, strcmp-order fuel m (p + 1) (q + 1) xs ys sx.2 sy.2)

strncmp_from-order :
    (count : ℕ) (m : Memory) (p q c : ℕ) (xs ys : List ℕ)
    → IsString m p xs
    → IsString m q ys
    → strncmp_from m p q count c c ≡ order (take count xs) (take count ys)
unfolding strncmp_from
strncmp_from-order zero m p q c xs ys sx sy = ground arith
strncmp_from-order (suc count) m p q c [] [] sx sy = ground arith
strncmp_from-order (suc count) m p q c [] (y ∷ ys) sx sy = ground arith
strncmp_from-order (suc count) m p q c (x ∷ xs) [] sx sy = ground arith
strncmp_from-order (suc count) m p q c (x ∷ xs) (y ∷ ys) sx sy =
    ground (arith, strncmp_from-order count m (p + 1) (q + 1) x xs ys sx.2 sy.2)

strncmp-order :
    (count : ℕ) (m : Memory) (p q c1 c2 : ℕ) (xs ys : List ℕ)
    → IsString m p xs
    → IsString m q ys
    → strncmp m p q (suc count) c1 c2 ≡ order (take (suc count) xs) (take (suc count) ys)
unfolding strncmp strncmp_from
strncmp-order count m p q c1 c2 xs ys sx sy = strncmp_from-order (suc count) m p q c1 xs ys sx sy

-- `strcmp` returns 0 exactly for equal strings, once the fuel exceeds the length of the first; it
-- returns for all strings, and what it returns is the difference of the first differing characters.
pub strcmp_lem :
    (fuel : ℕ) (m : Memory) (p q : ℕ) (xs ys : List ℕ)
    → IsString m p xs
    → IsString m q ys
    → length xs < fuel
    → (strcmp fuel m p q ≡ some (order xs ys)) × ((strcmp fuel m p q ≡ some (pos 0)) ↔ (xs ≡ ys))
strcmp_lem fuel m p q xs ys sx sy h =
    let runs = strcmp-order fuel m p q xs ys sx sy h in
    (
      runs,
      (
        λ e. order_zero xs ys (string-NoNul m p xs sx) (string-NoNul m q ys sy) (cc),
        λ e. runs ∙ ap some (rw e (order_self ys)),
      ),
    )

-- `strncmp` with a positive count returns 0 exactly if the strings agree in their first `count`
-- characters, whatever its two locals held at the start.
pub strncmp_zero_iff :
    (count : ℕ) (m : Memory) (p q c1 c2 : ℕ) (xs ys : List ℕ)
    → IsString m p xs
    → IsString m q ys
    → 0 < count
    → (strncmp m p q count c1 c2 ≡ pos 0) ↔ (take count xs ≡ take count ys)
unfolding strncmp
strncmp_zero_iff zero m p q c1 c2 xs ys sx sy h = absurd (omega arith)
strncmp_zero_iff (suc count) m p q c1 c2 xs ys sx sy h =
    let runs = strncmp-order count m p q c1 c2 xs ys sx sy in
    (
      λ e.
          order_zero _ _ (take-NoNul (suc count) xs (string-NoNul m p xs sx))
            (take-NoNul (suc count) ys (string-NoNul m q ys sy)) (sym runs ∙ e),
      λ e. runs ∙ (rw e (order_self (take (suc count) ys))),
    )
