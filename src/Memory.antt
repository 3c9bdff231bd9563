-- ===== src/Memory.antt =====
-- The flat memory of the kernel (one segment from address 0 on, kernel/gdt/gdt.c), and the
-- NUL-terminated strings and little-endian numbers that stand in it.
use rathal_os.Prelude.{
  ◌^◌, ◌≤◌, ◌⊎◌, ℕ, zero, suc, ◌+◌, ◌*◌, ◌%◌, ◌/◌, ◌≡◌, ◌≢◌, ap, List, [], ◌∷◌, if◌then◌else◌, ◌==◌,
  ◌<◌, arith, ◌-◌, leb, ltb, ◌&&◌, length, get_or,
}

-- The byte at each address. Addresses do not wrap.
abbrev pub Memory : Type 0
Memory = ℕ → ℕ

-- `*p = v` for a byte `v`.
abbrev pub store : Memory → ℕ → ℕ → Memory
store m p v a = if p == a then v else m a

-- Memory is a function, so equal addresses hold equal bytes.
pub at : (m : Memory) (a b : ℕ) → a ≡ b → m a ≡ m b
at m a b e = ap m e

-- A `uint16_t` and a `uint32_t`, little-endian.
abbrev pub load16 : Memory → ℕ → ℕ
load16 m p = m p + 256 * m (p + 1)

abbrev pub load32 : Memory → ℕ → ℕ
load32 m p = m p + 256 * m (p + 1) + 65536 * m (p + 2) + 16777216 * m (p + 3)

abbrev pub store16 : Memory → ℕ → ℕ → Memory
store16 m p v = store (store m p (v % 256)) (p + 1) (v / 256 % 256)

abbrev pub store32 : Memory → ℕ → ℕ → Memory
store32 m p v =
    store (store (store (store m p (v % 256)) (p + 1) (v / 256 % 256)) (p + 2) (v / 65536 % 256))
      (p + 3) (v / 16777216 % 256)

-- The string at `p` consists of the characters `xs`, none of them NUL, and a NUL behind them.
abbrev pub IsString : Memory → ℕ → List ℕ → Type 0
IsString m p [] = m p ≡ 0
IsString m p (x ∷ xs) = (m p ≡ x) × (x ≢ 0) × IsString m (p + 1) xs

-- Every address holds a byte.
abbrev pub IsBytes : Memory → Type 0
IsBytes m = (a : ℕ) → m a < 256

pub store-IsBytes : (m : Memory) (p v : ℕ) → IsBytes m → v < 256 → IsBytes (store m p v)
store-IsBytes m p v h lt a = ground (arith, h a)

-- A word reads back, and leaves the bytes outside.
pub load32-store32 : (m : Memory) (p v : ℕ) → v < 2 ^ 32 → load32 (store32 m p v) p ≡ v
load32-store32 m p v small =
    word (store32 m p v) (ground arith) (ground arith) (ground arith) (ground arith)
  where
    word :
        (m' : Memory)
        → m' p ≡ v % 256
        → m' (p + 1) ≡ v / 256 % 256
        → m' (p + 2) ≡ v / 65536 % 256
        → m' (p + 3) ≡ v / 16777216 % 256
        → load32 m' p ≡ v
    word m' a b c d = omega arith

pub store32-outside : (m : Memory) (p v a : ℕ) → (a < p) ⊎ (p + 4 ≤ a) → store32 m p v a ≡ m a
store32-outside m p v a out = ground arith

-- Memory that holds the bytes `xs` from `p` on: data of tests.
abbrev pub place : ℕ → List ℕ → Memory → Memory
place p xs m a = if leb p a && ltb a (p + length xs) then get_or xs (a - p) 0 else m a

abbrev pub zeros : Memory
zeros a = 0

abbrev pub AllBytes : List ℕ → Type 0
AllBytes [] = Unit {0}
AllBytes (x ∷ xs) = (x < 256) × AllBytes xs

get_or-lt : (xs : List ℕ) (i : ℕ) → AllBytes xs → get_or xs i 0 < 256
get_or-lt [] i h = omega arith
get_or-lt (x ∷ xs) zero h = h.0
get_or-lt (x ∷ xs) (suc i) h = get_or-lt xs i h.1

pub place-IsBytes :
    (p : ℕ) (xs : List ℕ) (m : Memory) → AllBytes xs → IsBytes m → IsBytes (place p xs m)
place-IsBytes p xs m h k a = ground (arith, get_or-lt xs (a - p) h, k a)
