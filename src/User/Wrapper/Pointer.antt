-- ===== src/User/Wrapper/Pointer.antt =====
-- The bytes of a pointer, which the wrapper's `strlen` (user/wrapper.c) measures.
use rathal_os.Prelude.{ℕ, ◌+◌, ◌/◌, ◌%◌, ◌^◌, ◌<◌, ◌≡◌, ◌≢◌, arith, [], ◌∷◌, some, ◌∙◌}
use rathal_os.Memory.{Memory, load32, store32, IsString, IsBytes, at}
use rathal_os.Common.Func.Strings.{strlen_lem}
use rathal_os.User.Wrapper.{strlen_of_pointer}

-- The bytes of a pointer below 2 ^ 24 as a string.
pub pointer-IsString :
    (m : Memory) (p v : ℕ)
    → IsBytes m
    → load32 m p ≡ v
    → v < 2 ^ 24
    → v % 256 ≢ 0
    → v / 256 % 256 ≢ 0
    → v / 65536 ≢ 0
    → IsString m p (v % 256 ∷ v / 256 % 256 ∷ v / 65536 ∷ [])
pointer-IsString m p v bytes e small b0 b1 b2 =
    let l0 = bytes p in
    let l1 = bytes (p + 1) in
    let l2 = bytes (p + 2) in
    let l3 = bytes (p + 3) in
    let w1 : m (p + 1 + 1) ≡ m (p + 2) = at m (p + 1 + 1) (p + 2) (omega arith) in
    let w2 : m (p + 1 + 1 + 1) ≡ m (p + 3) = at m (p + 1 + 1 + 1) (p + 3) (omega arith) in
    (
      (omega (arith, e)),
      b0,
      (omega (arith, e), b1, (w1 ∙ omega (arith, e), b2, w2 ∙ omega (arith, e))),
    )

-- The wrapper's `strlen` of a pointer below 2 ^ 24 whose three low bytes are not 0.
pub strlen_of_pointer_lem :
    (fuel : ℕ) (m : Memory) (arg str : ℕ)
    → str < 2 ^ 24
    → str % 256 ≢ 0
    → str / 256 % 256 ≢ 0
    → str / 65536 ≢ 0
    → 3 < fuel
    → strlen_of_pointer fuel m arg str ≡ some 3
unfolding strlen_of_pointer
strlen_of_pointer_lem fuel m arg str small b0 b1 b2 enough =
    strlen_lem fuel (store32 m arg str) arg (str % 256 ∷ str / 256 % 256 ∷ str / 65536 ∷ []) held
      (omega arith) enough
  where
    m' : Memory
    m' = store32 m arg str

    held : IsString (store32 m arg str) arg (str % 256 ∷ str / 256 % 256 ∷ str / 65536 ∷ [])
    held =
        let w1 : store32 m arg str (arg + 1 + 1) ≡ store32 m arg str (arg + 2) =
          at (store32 m arg str) (arg + 1 + 1) (arg + 2) (omega arith) in
        let w2 : store32 m arg str (arg + 1 + 1 + 1) ≡ store32 m arg str (arg + 3) =
          at (store32 m arg str) (arg + 1 + 1 + 1) (arg + 3) (omega arith) in
        (ground arith, b0, (ground arith, b1, (w1 ∙ ground arith, b2, w2 ∙ ground arith)))
