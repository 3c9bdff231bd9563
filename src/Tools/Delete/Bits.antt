-- ===== src/Tools/Delete/Bits.antt =====
-- Which bits and inodes a deletion clears.
use native.Mathlib.Decide.{ℕ_discrete}
use rathal_os.Prelude.{
  ℕ, zero, suc, ◌+◌, ◌*◌, ◌/◌, ◌<◌, ◌≤◌, ◌≡◌, ◌≢◌, refl, arith, ◌&&◌, ◌==◌, ◌||◌, not, Bool, ap,
  ap₂, ◌∙◌, true, false, ◌⊎◌,
}
use rathal_os.Memory.{Memory, load16, IsBytes}
use rathal_os.Common.Bitmap.{Bitmap, bitmap_get}
use rathal_os.Common.Bitmap.Bits.{bit, bitmap_set-frame, bitmap_set-IsBytes, bit-bitmap_set}
use rathal_os.Tools.Fs.Content.{Apart}
use rathal_os.Tools.Delete.{clear_pointer, clear_pointers}

clear_pointer-outside :
    (m : Memory) (b : Bitmap) (idx a : ℕ) → a ≢ b.bits + idx / 8 → clear_pointer m b idx a ≡ m a
unfolding clear_pointer
clear_pointer-outside m b idx a ne = ground (arith, bitmap_set-frame m b idx 0 a ne)

pub clear_pointer-IsBytes :
    (m : Memory) (b : Bitmap) (idx : ℕ) → IsBytes m → IsBytes (clear_pointer m b idx)
unfolding clear_pointer
clear_pointer-IsBytes m b idx h a = ground (arith, bitmap_set-IsBytes m b idx 0 h a, h a)

bit-clear_pointer :
    (m : Memory) (b : Bitmap) (idx k : ℕ)
    → IsBytes m
    → bit (clear_pointer m b idx) b k ≡ (bit m b k && not (k == idx && not (k == 0)))
unfolding clear_pointer
bit-clear_pointer m b idx k h = elim (ℕ_discrete idx k) [
  | yes e ↦ ground (arith, bit-bitmap_set m b idx 0 k h, ap (bitmap_get m b) e)
  | no ne ↦ ground (arith, bit-bitmap_set m b idx 0 k h)
]

-- Is `k` one of the `left` words from `p` on, and not 0?
abbrev pub is_pointed : Memory → ℕ → ℕ → ℕ → Bool
is_pointed m p zero k = false
is_pointed m p (suc left) k =
    let rest = is_pointed m (p + 2) left k in (k == load16 m p && not (k == 0)) || rest

-- The words are indices of the bitmap, whose storage is apart from them.
pub record ArePointers (m : Memory) (b : Bitmap) (p left : ℕ) : Type 0 where
  pub below : (j : ℕ) → j < left → load16 m (p + 2 * j) < 8 * b.size
  pub apart : Apart b.bits b.size p (2 * left)

pub word_same :
    (m m' : Memory) (a b : ℕ) → m' a ≡ m a → m' b ≡ m b → m' a + 256 * m' b ≡ m a + 256 * m b
word_same m m' a b e e' = ap₂ (λ (x y : ℕ). x + 256 * y) e e'

pub is_pointed-same :
    (m m' : Memory) (p left k : ℕ)
    → ((a : ℕ) → p ≤ a → a < p + 2 * left → m' a ≡ m a)
    → is_pointed m' p left k ≡ is_pointed m p left k
is_pointed-same m m' p zero k same = refl
is_pointed-same m m' p (suc left) k same =
    ap₂ (λ (w : ℕ) (r : Bool). (k == w && not (k == 0)) || r)
      (word_same m m' p (p + 1) (same p (omega arith) (omega arith))
        (same (p + 1) (omega arith) (omega arith)))
      (is_pointed-same m m' (p + 2) left k (λ a lo hi. same a (omega arith) (omega arith)))

-- The first word, and the words behind it after its bit is cleared.
first_below :
    (m : Memory) (b : Bitmap) (p left : ℕ) → ArePointers m b p (suc left) → load16 m p < 8 * b.size
first_below m b p left v =
    let e : load16 m (p + 2 * 0) ≡ load16 m p =
      ap (load16 m) {x = p + 2 * 0} {y = p} (omega arith) in
    omega (arith, e, v.below 0 (omega arith))

words_same :
    (m : Memory) (b : Bitmap) (p left a : ℕ)
    → ArePointers m b p (suc left)
    → p ≤ a
    → a < p + 2 * suc left
    → clear_pointer m b (load16 m p) a ≡ m a
words_same m b p left a v lo hi =
    clear_pointer-outside m b (load16 m p) a
      (λ e. omega (arith, e, v.apart, first_below m b p left v))

ArePointers-next :
    (m : Memory) (b : Bitmap) (p left : ℕ)
    → ArePointers m b p (suc left)
    → ArePointers (clear_pointer m b (load16 m p)) b (p + 2) left
ArePointers-next m b p left v = record {
  below = λ j lt.
      let same =
        word_same m (clear_pointer m b (load16 m p)) (p + 2 + 2 * j) (p + 2 + 2 * j + 1)
          (words_same m b p left (p + 2 + 2 * j) v (omega arith) (omega arith))
          (words_same m b p left (p + 2 + 2 * j + 1) v (omega arith) (omega arith)) in
      let there : load16 m (p + 2 + 2 * j) ≡ load16 m (p + 2 * suc j) =
        ap (load16 m) {x = p + 2 + 2 * j} {y = p + 2 * suc j} (omega arith) in
      omega (arith, same, there, v.below (suc j) (omega arith));
  apart = omega (arith, v.apart);
}

-- The loop over pointers clears the bits that they name, but for that of block 0, and no other.
pub bit-clear_pointers :
    (m : Memory) (b : Bitmap) (p left k : ℕ)
    → IsBytes m
    → ArePointers m b p left
    → bit (clear_pointers m b p left) b k ≡ (bit m b k && not (is_pointed m p left k))
unfolding clear_pointers
bit-clear_pointers m b p zero k h v = ground arith
bit-clear_pointers m b p (suc left) k h v =
    let m' = clear_pointer m b (load16 m p) in
    bit-clear_pointers m' b (p + 2) left k (clear_pointer-IsBytes m b (load16 m p) h)
      (ArePointers-next m b p left v)
    ∙ ap₂ (λ (x y : Bool). x && not y) (bit-clear_pointer m b (load16 m p) k h)
        (is_pointed-same m m' (p + 2) left k
          (λ a lo hi. words_same m b p left a v (omega arith) (omega arith)))
    ∙ both (bit m b k) (k == load16 m p && not (k == 0)) (is_pointed m (p + 2) left k)
  where
    both : (x y z : Bool) → (x && not y && not z) ≡ (x && not (y || z))
    both true true z = refl
    both true false z = refl
    both false y z = refl

-- It changes the storage of the bitmap only.
pub clear_pointers-outside :
    (m : Memory) (b : Bitmap) (p left a : ℕ)
    → ArePointers m b p left
    → (a < b.bits) ⊎ (b.bits + b.size ≤ a)
    → clear_pointers m b p left a ≡ m a
unfolding clear_pointers
clear_pointers-outside m b p zero a v out = refl
clear_pointers-outside m b p (suc left) a v out =
    clear_pointers-outside (clear_pointer m b (load16 m p)) b (p + 2) left a
      (ArePointers-next m b p left v) out
    ∙ clear_pointer-outside m b (load16 m p) a
        (λ e. omega (arith, e, out, first_below m b p left v))

-- It leaves bytes.
pub clear_pointers-IsBytes :
    (m : Memory) (b : Bitmap) (p left : ℕ) → IsBytes m → IsBytes (clear_pointers m b p left)
unfolding clear_pointers
clear_pointers-IsBytes m b p zero h = h
clear_pointers-IsBytes m b p (suc left) h =
    clear_pointers-IsBytes (clear_pointer m b (load16 m p)) b (p + 2) left
      (clear_pointer-IsBytes m b (load16 m p) h)
