-- ===== src/Common/Bitmap/Bytes.antt =====
-- Setting and clearing one bit of a byte, by evaluation at all 256 bytes and 8 by 8 positions.
use rathal_os.Prelude.{
  ℕ, ◌+◌, ◌*◌, ◌%◌, ◌/◌, ◌^◌, ◌<◌, ◌≡◌, ◌≢◌, refl, arith, Bool, true, false, ◌==◌, if◌then◌else◌,
  bit_and, bit_or, holds_below, holds_below-at,
}
use rathal_os.Common.Bitmap.{complement}

-- Both writes at once: the new byte at position `j` reads as the old one, but at position `k`.
test : ℕ → ℕ → ℕ → Bool
test x k j =
    if j == k
    then (if bit_and (bit_or x (2 ^ k) % 256) (2 ^ j) == 0
        then false
        else bit_and (bit_and x (complement (2 ^ k)) % 256) (2 ^ j) == 0)
    else (if bit_and (bit_or x (2 ^ k) % 256) (2 ^ j) == bit_and x (2 ^ j)
        then bit_and (bit_and x (complement (2 ^ k)) % 256) (2 ^ j) == bit_and x (2 ^ j)
        else false)

table : holds_below (λ n. test (n / 64) (n / 8 % 8) (n % 8)) 16384 ≡ true
unfolding holds_below test
table = refl

test-holds : (x k j : ℕ) → x < 256 → k < 8 → j < 8 → test x k j ≡ true
test-holds x k j hx hk hj =
    rw (the_parts.0, the_parts.1, the_parts.2) at
      (holds_below-at (λ n. test (n / 64) (n / 8 % 8) (n % 8)) {bound = 16384} (x * 64 + k * 8 + j)
        (omega arith) table)
  where
    the_parts :
        ((x * 64 + k * 8 + j) / 64 ≡ x)
        × ((x * 64 + k * 8 + j) / 8 % 8 ≡ k)
        × ((x * 64 + k * 8 + j) % 8 ≡ j)
    the_parts = omega arith

pub or_self : (x k : ℕ) → x < 256 → k < 8 → bit_and (bit_or x (2 ^ k) % 256) (2 ^ k) ≢ 0
unfolding test
or_self x k hx hk e = ground (arith, test-holds x k k hx hk hk)

pub or_ne :
    (x k j : ℕ)
    → x < 256
    → k < 8
    → j < 8
    → j ≢ k
    → bit_and (bit_or x (2 ^ k) % 256) (2 ^ j) ≡ bit_and x (2 ^ j)
unfolding test
or_ne x k j hx hk hj ne = ground (arith, test-holds x k j hx hk hj)

pub and_self :
    (x k : ℕ) → x < 256 → k < 8 → bit_and (bit_and x (complement (2 ^ k)) % 256) (2 ^ k) ≡ 0
unfolding test
and_self x k hx hk = ground (arith, test-holds x k k hx hk hk)

pub and_ne :
    (x k j : ℕ)
    → x < 256
    → k < 8
    → j < 8
    → j ≢ k
    → bit_and (bit_and x (complement (2 ^ k)) % 256) (2 ^ j) ≡ bit_and x (2 ^ j)
unfolding test
and_ne x k j hx hk hj ne = ground (arith, test-holds x k j hx hk hj)
