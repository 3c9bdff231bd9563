-- ===== src/Kernel/Keyboard/Ring.antt =====
-- The characters that wait in the ring, and what the handler and `getc` do to them.
use rathal_os.Prelude.{
  ℕ, zero, suc, ◌+◌, ◌%◌, ◌<◌, ◌≡◌, ◌≢◌, refl, arith, false, List, [], ◌∷◌, ◌++◌, if◌then◌else◌,
  ◌==◌, set, get_or, get_or-set_self, get_or-set_ne, length, length-set, ap, ap₂, ◌∙◌, inl, inr,
  ◌⊎◌,
}
use rathal_os.Kernel.Keyboard.{Keyboard, add_key}

pub record IsValid (k : Keyboard) : Type 0 where
  pub storage : length k.fifo_buffer ≡ 256
  pub tail_in : k.tail < 256
  pub size_in : k.size < 256
  pub head_at : k.head ≡ (k.tail + k.size) % 256

-- The `n` characters from index `t` on, round the end of the buffer.
abbrev pub from : List ℕ → ℕ → ℕ → List ℕ
from buffer t zero = []
from buffer t (suc n) = get_or buffer t 0 ∷ from buffer ((t + 1) % 256) n

-- The keys that wait, the oldest first.
abbrev pub pending : Keyboard → List ℕ
pending k = from k.fifo_buffer k.tail k.size

pub length-from : (buffer : List ℕ) (t n : ℕ) → length (from buffer t n) ≡ n
length-from buffer t zero = refl
length-from buffer t (suc n) = ap suc (length-from buffer ((t + 1) % 256) n)

-- Storing just behind the last character appends it, if the ring has room.
from-set :
    (buffer : List ℕ) (t n c i : ℕ)
    → length buffer ≡ 256
    → t < 256
    → n < 256
    → i ≡ (t + n) % 256
    → from (set buffer i c) t (suc n) ≡ from buffer t n ++ (c ∷ [])
from-set buffer t zero c i h ht hn e =
    let e' : i ≡ t = omega arith in rw (e', get_or-set_self buffer t c 0 (omega arith)) refl
from-set buffer t (suc n) c i h ht hn e =
    ap₂ ◌∷◌ (get_or-set_ne buffer i t c 0 (λ same. omega arith))
      (from-set buffer ((t + 1) % 256) n c i h (omega arith) (omega arith) (omega arith))

pub add_key-IsValid : (k : Keyboard) (c : ℕ) → IsValid k → IsValid (add_key k c)
unfolding add_key
add_key-IsValid k c v = record {
  storage = length-set k.fifo_buffer k.head c ∙ v.storage;
  tail_in = v.tail_in;
  size_in = omega arith;
  head_at = omega (arith, v.tail_in, v.size_in, v.head_at);
}

-- A character that arrives while fewer than 255 wait is appended. The 256th makes the size wrap to 0,
-- and with it all that wait are gone.
pub pending-add_key :
    (k : Keyboard) (c : ℕ)
    → IsValid k
    → pending (add_key k c) ≡ (if k.size == 255 then [] else pending k ++ (c ∷ []))
unfolding add_key
pending-add_key k c v = elim (full k.size) [
  | inl e ↦ rw e refl
  | inr ne ↦
      rw ((size_test ne), (size_next ne))
        (from-set k.fifo_buffer k.tail k.size c k.head v.storage v.tail_in v.size_in v.head_at)
]
  where
    full : (n : ℕ) → (n ≡ 255) ⊎ (n ≢ 255)
    full n = omega arith

    size_test : k.size ≢ 255 → (k.size == 255) ≡ false
    size_test ne = ground arith

    size_next : k.size ≢ 255 → (k.size + 1) % 256 ≡ suc k.size
    size_next ne = omega (arith, v.size_in)
