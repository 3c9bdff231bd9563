-- ===== src/Common/Func/Blocks.antt =====
-- What `memset` and `memcpy` leave at every address.
use rathal_os.Prelude.{
  ℕ, zero, suc, ◌+◌, ◌%◌, ◌≤◌, ◌<◌, ◌≡◌, refl, ◌⊎◌, arith, leb, ltb, ◌&&◌, if◌then◌else◌,
}
use rathal_os.Memory.{Memory, store, at}
use rathal_os.Common.Func.{memset, memcpy}

-- `memset` writes the low byte of the value to the `count` bytes from `dst` on, and leaves every
-- other byte.
pub memset_lem :
    (m : Memory) (dst value count a : ℕ)
    → memset m dst value count a ≡ (if leb dst a && ltb a (dst + count) then value % 256 else m a)
unfolding memset
memset_lem m dst value zero a = ground arith
memset_lem m dst value (suc count) a =
    ground (arith, memset_lem (store m dst (value % 256)) (dst + 1) value count a)

-- Outside the destination `memcpy` leaves every byte, also where the blocks overlap.
pub memcpy_outside :
    (m : Memory) (dst src count a : ℕ)
    → (a < dst) ⊎ (dst + count ≤ a)
    → memcpy m dst src count a ≡ m a
unfolding memcpy
memcpy_outside m dst src zero a h = refl
memcpy_outside m dst src (suc count) a h =
    ground (arith, memcpy_outside (store m dst (m src)) (dst + 1) (src + 1) count a)

-- If no byte of the source is overwritten before it is read (the destination starts at or before
-- the source, or behind its end), the byte at offset `i` of the destination becomes the byte that
-- the source held at that offset.
pub memcpy_inside :
    (m : Memory) (dst src count i : ℕ)
    → (dst ≤ src) ⊎ (src + count ≤ dst)
    → i < count
    → memcpy m dst src count (dst + i) ≡ m (src + i)
unfolding memcpy
memcpy_inside m dst src zero i apart h = absurd (omega arith)
memcpy_inside m dst src (suc count) zero apart h = ground (
  arith,
  memcpy_outside (store m dst (m src)) (dst + 1) (src + 1) count (dst + 0) (omega arith),
  at m (src + 0) src (omega arith),
)
memcpy_inside m dst src (suc count) (suc i) apart h = ground (
  arith,
  memcpy_inside (store m dst (m src)) (dst + 1) (src + 1) count i (ground arith) (omega arith),
)
