-- ===== src/Kernel/Fs/Iterator.antt =====
-- `file_iterator`, `file_has_next` and `file_next`: a client's loop over the files.
use rathal_os.Prelude.{
  ℕ, zero, suc, ◌+◌, ◌*◌, ◌^◌, ◌<◌, ◌≤◌, ◌≡◌, refl, arith, true, some, ltb, inl, inr, ◌⊎◌, ap, ◌∙◌,
  Option-cases,
}
use native.Mathlib.Decide.{dec_lt}
use rathal_os.Common.Func.Blocks.{memcpy_outside}
use rathal_os.Common.Inode.{number, name, inode_get, inode_get_next}
use rathal_os.Common.Inode.Lookup.{First, found, missing, get_next-First}
use rathal_os.Kernel.Fs.{Fs, FileIterator, file_has_next, file_next}

-- The iterator stands on inode `k`, which is in use.
pub record IsAt (s : Fs) (k : ℕ) : Type 0 where
  pub inside : k < s.inode_table.inode_count
  pub small : k < 2 ^ 16
  pub positive : 0 < k
  pub numbered : number s.memory (inode_get s.inode_table k) ≡ k

get_next_self :
    (s : Fs) (k : ℕ)
    → IsAt s k
    → inode_get_next s.memory s.inode_table k ≡ some (inode_get s.inode_table k)
get_next_self s k at =
    go (get_next-First s.memory s.inode_table k at.small (omega (arith, at.inside)))
  where
    go :
        First
          (λ inode. ltb 0 (number s.memory inode))
          s.inode_table
          k
          s.inode_table.inode_count
          (inode_get_next s.memory s.inode_table k)
        → inode_get_next s.memory s.inode_table k ≡ some (inode_get s.inode_table k)
    go (found j e lo hi hit before) = elim (dec_lt k j) [
      | yes later ↦ absurd (ground (arith, before k (omega arith) later, at.numbered, at.positive))
      | no first ↦
          let same : j ≡ k = omega arith in
          e ∙ ap (λ (i : ℕ). some (inode_get s.inode_table i)) same
    ]
    go (missing e before) =
        absurd (ground (arith, before k (omega arith) at.inside, at.numbered, at.positive))

-- On a file the iterator has a next file, and that file is the one on which it stands.
pub iterator_stuck :
    (s : Fs) (buffer k : ℕ)
    → IsAt s k
    → (file_has_next s (inode_get s.inode_table k) ≡ true)
      × ((file_next s buffer (inode_get s.inode_table k)).1 ≡ inode_get s.inode_table k)
unfolding file_has_next file_next
iterator_stuck s buffer k at = (
  rw (at.numbered, get_next_self s k at) refl,
  rw (file_next, at.numbered, get_next_self s k at) refl,
)

-- `n` calls of `file_next`, as in the loop of a client.
pub next_times : ℕ → Fs → ℕ → FileIterator → Fs × FileIterator
next_times zero s buffer it = (s, it)
next_times (suc n) s buffer it = let (s', it') = file_next s buffer it in next_times n s' buffer it'

-- The name buffer, 32 bytes, does not meet the inode table.
abbrev pub IsOutside : Fs → ℕ → Type 0
IsOutside s buffer =
    (buffer + 32 ≤ s.inode_table.inodes)
    ⊎ (s.inode_table.inodes + 64 * s.inode_table.inode_count ≤ buffer)

file_next-keeps :
    (s : Fs) (buffer it k : ℕ)
    → IsOutside s buffer
    → IsAt s k
    → IsAt (file_next s buffer it).0 k × ((file_next s buffer it).0.inode_table ≡ s.inode_table)
unfolding file_next
file_next-keeps s buffer it k out at =
    elim (Option-cases (inode_get_next s.memory s.inode_table (number s.memory it))) [
      | inl e ↦ rw (e, file_next) (at, refl)
      | inr (next, e) ↦
          rw (e, file_next)
            (
              record {
                inside = at.inside;
                small = at.small;
                positive = at.positive;
                numbered = omega (
                  arith,
                  at.numbered,
                  at.inside,
                  memcpy_outside s.memory buffer (name next) 32 (inode_get s.inode_table k)
                      (ground (arith, at.inside)),
                  memcpy_outside s.memory buffer (name next) 32 (inode_get s.inode_table k + 1)
                      (ground (arith, at.inside)),
                );
              },
              refl,
            )
    ]

stays :
    (n : ℕ) (s : Fs) (buffer k it : ℕ)
    → IsOutside s buffer
    → IsAt s k
    → it ≡ inode_get s.inode_table k
    → let (s', it') = next_times n s buffer it in
      (it' ≡ inode_get s.inode_table k) × (file_has_next s' it' ≡ true)
unfolding next_times
stays zero s buffer k it out at e = (e, rw e ((iterator_stuck s buffer k at).0))
stays (suc n) s buffer k it out at e =
    let kept = file_next-keeps s buffer it k out at in
    let moved : (file_next s buffer it).1 ≡ inode_get s.inode_table k =
      ap (λ (t : ℕ). (file_next s buffer t).1) e ∙ (iterator_stuck s buffer k at).1 in
    let ih =
      stays n (file_next s buffer it).0 buffer k (file_next s buffer it).1 (rw kept.1 out) kept.0
        (rw kept.1 moved) in
    (rw kept.1 at ih.0, ih.1)

-- Once the iterator stands on a file it never leaves it: after any number of further calls of
-- `file_next`, with a name buffer outside the inode table, it stands on the same file and
-- `file_has_next` reports another one.
pub iterator_never_ends :
    (n : ℕ) (s : Fs) (buffer k : ℕ)
    → IsOutside s buffer
    → IsAt s k
    → let (s', it) = next_times n s buffer (inode_get s.inode_table k) in
      (it ≡ inode_get s.inode_table k) × (file_has_next s' it ≡ true)
iterator_never_ends n s buffer k out at = stays n s buffer k (inode_get s.inode_table k) out at refl
