-- ===== src/Common/Inode/Lookup.antt =====
-- The searches of the inode table.
use rathal_os.Prelude.{
  ℕ, zero, suc, ◌+◌, ◌-◌, ◌%◌, ◌^◌, ◌<◌, ◌≤◌, ◌≡◌, ◌≢◌, refl, arith, Bool, true, false, Option,
  none, some, ◌==◌, ltb, Bool-cases, inl, inr, ◌↔◌, ℤ, pos, take, List, is_zero,
}
use native.Mathlib.Decide.{dec_lt}
use rathal_os.Memory.{Memory, IsString}
use rathal_os.Common.Func.{strncmp}
use rathal_os.Common.Func.Strings.{strncmp_zero_iff}
use rathal_os.Common.Inode.{
  InodeTable, inode_get, first_inode, number, name, matches_name, inode_get_from_inode,
  inode_get_from_filename, inode_get_next,
}

-- The result `r` of a search among the indices from `i` to `n`: the first inode that passes the
-- test, or NULL if none does.
pub data First (test : ℕ → Bool) (itab : InodeTable) (i n : ℕ) (r : Option ℕ) : Type 0 where
  found :
      (k : ℕ)
      → r ≡ some (inode_get itab k)
      → i ≤ k
      → k < n
      → test (inode_get itab k) ≡ true
      → ((j : ℕ) → i ≤ j → j < k → test (inode_get itab j) ≡ false)
      → First test itab i n r
  missing :
      r ≡ none → ((j : ℕ) → i ≤ j → j < n → test (inode_get itab j) ≡ false) → First test itab i n r

-- A fact about the first index and about all later ones.
from_next :
    (test : ℕ → Bool) (itab : InodeTable) (i n : ℕ)
    → test (inode_get itab i) ≡ false
    → ((j : ℕ) → i + 1 ≤ j → j < n → test (inode_get itab j) ≡ false)
    → (j : ℕ) → i ≤ j
    → j < n
    → test (inode_get itab j) ≡ false
from_next test itab i n here later j ge lt = elim (dec_lt i j) [
  | yes after ↦ later j (omega arith) lt
  | no first ↦ let e : i ≡ j = omega arith in rw e at here
]

pub first_inode-First :
    (test : ℕ → Bool) (itab : InodeTable) (i left n : ℕ)
    → i + left ≡ n
    → First test itab i n (first_inode test itab i left)
unfolding first_inode
first_inode-First test itab i zero n e = missing refl (λ j ge lt. absurd (omega arith))
first_inode-First test itab i (suc left) n e = elim (Bool-cases (test (inode_get itab i))) [
  | inl hit ↦ found i (rw hit) (omega arith) (omega arith) hit (λ j ge lt. absurd (omega arith))
  | inr miss ↦ rw miss (skip (first_inode-First test itab (i + 1) left n (omega arith)) miss)
]
  where
    skip :
        {r : Option ℕ}
        → First test itab (i + 1) n r
        → test (inode_get itab i) ≡ false
        → First test itab i n r
    skip (found k e lo hi hit before) miss =
        found k e (omega arith) hi hit (from_next test itab i k miss before)
    skip (missing e none_later) miss = missing e (from_next test itab i n miss none_later)

-- `inode_get_from_inode` returns the first inode of the table with the number asked for, or NULL if
-- no inode has it.
pub from_inode-First :
    (m : Memory) (itab : InodeTable) (n : ℕ)
    → First (λ inode. number m inode == n) itab 0 itab.inode_count (inode_get_from_inode m itab n)
unfolding inode_get_from_inode
from_inode-First m itab n =
    first_inode-First _ itab 0 itab.inode_count itab.inode_count (omega arith)

-- `inode_get_from_filename` returns the first inode in use whose name passes the comparison, or NULL
-- if there is none.
pub from_filename-First :
    (m : Memory) (itab : InodeTable) (filename : ℕ)
    → First
        (matches_name m filename)
        itab
        0
        itab.inode_count
        (inode_get_from_filename m itab filename)
unfolding inode_get_from_filename
from_filename-First m itab filename =
    first_inode-First _ itab 0 itab.inode_count itab.inode_count (omega arith)

-- The comparison of the search by name: the inode is in use (its number is not 0) and the first 31
-- characters of its name are those of the name looked for.
pub matches_name_iff :
    (m : Memory) (filename inode : ℕ) (xs ys : List ℕ)
    → IsString m filename xs
    → IsString m (name inode) ys
    → (matches_name m filename inode ≡ true) ↔ ((number m inode ≢ 0) × (take 31 xs ≡ take 31 ys))
unfolding matches_name
matches_name_iff m filename inode xs ys sx sy =
    let same = strncmp_zero_iff 31 m filename (name inode) 0 0 xs ys sx sy (omega arith) in
    (
      λ e. (
        ground arith,
        same.0 (is_zero-eq (strncmp m filename (name inode) 31 0 0) (ground arith)),
      ),
      λ h. rw (same.1 h.1) (ground arith),
    )
  where
    is_zero-eq : (z : ℤ) → is_zero z ≡ true → z ≡ pos 0
    is_zero-eq z e = ground arith

-- `inode_get_next` from an index below 2 ^ 16 returns the first inode in use at that index or
-- behind it, or NULL.
pub get_next-First :
    (m : Memory) (itab : InodeTable) (current_index : ℕ)
    → current_index < 2 ^ 16
    → current_index ≤ itab.inode_count
    → First
        (λ inode. ltb 0 (number m inode))
        itab
        current_index
        itab.inode_count
        (inode_get_next m itab current_index)
unfolding inode_get_next
get_next-First m itab current_index small inside =
    let e : current_index % 2 ^ 16 ≡ current_index = omega arith in
    rw e (
      first_inode-First (λ inode. ltb 0 (number m inode)) itab current_index
        (itab.inode_count - current_index) itab.inode_count (omega arith))
