-- ===== src/Kernel/Fs/Open.antt =====
-- `file_open`, `file_close` and `file_seek`: the descriptor table.
use rathal_os.Prelude.{
  ℕ, zero, suc, ◌+◌, ◌<◌, ◌≤◌, ◌≡◌, ◌≢◌, refl, arith, false, Option, none, some, ◌==◌,
  if◌then◌else◌, inl, inr, ℤ, pos, minus_one, List, length, set, get_or, get_or-set_self,
  get_or-set_ne, Option-cases, ap, sym, ◌∙◌, true, ltb,
}
use native.Mathlib.Decide.{dec_lt, ℕ_discrete}
use rathal_os.Kernel.Fs.{
  Fs, FileOpen, unused, find, descriptor, descriptor-table, free_descriptor, open_at, file_open,
  file_close,
}

-- The search for a free entry among the indices from `i` to `n`.
data FirstFree (tab : List FileOpen) (i n : ℕ) (r : Option ℕ) : Type 0 where
  found :
      (k : ℕ)
      → r ≡ some k
      → i ≤ k
      → k < n
      → (get_or tab k unused).status ≡ 0
      → ((j : ℕ) → i ≤ j → j < k → (get_or tab j unused).status ≢ 0)
      → FirstFree tab i n r
  full :
      r ≡ none → ((j : ℕ) → i ≤ j → j < n → (get_or tab j unused).status ≢ 0) → FirstFree tab i n r

from_next :
    (tab : List FileOpen) (i n : ℕ)
    → (get_or tab i unused).status ≢ 0
    → ((j : ℕ) → i + 1 ≤ j → j < n → (get_or tab j unused).status ≢ 0)
    → (j : ℕ) → i ≤ j
    → j < n
    → (get_or tab j unused).status ≢ 0
from_next tab i n here later j ge lt = elim (dec_lt i j) [
  | yes after ↦ later j (omega arith) lt
  | no first ↦ let e : i ≡ j = omega arith in rw e at here
]

free_descriptor-FirstFree :
    (tab : List FileOpen) (i left n : ℕ)
    → i + left ≡ n
    → FirstFree tab i n (free_descriptor tab i left)
unfolding free_descriptor
free_descriptor-FirstFree tab i zero n e = full refl (λ j ge lt. absurd (omega arith))
free_descriptor-FirstFree tab i (suc left) n e = elim (ℕ_discrete (get_or tab i unused).status 0) [
  | yes free ↦ found i (rw free) (omega arith) (omega arith) free (λ j ge lt. absurd (omega arith))
  | no taken ↦
      rw (test taken) (skip (free_descriptor-FirstFree tab (i + 1) left n (omega arith)) taken)
]
  where
    test : (get_or tab i unused).status ≢ 0 → ((get_or tab i unused).status == 0) ≡ false
    test h = ground arith

    skip :
        {r : Option ℕ}
        → FirstFree tab (i + 1) n r
        → (get_or tab i unused).status ≢ 0
        → FirstFree tab i n r
    skip (found k e lo hi free before) taken =
        found k e (omega arith) hi free (from_next tab i k taken before)
    skip (full e later) taken = full e (from_next tab i n taken later)

-- The three outcomes of `file_open` with result `(s', r)`.
pub data Opened (s : Fs) (filename : ℕ) (s' : Fs) (r : ℤ) : Type 0 where
  no_file : find s filename ≡ none → s' ≡ s → r ≡ minus_one → Opened s filename s' r
  no_descriptor :
      ((j : ℕ) → j < 50 → (descriptor s j).status ≢ 0)
      → s' ≡ s
      → r ≡ minus_one
      → Opened s filename s' r
  opened :
      (fd inode : ℕ)
      → find s filename ≡ some inode
      → r ≡ pos fd
      → fd < 50
      → (descriptor s fd).status ≡ 0
      → ((j : ℕ) → j < fd → (descriptor s j).status ≢ 0)
      → s' ≡ record s {
        file_descriptor_tab =
            set s.file_descriptor_tab fd (record { inode = inode; status = 1; offset = 0 });
      }
      → Opened s filename s' r

-- `file_open` takes the lowest free descriptor, makes it refer to the file's inode at offset 0 and
-- returns it; it returns -1 and changes nothing if the file does not exist or all 50 descriptors are
-- in use.
pub file_open-Opened :
    (s : Fs) (filename : ℕ) → let (s', r) = file_open s filename in Opened s filename s' r
unfolding file_open open_at
file_open-Opened s filename = elim (Option-cases (find s filename)) [
  | inl e ↦ rw (e, file_open) (no_file e refl refl)
  | inr (inode, e) ↦
      rw (e, file_open)
        (go inode e (free_descriptor-FirstFree s.file_descriptor_tab 0 50 50 (omega arith)))
]
  where
    status_of :
        (j : ℕ) → j < 50 → (descriptor s j).status ≡ (get_or s.file_descriptor_tab j unused).status
    status_of j lt = ap (λ (x : FileOpen). x.status) (descriptor-table s j lt)

    go :
        (inode : ℕ)
        → find s filename ≡ some inode
        → {r : Option ℕ} → FirstFree s.file_descriptor_tab 0 50 r
        → let (s', q) = open_at s inode r in Opened s filename s' q
    go inode e (found k at lo hi free before) = rw at (
        opened k inode e refl hi (status_of k hi ∙ free)
          (λ j lt eq. before j (omega arith) lt (sym (status_of j (omega (arith, lt, hi))) ∙ eq))
          refl)
    go inode e (full at later) =
        rw at (
          no_descriptor (λ j lt eq. later j (omega arith) lt (sym (status_of j lt) ∙ eq)) refl refl)

-- Closing makes exactly the one descriptor of the table unused.
pub descriptor-file_close :
    (s : Fs) (fd j : ℕ)
    → fd < length s.file_descriptor_tab
    → fd < 50
    → j < 50
    → descriptor (file_close s fd) j
      ≡ (if fd == j then record (descriptor s fd) { status = 0 } else descriptor s j)
unfolding file_close
descriptor-file_close s fd j h low small =
    let test : ltb fd 50 ≡ true = ground arith in
    let test' : ltb j 50 ≡ true = ground arith in
    elim (ℕ_discrete fd j) [
      | yes e ↦
          rw (test, test', e)
            (ground (
              arith,
              get_or-set_self s.file_descriptor_tab fd
                  (record (get_or s.file_descriptor_tab fd unused) { status = 0 }) unused h,
            ))
      | no ne ↦
          rw (test, test')
            (ground (
              arith,
              get_or-set_ne s.file_descriptor_tab fd j
                  (record (get_or s.file_descriptor_tab fd unused) { status = 0 }) unused ne,
            ))
    ]
