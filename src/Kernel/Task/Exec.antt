-- ===== src/Kernel/Task/Exec.antt =====
-- The outcomes of `exec`.
use rathal_os.Prelude.{
  ℕ, zero, suc, ◌+◌, ◌<◌, ◌≤◌, ◌≡◌, ◌≢◌, refl, arith, List, get_or, ◌==◌, inl, inr, pos, minus_one,
  ℤ, set, ◌-◌, ◌^◌, ◌%◌, Option, none, some, Option-cases, false,
}
use native.Mathlib.Decide.{dec_lt, ℕ_discrete}
use rathal_os.Kernel.Disk.{Disk}
use rathal_os.Kernel.Fs.{Fs, find, file_stat, file_open, file_close}
use rathal_os.Common.Inode.{file_size}
use rathal_os.Kernel.Fs.Open.{
  Opened, file_open-Opened, no_file as absent, no_descriptor as all_open, opened,
}
use rathal_os.Kernel.Fs.Read.{file_read}
use rathal_os.Kernel.Task.{
  Layout, Task, Tasks, no_task, free_task, Outcome, failure, switch, start_task, exec,
  descriptor_number,
}

-- The status of task `i`.
abbrev pub task_status : List Task → ℕ → ℕ
task_status table i = (get_or table i no_task).status

-- The search for a free task among the indices from `i` to `n`.
pub data FirstFree (table : List Task) (i n : ℕ) (r : Option ℕ) : Type 0 where
  found :
      (k : ℕ)
      → r ≡ some k
      → i ≤ k
      → k < n
      → task_status table k ≡ 0
      → ((j : ℕ) → i ≤ j → j < k → task_status table j ≢ 0)
      → FirstFree table i n r
  all_used : r ≡ none → ((j : ℕ) → i ≤ j → j < n → task_status table j ≢ 0) → FirstFree table i n r

from_next :
    (table : List Task) (i n : ℕ)
    → task_status table i ≢ 0
    → ((j : ℕ) → i + 1 ≤ j → j < n → task_status table j ≢ 0)
    → (j : ℕ) → i ≤ j
    → j < n
    → task_status table j ≢ 0
from_next table i n here later j ge lt = elim (dec_lt i j) [
  | yes after ↦ later j (omega arith) lt
  | no first ↦ let e : i ≡ j = omega arith in rw e at here
]

free_task-FirstFree :
    (table : List Task) (i left n : ℕ) → i + left ≡ n → FirstFree table i n (free_task table i left)
unfolding free_task
free_task-FirstFree table i zero n e = all_used refl (λ j ge lt. absurd (omega arith))
free_task-FirstFree table i (suc left) n e = elim (ℕ_discrete (task_status table i) 0) [
  | yes free ↦ found i (rw free) (omega arith) (omega arith) free (λ j ge lt. absurd (omega arith))
  | no busy ↦ rw (test busy) (skip (free_task-FirstFree table (i + 1) left n (omega arith)) busy)
]
  where
    test : task_status table i ≢ 0 → (task_status table i == 0) ≡ false
    test h = ground arith

    skip :
        {r : Option ℕ}
        → FirstFree table (i + 1) n r
        → task_status table i ≢ 0
        → FirstFree table i n r
    skip (found k e lo hi free before) busy =
        found k e (omega arith) hi free (from_next table i k busy before)
    skip (all_used e later) busy = all_used e (from_next table i n busy later)

-- The descriptor that `file_open` returned, as `exec` passes it on: below 50, or the number of -1.
pub data PassedOn (result : ℤ) (fd : ℕ) : Type 0 where
  opened_file : fd < 50 → result ≡ pos fd → PassedOn result fd
  no_descriptor : fd ≡ 2 ^ 32 - 1 → result ≡ minus_one → PassedOn result fd

-- The outcomes of `exec`, with result `r`.
pub data Executed (disk : Disk) (garbage : ℕ) (at : Layout) (s : Fs) (t : Tasks) (filename : ℕ)
    (r : Fs × Tasks × Outcome) : Type 0 where
  no_file : find s filename ≡ none → r ≡ (s, t, failure) → Executed disk garbage at s t filename r
  no_free_task :
      ((j : ℕ) → j < 10 → task_status t.task_table j ≢ 0)
      → r ≡ ((file_open s filename).0, t, failure)
      → Executed disk garbage at s t filename r
  started :
      (k inode fd : ℕ)
      → find s filename ≡ some inode
      → k < 10
      → task_status t.task_table k ≡ 0
      → ((j : ℕ) → j < k → task_status t.task_table j ≢ 0)
      → PassedOn (file_open s filename).1 fd
      → r.0
        ≡ file_close
            (file_read disk garbage
              (file_open s filename).0
              fd
              (at.task_addr_space k)
              (file_size s.memory inode)).0
            fd
      → r.1.gdt_table ≡ t.gdt_table
      → r.1.task_table ≡ set t.task_table k (record (get_or t.task_table k no_task) { status = 1 })
      → r.2 ≡ switch (get_or t.task_table k no_task).tss_selector
      → Executed disk garbage at s t filename r

passed_on :
    {s s' : Fs} {filename : ℕ} {result : ℤ}
    → Opened s filename s' result
    → PassedOn result (descriptor_number result)
passed_on (absent e same r) = rw r (no_descriptor refl refl)
passed_on (all_open all same r) = rw r (no_descriptor refl refl)
passed_on (opened fd inode e r lt free before same) =
    let small : fd % 2 ^ 32 ≡ fd = omega (arith, lt) in rw (r, small) (opened_file lt refl)

-- `exec` fails and changes nothing if there is no such file. Otherwise it opens the file. If all ten
-- tasks are in use it fails, with the file left open; else it takes the free task with the lowest
-- index: it marks it used and changes nothing else of the tables, calls `file_read` with the size of the
-- file for the task's memory, closes the descriptor and switches to the task's selector. The descriptor is
-- the one that `file_open` returned, also when that is -1.
pub exec-Executed :
    (disk : Disk) (garbage : ℕ) (at : Layout) (s : Fs) (t : Tasks) (filename : ℕ)
    → Executed disk garbage at s t filename (exec disk garbage at s t filename)
unfolding exec file_stat
exec-Executed disk garbage at s t filename = elim (Option-cases (find s filename)) [
  | inl e ↦ no_file e (rw (exec, file_stat, e) refl)
  | inr (inode, e) ↦ go inode e (free_task-FirstFree t.task_table 0 10 10 (omega arith))
]
  where
    run :
        (k inode : ℕ)
        → find s filename ≡ some inode
        → free_task t.task_table 0 10 ≡ some k
        → exec disk garbage at s t filename
          ≡ start_task disk garbage at
              (file_open s filename).0
              t
              (file_size s.memory inode)
              k
              (file_open s filename).1
    run k inode e is = rw (exec, file_stat, e, is) refl

    go :
        (inode : ℕ)
        → find s filename ≡ some inode
        → FirstFree t.task_table 0 10 (free_task t.task_table 0 10)
        → Executed disk garbage at s t filename (exec disk garbage at s t filename)
    go inode e (found k is lo hi free before) = rw (run k inode e is) (
        unfold start_task in
        started k inode _ e hi free (λ j lt. before j (omega arith) lt)
          (passed_on (file_open-Opened s filename)) refl refl refl refl)
    go inode e (all_used is later) =
        no_free_task (λ j lt. later j (omega arith) lt) (rw (exec, file_stat, e, is) refl)
