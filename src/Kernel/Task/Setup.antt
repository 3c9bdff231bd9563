-- ===== src/Kernel/Task/Setup.antt =====
-- The tables after `task_setup`.
use rathal_os.Prelude.{
  ℕ, zero, suc, ◌+◌, ◌/◌, ◌<◌, ◌≤◌, ◌≡◌, ◌≢◌, refl, arith, set, get_or, length, length-set,
  get_or-set_self, get_or-set_ne, ap, ◌∙◌,
}
use native.Mathlib.Decide.{ℕ_discrete}
use rathal_os.Memory.{Memory, IsBytes}
use rathal_os.Kernel.Gdt.{
  GdtEntry, gdt_make_null_segment, gdt_make_tss, gdt_make_ldt, descriptor_base,
  gdt_make_data_segment,
}
use rathal_os.Kernel.Gdt.Entry.{build_entry_lem}
use rathal_os.Kernel.Task.{
  Layout, Task, Tasks, no_task, tss_index, make_task, setup_one, setup_from, task_setup,
}

-- The two tables have the sizes of their declarations.
abbrev pub HasTables : Tasks → Type 0
HasTables t = (length t.gdt_table ≡ 24) × (length t.task_table ≡ 10)

abbrev task_at : Tasks → ℕ → Task
task_at t i = get_or t.task_table i no_task

abbrev entry_at : Tasks → ℕ → GdtEntry
entry_at t j = get_or t.gdt_table j gdt_make_null_segment

-- Task `i` is set up from the status that it had in `t`.
pub record IsSetUp (at : Layout) (m : Memory) (t t' : Tasks) (i : ℕ) : Type 0 where
  pub task : task_at t' i ≡ make_task at m i (task_at t i).status
  pub tss_entry : entry_at t' (tss_index i) ≡ gdt_make_tss (at.task_tss i) 0
  pub ldt_entry : entry_at t' (tss_index i + 1) ≡ gdt_make_ldt (at.task_ldt i) 15 0

setup_one-HasTables :
    (at : Layout) (m : Memory) (index : ℕ) (t : Tasks)
    → HasTables t
    → HasTables (setup_one at m index t)
unfolding setup_one
setup_one-HasTables at m index t h = (
  length-set (set t.gdt_table (tss_index index) _) (tss_index index + 1) _
      ∙ length-set t.gdt_table (tss_index index) _
      ∙ h.0,
  length-set t.task_table index _ ∙ h.1,
)

-- Setting up one task leaves the other tasks, and all entries but its two.
setup_one-task :
    (at : Layout) (m : Memory) (index i : ℕ) (t : Tasks)
    → index ≢ i
    → task_at (setup_one at m index t) i ≡ task_at t i
unfolding setup_one
setup_one-task at m index i t ne = get_or-set_ne t.task_table index i _ no_task ne

setup_one-entry :
    (at : Layout) (m : Memory) (index j : ℕ) (t : Tasks)
    → tss_index index ≢ j
    → tss_index index + 1 ≢ j
    → entry_at (setup_one at m index t) j ≡ entry_at t j
unfolding setup_one
setup_one-entry at m index j t ne ne' =
    get_or-set_ne (set t.gdt_table (tss_index index) _) (tss_index index + 1) j _ _ ne'
    ∙ get_or-set_ne t.gdt_table (tss_index index) j _ _ ne

setup_one-IsSetUp :
    (at : Layout) (m : Memory) (index : ℕ) (t : Tasks)
    → HasTables t
    → index < 10
    → IsSetUp at m t (setup_one at m index t) index
unfolding setup_one
setup_one-IsSetUp at m index t h lt = record {
  task = get_or-set_self t.task_table index _ no_task (omega (arith, h.1));
  tss_entry =
      get_or-set_ne (set t.gdt_table (tss_index index) _) (tss_index index + 1) (tss_index index) _
        _ (λ e. omega arith)
      ∙ get_or-set_self t.gdt_table (tss_index index) _ _ (omega (arith, h.0));
  ldt_entry = get_or-set_self (set t.gdt_table (tss_index index) _) (tss_index index + 1) _ _ (
      omega (
        arith,
        h.0,
        length-set t.gdt_table (tss_index index) (gdt_make_tss (at.task_tss index) 0),
      ));
}

-- From `index` on: what is set up stays, since later rounds touch later places.
setup_from-keeps :
    (at : Layout) (m : Memory) (index left i : ℕ) (t : Tasks)
    → i < index
    → (task_at (setup_from at m index left t) i ≡ task_at t i)
      × (entry_at (setup_from at m index left t) (tss_index i) ≡ entry_at t (tss_index i))
      × (entry_at (setup_from at m index left t) (tss_index i + 1) ≡ entry_at t (tss_index i + 1))
unfolding setup_from
setup_from-keeps at m index zero i t lt = (refl, refl, refl)
setup_from-keeps at m index (suc left) i t lt =
    let ih = setup_from-keeps at m (index + 1) left i (setup_one at m index t) (omega arith) in
    (
      ih.0 ∙ setup_one-task at m index i t (λ e. omega arith),
      ih.1 ∙ setup_one-entry at m index (tss_index i) t (λ e. omega arith) (λ e. omega arith),
      ih.2 ∙ setup_one-entry at m index (tss_index i + 1) t (λ e. omega arith) (λ e. omega arith),
    )

setup_from-IsSetUp :
    (at : Layout) (m : Memory) (index left i : ℕ) (t : Tasks)
    → HasTables t
    → index + left ≤ 10
    → index ≤ i
    → i < index + left
    → IsSetUp at m t (setup_from at m index left t) i
unfolding setup_from
setup_from-IsSetUp at m index zero i t h fits lo hi = absurd (omega arith)
setup_from-IsSetUp at m index (suc left) i t h fits lo hi = elim (ℕ_discrete index i) [
  | yes e ↦
      let here = setup_one-IsSetUp at m i t h (omega arith) in
      let keeps = setup_from-keeps at m (i + 1) left i (setup_one at m i t) (omega arith) in
      rw e (record {
        task = keeps.0 ∙ here.task;
        tss_entry = keeps.1 ∙ here.tss_entry;
        ldt_entry = keeps.2 ∙ here.ldt_entry;
      })
  | no ne ↦
      let later =
        setup_from-IsSetUp at m (index + 1) left i (setup_one at m index t)
          (setup_one-HasTables at m index t h) (omega arith) (omega arith) (omega arith) in
      record {
        task =
            later.task
            ∙ ap (λ (k : Task). make_task at m i k.status) (setup_one-task at m index i t ne);
        tss_entry = later.tss_entry;
        ldt_entry = later.ldt_entry;
      }
]

-- After `task_setup`, with the two tables of their declared sizes, every one of the ten tasks is set
-- up: its record as `make_task` says, with the status that it had, and its TSS and LDT descriptors in
-- the entries 4 + 2i and 5 + 2i of the GDT, within the 24 entries.
pub task_setup-IsSetUp :
    (at : Layout) (m : Memory) (t : Tasks) (i : ℕ)
    → HasTables t
    → i < 10
    → IsSetUp at m t (task_setup at m t) i × (tss_index i + 1 < 24)
unfolding task_setup
task_setup-IsSetUp at m t i h lt =
    (setup_from-IsSetUp at m 0 10 i t h (omega arith) (omega arith) (omega arith), omega arith)

-- The base of a task's segments.
pub data_base :
    (at : Layout) (m : Memory) (i status : ℕ)
    → m (at.task_addr_space i) < 256
    → descriptor_base (make_task at m i status).ldt_data ≡ m (at.task_addr_space i)
unfolding make_task gdt_make_data_segment
data_base at m i status byte =
    (build_entry_lem (m (at.task_addr_space i)) (16834 / 4096) 3 1 1 1 3 (omega arith) (omega arith)
      (omega arith)).0

setup_from-HasTables :
    (at : Layout) (m : Memory) (index left : ℕ) (t : Tasks)
    → HasTables t
    → HasTables (setup_from at m index left t)
unfolding setup_from
setup_from-HasTables at m index zero t h = h
setup_from-HasTables at m index (suc left) t h =
    setup_from-HasTables at m (index + 1) left (setup_one at m index t)
      (setup_one-HasTables at m index t h)

pub task_setup-HasTables :
    (at : Layout) (m : Memory) (t : Tasks) → HasTables t → HasTables (task_setup at m t)
unfolding task_setup
task_setup-HasTables at m t h = setup_from-HasTables at m 0 10 t h

pub data_base_of_task :
    (at : Layout) (m : Memory) (t : Tasks) (i : ℕ)
    → HasTables t
    → IsBytes m
    → i < 10
    → descriptor_base (get_or (task_setup at m t).task_table i no_task).ldt_data
      ≡ m (at.task_addr_space i)
data_base_of_task at m t i h bytes lt =
    ap (λ (k : Task). descriptor_base k.ldt_data) ((task_setup-IsSetUp at m t i h lt).0.task)
    ∙ data_base at m i _ (bytes (at.task_addr_space i))

-- After `task_setup`, with the two tables of their declared sizes and a byte at every address, the
-- data segment of a task does not start at its address space, wherever that stands from address 256
-- on: the segment's base is the first byte of the block.
pub segment_base_is_not_address :
    (at : Layout) (m : Memory) (t : Tasks) (i : ℕ)
    → HasTables t
    → IsBytes m
    → i < 10
    → 256 ≤ at.task_addr_space i
    → let task = get_or (task_setup at m t).task_table i no_task in
      (descriptor_base task.ldt_data ≡ m (at.task_addr_space i))
      × (descriptor_base task.ldt_data ≢ at.task_addr_space i)
segment_base_is_not_address at m t i h bytes lt far =
    let base = data_base_of_task at m t i h bytes lt in
    (base, λ e. omega (arith, base, bytes (at.task_addr_space i)))
