-- ===== src/Kernel/Task.antt =====
-- kernel/task/task.c and task.h: the ten tasks and `exec`. The members of `task_t` that are memory
-- blocks are addresses, which the record `Layout` gives for each index.
pub mod Setup
pub mod Exec
pub mod Tests
use rathal_os.Prelude.{
  ℕ, zero, suc, ◌+◌, ◌-◌, ◌*◌, ◌/◌, ◌%◌, ◌^◌, List, [], ◌∷◌, set, get_or, bit_or, ℤ, pos, negsuc,
  Option, none, some, if◌then◌else◌, ◌==◌,
}
use rathal_os.Memory.{Memory}
use rathal_os.Kernel.Disk.{Disk}
use rathal_os.Kernel.Gdt.{
  GdtEntry, gdt_make_null_segment, gdt_make_code_segment, gdt_make_data_segment, gdt_make_tss,
  gdt_make_ldt, gdt_entry_to_selector, dpl_user, dpl_kernel,
}
use rathal_os.Kernel.Fs.{Fs, Stat, file_stat, file_open, file_close}
use rathal_os.Kernel.Fs.Read.{file_read}

abbrev pub gdt_reserved_entries : ℕ
gdt_reserved_entries = 4

abbrev pub max_task_count : ℕ
max_task_count = 10

-- `sizeof(task_addr_space)`, `sizeof(task_kernel_stack)`
abbrev pub addr_space_size : ℕ
addr_space_size = 16834

abbrev pub kernel_stack_size : ℕ
kernel_stack_size = 4096

-- Where the members of `task_table[index]` stand.
pub record Layout : Type 0 where
  pub task_tss : ℕ → ℕ
  pub task_ldt : ℕ → ℕ
  pub task_addr_space : ℕ → ℕ
  pub task_kernel_stack : ℕ → ℕ

-- The fields of `tss_t` that are set; the others are 0. `ds` stands for es, fs, gs and ss too.
pub record Tss : Type 0 where
  pub ldt_selector : ℕ
  pub eip : ℕ
  pub esp : ℕ
  pub ebp : ℕ
  pub cs : ℕ
  pub ds : ℕ
  pub eflags : ℕ
  pub ss0 : ℕ
  pub esp0 : ℕ

-- `task_t` less its memory blocks; the two descriptors are `task_ldt[0]` and `task_ldt[1]`.
pub record Task : Type 0 where
  pub tss : Tss
  pub tss_selector : ℕ
  pub ldt_code : GdtEntry
  pub ldt_data : GdtEntry
  pub status : ℕ

-- The static tables.
pub record Tasks : Type 0 where
  pub gdt_table : List GdtEntry
  pub task_table : List Task

abbrev pub tss_index : ℕ → ℕ
tss_index index = gdt_reserved_entries + 2 * index

-- What `task_setup` makes of one task. The base of both segments is
-- `*task_table[index].task_addr_space`, the first byte of the block.
unfoldable pub make_task : Layout → Memory → ℕ → ℕ → Task
make_task at m index status =
    let limit : ℕ = addr_space_size in
    let base = m (at.task_addr_space index) in
    let ldt_code_selector = bit_or (bit_or (0 * 2 ^ 3) dpl_user) 4 in
    let ldt_data_selector = bit_or (bit_or (1 * 2 ^ 3) dpl_user) 4 in
    record {
      tss = record {
        ldt_selector = gdt_entry_to_selector (tss_index index + 1) % 2 ^ 16;
        eip = 0;
        esp = limit;
        ebp = limit;
        cs = ldt_code_selector;
        ds = ldt_data_selector;
        eflags = 2 ^ 9;
        ss0 = 0x10;
        esp0 = at.task_kernel_stack index + kernel_stack_size;
      };
      tss_selector = gdt_entry_to_selector (tss_index index) % 2 ^ 16;
      ldt_code = gdt_make_code_segment base (limit / 4096) dpl_user;
      ldt_data = gdt_make_data_segment base (limit / 4096) dpl_user;
      status = status;
    }

abbrev pub no_task : Task
no_task = record {
  tss = record {
    ldt_selector = 0;
    eip = 0;
    esp = 0;
    ebp = 0;
    cs = 0;
    ds = 0;
    eflags = 0;
    ss0 = 0;
    esp0 = 0;
  };
  tss_selector = 0;
  ldt_code = gdt_make_null_segment;
  ldt_data = gdt_make_null_segment;
  status = 0;
}

-- The body of the loop of `task_setup` at `index`.
unfoldable pub setup_one : Layout → Memory → ℕ → Tasks → Tasks
unfolding make_task
setup_one at m index t = record {
  gdt_table =
      set (set t.gdt_table (tss_index index) (gdt_make_tss (at.task_tss index) dpl_kernel))
        (tss_index index + 1) (gdt_make_ldt (at.task_ldt index) 15 dpl_kernel);
  task_table =
      set t.task_table index (make_task at m index (get_or t.task_table index no_task).status);
}

unfoldable pub setup_from : Layout → Memory → ℕ → ℕ → Tasks → Tasks
unfolding setup_one
setup_from at m index zero t = t
setup_from at m index (suc left) t = setup_from at m (index + 1) left (setup_one at m index t)

unfoldable pub task_setup : Layout → Memory → Tasks → Tasks
unfolding setup_from
task_setup at m t = setup_from at m 0 max_task_count t

-- The first task from `index` on that is not used. The code reads the status of task 10, behind the
-- table, before it compares the index.
unfoldable pub free_task : List Task → ℕ → ℕ → Option ℕ
free_task table index zero = none
free_task table index (suc left) =
    let rest = free_task table (index + 1) left in
    if (get_or table index no_task).status == 0 then some index else rest

-- The two ways in which `exec` goes on: it returns TASK_FAILURE, or it switches to the task with a
-- selector.
pub data Outcome : Type 0 where
  failure : Outcome
  switch : ℕ → Outcome

-- The number below 2 ^ 32 of a descriptor.
abbrev pub descriptor_number : ℤ → ℕ
descriptor_number (pos fd) = fd % 2 ^ 32
descriptor_number (negsuc e) = 2 ^ 32 - 1 - e % 2 ^ 32

-- With the file's data in descriptor `fd` and a free task at `index`. The descriptor is not checked: for
-- -1 the file system reads the memory before the descriptor table.
unfoldable pub start_task : Disk → ℕ → Layout → Fs → Tasks → ℕ → ℕ → ℤ → Fs × Tasks × Outcome
start_task disk garbage at s t size index result =
    let fd = descriptor_number result in
    let task = get_or t.task_table index no_task in
    let (s', count) = file_read disk garbage s fd (at.task_addr_space index) size in
    (
      file_close s' fd,
      record t { task_table = set t.task_table index (record task { status = 1 }) },
      switch task.tss_selector,
    )

unfoldable pub exec : Disk → ℕ → Layout → Fs → Tasks → ℕ → Fs × Tasks × Outcome
unfolding start_task free_task
exec disk garbage at s t filename = elim (file_stat s filename) [
  | none ↦ (s, t, failure)
  | some stats ↦
      let (s', fd) = file_open s filename in
      elim (free_task t.task_table 0 max_task_count) [
        | none ↦ (s', t, failure)
        | some index ↦ start_task disk garbage at s' t stats.size index fd
      ]
]
