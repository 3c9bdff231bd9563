-- ===== src/Kernel/Syscall/Tests.antt =====
-- A system call from task 2, of ten tasks at addresses 20000 apart.
use rathal_os.Prelude.{
  ◌+◌, ◌*◌, ◌≡◌, refl, arith, [], ◌∷◌, replicate, get_or, some, none, ltb, if◌then◌else◌,
}
use rathal_os.Memory.{Memory, IsBytes, place, zeros, place-IsBytes}
use rathal_os.Kernel.Gdt.{gdt_make_null_segment, gdt_make_data_segment, descriptor_base}
use rathal_os.Kernel.Task.{Layout, Tasks, no_task, task_setup}
use rathal_os.Kernel.Syscall.{syscall_handler, caller_base}
use rathal_os.Kernel.Syscall.Base.{caller_base_of_task}

abbrev pub layout : Layout
layout = record {
  task_tss = λ i. 1000000 + 104 * i;
  task_ldt = λ i. 2000000 + 16 * i;
  task_addr_space = λ i. 10000 + 20000 * i;
  task_kernel_stack = λ i. 3000000 + 4096 * i;
}

abbrev pub tables : Tasks
tables = record {
  gdt_table = replicate 24 gdt_make_null_segment;
  task_table = replicate 10 no_task;
}

abbrev pub ram : Memory
ram = place 90000 (77 ∷ []) zeros

ram-IsBytes : IsBytes ram
ram-IsBytes = place-IsBytes 90000 (77 ∷ []) zeros (omega arith) (λ a. omega arith)

-- The number behind the table.
no_function : syscall_handler tables 23 0 0 0 0 32 ≡ none
unfolding syscall_handler
no_function = refl

-- Selector 64 is that of task 2; the base is the first byte of the address space of task 4.
pub base_found : caller_base (task_setup layout ram tables) 64 ≡ some 77
unfolding caller_base task_setup descriptor_base gdt_make_data_segment
base_found = refl

caller_base_of_task_example :
    let t = task_setup layout ram tables in
    caller_base t (get_or t.task_table 2 no_task).tss_selector
    ≡ (if ltb 2 5 then some (ram 90000) else none)
caller_base_of_task_example =
    caller_base_of_task layout ram tables 2 (refl, refl) ram-IsBytes (omega arith)
