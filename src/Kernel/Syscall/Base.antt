-- ===== src/Kernel/Syscall/Base.antt =====
-- The function and the base that the handler finds.
use native.Mathlib.Decide.{dec_lt}
use mathlib.Core.Option
use rathal_os.Prelude.{
  ℕ, ◌+◌, ◌*◌, ◌%◌, ◌^◌, ◌<◌, ◌≡◌, refl, arith, get_elem?, get_or, none, some, ap, ap₂, ◌∙◌, ltb,
  if◌then◌else◌, get_elem?-some, get_elem?-none,
}
use rathal_os.Memory.{Memory, IsBytes}
use rathal_os.Kernel.Gdt.{descriptor_base}
use rathal_os.Kernel.Task.{Layout, Task, Tasks, no_task, make_task, task_setup}
use rathal_os.Kernel.Task.Setup.{
  HasTables, task_setup-HasTables, task_setup-IsSetUp, data_base_of_task,
}
use rathal_os.Kernel.Syscall.{
  Syscall, syscall_nb, func_syscalls, caller_index, caller_base, make_call, syscall_handler, puts,
}

func_syscalls-nb : (c : Syscall) → get_elem? func_syscalls (syscall_nb c) ≡ some c
unfolding syscall_nb
func_syscalls-nb puts = refl
func_syscalls-nb _ = refl

-- When the selector names a task with the base `base`, the handler calls, for the number of each
-- system call, that call's function, with the base added to each argument modulo 2 ^ 32.
pub syscall_handler_lem :
    (t : Tasks) (c : Syscall) (arg1 arg2 arg3 arg4 selector base : ℕ)
    → caller_base t selector ≡ some base
    → syscall_handler t (syscall_nb c) arg1 arg2 arg3 arg4 selector
      ≡ some (record {
        function = c;
        arg1 = (base + arg1) % 2 ^ 32;
        arg2 = (base + arg2) % 2 ^ 32;
        arg3 = (base + arg3) % 2 ^ 32;
        arg4 = (base + arg4) % 2 ^ 32;
      })
unfolding syscall_handler
syscall_handler_lem t c arg1 arg2 arg3 arg4 selector base e =
    ap₂ (make_call arg1 arg2 arg3 arg4) e (func_syscalls-nb c)

selector-index :
    (at : Layout) (m : Memory) (i status : ℕ)
    → i < 10
    → caller_index (make_task at m i status).tss_selector ≡ 2 * i
unfolding make_task caller_index
selector-index at m i status lt = omega arith

task_setup-index :
    (at : Layout) (m : Memory) (t : Tasks) (i : ℕ)
    → HasTables t
    → i < 10
    → caller_index (get_or (task_setup at m t).task_table i no_task).tss_selector ≡ 2 * i
task_setup-index at m t i h lt =
    ap (λ (k : Task). caller_index k.tss_selector) ((task_setup-IsSetUp at m t i h lt).0.task)
    ∙ selector-index at m i _ lt

-- After `task_setup`, with tables of their declared sizes and a byte at every address, a system call
-- with the selector of task `i` takes its base from task `2 * i`, since the TSS descriptors are two
-- entries of the GDT apart: for a task below 5 the base is the first byte of the address space of task
-- `2 * i`; from task 5 on the handler reads behind the table.
pub caller_base_of_task :
    (at : Layout) (m : Memory) (t : Tasks) (i : ℕ)
    → HasTables t
    → IsBytes m
    → i < 10
    → let t' = task_setup at m t in
      caller_base t' (get_or t'.task_table i no_task).tss_selector
      ≡ (if ltb i 5 then some (m (at.task_addr_space (2 * i))) else none)
unfolding caller_base
caller_base_of_task at m t i h bytes lt =
    let tables = task_setup-HasTables at m t h in
    ap
      (λ (j : ℕ).
        Option.map (λ (k : Task). descriptor_base k.ldt_data)
          (get_elem? (task_setup at m t).task_table j))
      (task_setup-index at m t i h lt)
    ∙ elim (dec_lt i 5) [
      | yes low ↦
          ap (Option.map (λ (k : Task). descriptor_base k.ldt_data)) (
            get_elem?-some (task_setup at m t).task_table (2 * i) no_task (omega (arith, tables.1)))
          ∙ ap some (data_base_of_task at m t (2 * i) h bytes (omega arith))
          ∙ ground arith
      | no high ↦
          ap (Option.map (λ (k : Task). descriptor_base k.ldt_data))
            (get_elem?-none (task_setup at m t).task_table (2 * i) (omega (arith, tables.1)))
          ∙ ground arith
    ]
