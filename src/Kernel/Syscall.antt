-- ===== src/Kernel/Syscall.antt =====
-- kernel/syscalls/syscall.c and common/syscall_nb.h: which function a system call number reaches, and
-- the base that the handler adds to the arguments.
pub mod Base
pub mod Functions
pub mod Perform
pub mod Tests
use mathlib.Core.Option
use rathal_os.Prelude.{
  ℕ, zero, suc, ◌+◌, ◌-◌, ◌*◌, ◌/◌, ◌%◌, ◌^◌, ◌≡◌, refl, List, [], ◌∷◌, get_elem?, get_or, Option,
  none, some,
}
use rathal_os.Kernel.Gdt.{descriptor_base}
use rathal_os.Kernel.Task.{Task, Tasks}

-- `syscall_t`, the numbers in order.
pub data Syscall : Type 0 where
  puts exec keypressed getc file_stat file_open file_read file_close file_seek file_remove
        file_iterator file_has_next file_next get_ticks putc printf srand rand sleep exit strlen
        strcmp read_string :
      Syscall

-- The value of each enumerator.
unfoldable pub syscall_nb : Syscall → ℕ
syscall_nb puts = 0
syscall_nb exec = 1
syscall_nb keypressed = 2
syscall_nb getc = 3
syscall_nb file_stat = 4
syscall_nb file_open = 5
syscall_nb file_read = 6
syscall_nb file_close = 7
syscall_nb file_seek = 8
syscall_nb file_remove = 9
syscall_nb file_iterator = 10
syscall_nb file_has_next = 11
syscall_nb file_next = 12
syscall_nb get_ticks = 13
syscall_nb putc = 14
syscall_nb printf = 15
syscall_nb srand = 16
syscall_nb rand = 17
syscall_nb sleep = 18
syscall_nb exit = 19
syscall_nb strlen = 20
syscall_nb strcmp = 21
syscall_nb read_string = 22

-- The table of the functions `syscall_puts` and so on, each named by its call.
abbrev pub func_syscalls : List Syscall
func_syscalls =
    puts ∷ exec ∷ keypressed ∷ getc ∷ file_stat ∷ file_open ∷ file_read ∷ file_close ∷ file_seek
    ∷ file_remove ∷ file_iterator ∷ file_has_next ∷ file_next ∷ get_ticks ∷ putc ∷ printf ∷ srand
    ∷ rand ∷ sleep ∷ exit ∷ strlen ∷ strcmp ∷ read_string ∷ []

-- A call as the handler makes it: the function, and the four arguments with the base added to each
-- (modulo 2 ^ 32).
pub record Call : Type 0 where
  pub function : Syscall
  pub arg1 : ℕ
  pub arg2 : ℕ
  pub arg3 : ℕ
  pub arg4 : ℕ

-- `(caller_tss_selector >> 3) - 4`, unsigned.
unfoldable pub caller_index : ℕ → ℕ
caller_index caller_tss_selector = (caller_tss_selector / 2 ^ 3 + 2 ^ 32 - 4) % 2 ^ 32

-- The base in `task_ldt[1]` of that task. `none` is a read outside the table, which the code does not
-- check for.
unfoldable pub caller_base : Tasks → ℕ → Option ℕ
unfolding caller_index
caller_base t caller_tss_selector =
    Option.map (λ (task : Task). descriptor_base task.ldt_data)
      (get_elem? t.task_table (caller_index caller_tss_selector))

make_call : ℕ → ℕ → ℕ → ℕ → Option ℕ → Option Syscall → Option Call
make_call arg1 arg2 arg3 arg4 none f = none
make_call arg1 arg2 arg3 arg4 (some base) none = none
make_call arg1 arg2 arg3 arg4 (some base) (some f) = some (record {
  function = f;
  arg1 = (base + arg1) % 2 ^ 32;
  arg2 = (base + arg2) % 2 ^ 32;
  arg3 = (base + arg3) % 2 ^ 32;
  arg4 = (base + arg4) % 2 ^ 32;
})

-- `none` also for a number behind the table of functions, which the code does not check for either.
unfoldable pub syscall_handler : Tasks → ℕ → ℕ → ℕ → ℕ → ℕ → ℕ → Option Call
unfolding make_call caller_base
syscall_handler t nb arg1 arg2 arg3 arg4 caller_tss_selector =
    make_call arg1 arg2 arg3 arg4 (caller_base t caller_tss_selector) (get_elem? func_syscalls nb)
