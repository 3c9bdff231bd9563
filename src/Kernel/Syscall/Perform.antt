-- ===== src/Kernel/Syscall/Perform.antt =====
-- kernel/syscalls/syscall.c: `syscall_handler` with the functions of the table.
use rathal_os.Prelude.{ℕ, Option, ◌>>=◌}
use rathal_os.Kernel.Syscall.{
  Call, syscall_handler, puts, exec, keypressed, getc, file_stat, file_open, file_read, file_close,
  file_seek, file_remove, file_iterator, file_has_next, file_next, get_ticks, putc, printf, srand,
  rand, sleep, exit, strlen, strcmp, read_string,
}
use rathal_os.Kernel.Syscall.Functions.{
  Machine, Environment, syscall_puts, syscall_exec, syscall_keypressed, syscall_getc,
  syscall_file_stat, syscall_file_open, syscall_file_read, syscall_file_close, syscall_file_seek,
  syscall_file_remove, syscall_file_iterator, syscall_file_has_next, syscall_file_next,
  syscall_get_ticks, syscall_putc, syscall_printf, syscall_srand, syscall_rand, syscall_exit,
  syscall_sleep, syscall_strlen, syscall_strcmp, syscall_read_string,
}

module _ {State : Type 0} (env : Environment State) where
  -- The function of a call.
  unfoldable pub perform : Call → Machine State → Option (Machine State)
  unfolding syscall_puts syscall_exec syscall_keypressed syscall_getc syscall_file_stat
      syscall_file_open syscall_file_read syscall_file_close syscall_file_seek syscall_file_remove
      syscall_file_iterator syscall_file_has_next syscall_file_next syscall_get_ticks syscall_putc
      syscall_printf syscall_srand syscall_rand syscall_exit syscall_sleep syscall_strlen
      syscall_strcmp syscall_read_string
  perform c s = elim c.function [
    | puts ↦ syscall_puts env c.arg1 s
    | exec ↦ syscall_exec env c.arg1 c.arg2 s
    | keypressed ↦ syscall_keypressed env c.arg1 s
    | getc ↦ syscall_getc env c.arg1 s
    | file_stat ↦ syscall_file_stat env c.arg1 c.arg2 c.arg3 s
    | file_open ↦ syscall_file_open env c.arg1 c.arg2 s
    | file_read ↦ syscall_file_read env c.arg1 c.arg2 c.arg3 c.arg4 s
    | file_close ↦ syscall_file_close env c.arg1 s
    | file_seek ↦ syscall_file_seek env c.arg1 c.arg2 c.arg3 s
    | file_remove ↦ syscall_file_remove env c.arg1 c.arg2 s
    | file_iterator ↦ syscall_file_iterator env c.arg1 s
    | file_has_next ↦ syscall_file_has_next env c.arg1 c.arg2 s
    | file_next ↦ syscall_file_next env c.arg1 c.arg2 s
    | get_ticks ↦ syscall_get_ticks env c.arg1 s
    | putc ↦ syscall_putc env c.arg1 s
    | printf ↦ syscall_printf env c.arg1 c.arg2 s
    | srand ↦ syscall_srand env c.arg1 s
    | rand ↦ syscall_rand env s
    | sleep ↦ syscall_sleep env c.arg1 s
    | exit ↦ syscall_exit env s
    | strlen ↦ syscall_strlen env c.arg1 c.arg2 s
    | strcmp ↦ syscall_strcmp env c.arg1 c.arg2 c.arg3 s
    | read_string ↦ syscall_read_string env c.arg1 s
  ]

  -- A system call by number, from the task with the selector; `none` is also a read outside a table.
  unfoldable pub system_call : ℕ → ℕ → ℕ → ℕ → ℕ → ℕ → Machine State → Option (Machine State)
  unfolding syscall_handler perform
  system_call nb arg1 arg2 arg3 arg4 selector s =
      syscall_handler s.tasks nb arg1 arg2 arg3 arg4 selector >>= λ c. perform c s
