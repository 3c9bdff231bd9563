-- ===== src/User/Wrapper/Calls.antt =====
-- user/wrapper.c: which system call each wrapper makes. An argument of the model is the number that the
-- wrapper hands on; `ret` is the address of the local variable for the result, and `fd`, `count`, `offset`,
-- `c`, `seed`, `ms`, `str` of `strlen_call`, `p`, `q` and `buffer` are the addresses of the parameters of
-- these names, where the wrapper hands on `&fd` and so on. What `exec` prints before its call is left out.
use rathal_os.Prelude.{ℕ}
use rathal_os.Kernel.Syscall.{
  Syscall, puts, exec, keypressed, getc, file_stat, file_open, file_read, file_close, file_seek,
  file_remove, file_iterator, file_has_next, file_next, get_ticks, putc, printf, srand, rand, sleep,
  exit, strlen, strcmp, read_string,
}

-- The system call and its four arguments, as user/syscall_asm.s loads them in registers.
pub record UserCall : Type 0 where
  pub function : Syscall
  pub arg1 : ℕ
  pub arg2 : ℕ
  pub arg3 : ℕ
  pub arg4 : ℕ

abbrev pub syscall : Syscall → ℕ → ℕ → ℕ → ℕ → UserCall
syscall function arg1 arg2 arg3 arg4 = record {
  function = function;
  arg1 = arg1;
  arg2 = arg2;
  arg3 = arg3;
  arg4 = arg4;
}

abbrev pub puts_call : ℕ → UserCall
puts_call str = syscall puts str 0 0 0

abbrev pub exec_call : ℕ → ℕ → UserCall
exec_call filename ret = syscall exec filename ret 0 0

abbrev pub keypressed_call : ℕ → UserCall
keypressed_call ret = syscall keypressed ret 0 0 0

abbrev pub getc_call : ℕ → UserCall
getc_call ret = syscall getc ret 0 0 0

abbrev pub file_stat_call : ℕ → ℕ → ℕ → UserCall
file_stat_call filename stats ret = syscall file_stat filename stats ret 0

abbrev pub file_open_call : ℕ → ℕ → UserCall
file_open_call filename ret = syscall file_open filename ret 0 0

abbrev pub file_read_call : ℕ → ℕ → ℕ → ℕ → UserCall
file_read_call fd buf count ret = syscall file_read fd buf count ret

abbrev pub file_close_call : ℕ → UserCall
file_close_call fd = syscall file_close fd 0 0 0

abbrev pub file_seek_call : ℕ → ℕ → ℕ → UserCall
file_seek_call fd offset ret = syscall file_seek fd offset ret 0

abbrev pub file_remove_call : ℕ → ℕ → UserCall
file_remove_call filename ret = syscall file_remove filename ret 0 0

abbrev pub file_iterator_call : ℕ → UserCall
file_iterator_call ret = syscall file_iterator ret 0 0 0

abbrev pub file_has_next_call : ℕ → ℕ → UserCall
file_has_next_call it ret = syscall file_has_next it ret 0 0

abbrev pub file_next_call : ℕ → ℕ → UserCall
file_next_call filename it = syscall file_next filename it 0 0

abbrev pub get_ticks_call : ℕ → UserCall
get_ticks_call ret = syscall get_ticks ret 0 0 0

abbrev pub putc_call : ℕ → UserCall
putc_call c = syscall putc c 0 0 0

abbrev pub printf_call : ℕ → ℕ → UserCall
printf_call fmt argv = syscall printf fmt argv 0 0

abbrev pub srand_call : ℕ → ℕ → UserCall
srand_call seed ret = syscall srand seed ret 0 0

abbrev pub rand_call : ℕ → UserCall
rand_call ret = syscall rand ret 0 0 0

abbrev pub sleep_call : ℕ → UserCall
sleep_call ms = syscall sleep ms 0 0 0

abbrev pub exit_call : UserCall
exit_call = syscall exit 0 0 0 0

abbrev pub strlen_call : ℕ → ℕ → UserCall
strlen_call str ret = syscall strlen str ret 0 0

abbrev pub strcmp_call : ℕ → ℕ → ℕ → UserCall
strcmp_call p q ret = syscall strcmp p q ret 0

abbrev pub read_string_call : ℕ → UserCall
read_string_call buffer = syscall read_string buffer 0 0 0
