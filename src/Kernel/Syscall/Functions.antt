-- ===== src/Kernel/Syscall/Functions.antt =====
-- kernel/syscalls/syscall.c: the functions of the table, on the state of the kernel.
use rathal_os.Prelude.{
  ℕ, ◌+◌, ◌-◌, ◌%◌, ◌^◌, Option, none, some, ◌>>=◌, if◌then◌else◌, ◌==◌, ℤ, pos, negsuc, Bool, true,
  false, List,
}
use rathal_os.Memory.{Memory, load32, store32}
use rathal_os.Common.Func.{memcpy, strlen, strcmp}
use rathal_os.Common.Inode.{number, name, inode_filename_length, inode_get_next}
use rathal_os.Kernel.Disk.{Disk}
use rathal_os.Kernel.Crtc.{Crtc}
use rathal_os.Kernel.Display.{Screen, display_carac, display_string}
use rathal_os.Kernel.Print.{printf}
use rathal_os.Kernel.Lines.{read_string}
use rathal_os.Kernel.Keyboard.{Keyboard, getc, keypressed}
use rathal_os.Kernel.Timer.{Timer, sleep}
use rathal_os.Kernel.Fs.{
  Fs, file_stat, file_open, file_close, file_seek, file_remove, file_iterator, file_has_next,
}
use rathal_os.Kernel.Fs.Read.{file_read}
use rathal_os.Kernel.Task.{Layout, Tasks, Outcome, failure, switch, exec}

-- The state of the kernel's parts; the memory is that of the file system.
pub record Machine (State : Type 0) : Type 0 where
  pub fs : Fs
  pub tasks : Tasks
  pub keyboard : Keyboard
  pub timer : Timer
  pub screen : Screen State

-- The bit pattern of an `int`.
abbrev pub int_bits : ℤ → ℕ
int_bits (pos n) = n % 2 ^ 32
int_bits (negsuc e) = 2 ^ 32 - 1 - e % 2 ^ 32

abbrev pub bool_bits : Bool → ℕ
bool_bits false = 0
bool_bits true = 1

abbrev pub set_memory : {State : Type 0} → Memory → Machine State → Machine State
set_memory m s = record s { fs = record s.fs { memory = m } }

-- `*(int*)p = v`
abbrev pub store_int : {State : Type 0} → ℕ → ℕ → Machine State → Machine State
store_int p v s = set_memory (store32 s.fs.memory p v) s

-- What the functions rely on: the disk, what `file_read` finds in a variable that is not set, where the
-- tasks stand, the controller of the display, the status that the keyboard shows, what a task does from
-- the switch to it until its end, the words on the stack behind the two arguments of `printf`, the
-- fuel of the loops over strings, and the numbers of timer interrupts between the tests of `sleep`.
pub record Environment (State : Type 0) : Type 0 where
  pub disk : Disk
  pub garbage : ℕ
  pub at : Layout
  pub crtc : Crtc State
  pub keyboard_status : ℕ
  pub run : ℕ → Machine State → Option (Machine State)
  pub stack : ℕ → ℕ → ℕ
  pub fuel : ℕ
  pub schedule : List ℕ

-- What `exec` makes of the way it goes on: its result, after the other task has run.
abbrev pub finish_exec :
    {State : Type 0} → Environment State → Outcome → Machine State → Option (Machine State × ℤ)
finish_exec env failure s = some (s, negsuc 0)
finish_exec env (switch selector) s = env.run selector s >>= λ s'. some (s', pos 1)

-- The words that `printf` takes from the stack when its first argument is `arg`.
abbrev pub with_argument : ℕ → (ℕ → ℕ → ℕ) → ℕ → ℕ → ℕ
with_argument arg stack depth i =
    if depth == 0 then (if i == 1 then arg else stack 0 i) else stack depth i

-- Every function returns 0, so the result is the state; `none` means that the function does not return,
-- or that fuel ran out.
module _ {State : Type 0} (env : Environment State) where
  unfoldable pub syscall_puts : ℕ → Machine State → Option (Machine State)
  unfolding display_string
  syscall_puts arg1 s = display_string env.crtc env.fuel s.fs.memory s.screen arg1 >>= λ screen.
      some (record s { screen = screen })

  unfoldable pub syscall_exec : ℕ → ℕ → Machine State → Option (Machine State)
  unfolding exec
  syscall_exec arg1 arg2 s =
      let (fs, tasks, outcome) = exec env.disk env.garbage env.at s.fs s.tasks arg1 in
      finish_exec env outcome (record s { fs = fs; tasks = tasks }) >>= λ (s', result).
      some (store_int arg2 (int_bits result) s')

  unfoldable pub syscall_keypressed : ℕ → Machine State → Option (Machine State)
  unfolding keypressed
  syscall_keypressed arg1 s = some (store_int arg1 (keypressed env.keyboard_status) s)

  unfoldable pub syscall_getc : ℕ → Machine State → Option (Machine State)
  unfolding getc
  syscall_getc arg1 s =
      getc s.keyboard >>= λ (k, key). some (store_int arg1 key (record s { keyboard = k }))

  -- `stat_t` is two words.
  unfoldable pub syscall_file_stat : ℕ → ℕ → ℕ → Machine State → Option (Machine State)
  unfolding file_stat
  syscall_file_stat arg1 arg2 arg3 s = elim (file_stat s.fs arg1) [
    | none ↦ some (store_int arg3 0 s)
    | some stat ↦
        some (store_int arg3 1 (store_int (arg2 + 4) stat.inode (store_int arg2 stat.size s)))
  ]

  unfoldable pub syscall_file_open : ℕ → ℕ → Machine State → Option (Machine State)
  unfolding file_open
  syscall_file_open arg1 arg2 s =
      let (fs, fd) = file_open s.fs arg1 in
      some (store_int arg2 (int_bits fd) (record s { fs = fs }))

  unfoldable pub syscall_file_read : ℕ → ℕ → ℕ → ℕ → Machine State → Option (Machine State)
  unfolding file_read
  syscall_file_read arg1 arg2 arg3 arg4 s =
      let (fs, count) = file_read env.disk env.garbage s.fs arg1 arg2 arg3 in
      some (store_int arg4 (int_bits count) (record s { fs = fs }))

  unfoldable pub syscall_file_close : ℕ → Machine State → Option (Machine State)
  unfolding file_close
  syscall_file_close arg1 s = some (record s { fs = file_close s.fs arg1 })

  unfoldable pub syscall_file_seek : ℕ → ℕ → ℕ → Machine State → Option (Machine State)
  unfolding file_seek
  syscall_file_seek arg1 arg2 arg3 s =
      let (fs, result) = file_seek s.fs arg1 arg2 in
      some (store_int arg3 (int_bits result) (record s { fs = fs }))

  unfoldable pub syscall_file_remove : ℕ → ℕ → Machine State → Option (Machine State)
  unfolding file_remove
  syscall_file_remove arg1 arg2 s =
      let (fs, result) = file_remove s.fs arg1 in
      some (store_int arg2 result (record s { fs = fs }))

  unfoldable pub syscall_file_iterator : ℕ → Machine State → Option (Machine State)
  unfolding file_iterator
  syscall_file_iterator arg1 s = some (store_int arg1 (file_iterator s.fs) s)

  unfoldable pub syscall_file_has_next : ℕ → ℕ → Machine State → Option (Machine State)
  unfolding file_has_next
  syscall_file_has_next arg1 arg2 s =
      some (store_int arg2 (bool_bits (file_has_next s.fs (load32 s.fs.memory arg1))) s)

  -- `file_next` on an iterator in memory, which is written before the name.
  unfoldable pub syscall_file_next : ℕ → ℕ → Machine State → Option (Machine State)
  syscall_file_next arg1 arg2 s =
      let inode = number s.fs.memory (load32 s.fs.memory arg2) in
      elim (inode_get_next s.fs.memory s.fs.inode_table inode) [
        | none ↦ some s
        | some next ↦ some (
            set_memory
              (memcpy (store32 s.fs.memory arg2 next) arg1 (name next) inode_filename_length) s)
      ]

  unfoldable pub syscall_get_ticks : ℕ → Machine State → Option (Machine State)
  syscall_get_ticks arg1 s = some (store_int arg1 s.timer.tick s)

  unfoldable pub syscall_putc : ℕ → Machine State → Option (Machine State)
  unfolding display_carac
  syscall_putc arg1 s =
      some (record s { screen = display_carac env.crtc s.screen (s.fs.memory arg1) })

  unfoldable pub syscall_printf : ℕ → ℕ → Machine State → Option (Machine State)
  unfolding printf
  syscall_printf arg1 arg2 s =
      printf env.crtc env.fuel s.fs.memory (with_argument (load32 s.fs.memory arg2) env.stack)
        s.screen arg1
      >>= λ screen. some (record s { screen = screen })

  -- The bodies of `srand` and `rand` are comments.
  unfoldable pub syscall_srand : ℕ → Machine State → Option (Machine State)
  syscall_srand arg1 s = some s

  unfoldable pub syscall_rand : Machine State → Option (Machine State)
  syscall_rand s = some s

  -- It halts the machine.
  unfoldable pub syscall_exit : Machine State → Option (Machine State)
  syscall_exit s = none

  unfoldable pub syscall_sleep : ℕ → Machine State → Option (Machine State)
  unfolding sleep
  syscall_sleep arg1 s =
      sleep env.schedule s.timer arg1 >>= λ timer. some (record s { timer = timer })

  unfoldable pub syscall_strlen : ℕ → ℕ → Machine State → Option (Machine State)
  unfolding strlen
  syscall_strlen arg1 arg2 s =
      strlen env.fuel s.fs.memory arg1 >>= λ length. some (store_int arg2 length s)

  unfoldable pub syscall_strcmp : ℕ → ℕ → ℕ → Machine State → Option (Machine State)
  unfolding strcmp
  syscall_strcmp arg1 arg2 arg3 s = strcmp env.fuel s.fs.memory arg1 arg2 >>= λ difference.
      some (store_int arg3 (int_bits difference) s)

  unfoldable pub syscall_read_string : ℕ → Machine State → Option (Machine State)
  unfolding read_string
  syscall_read_string arg1 s =
      read_string env.crtc s.screen s.fs.memory arg1 s.keyboard >>= λ (screen, m, k).
      some (set_memory m (record s { screen = screen; keyboard = k }))
