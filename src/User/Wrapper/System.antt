-- ===== src/User/Wrapper/System.antt =====
-- What the calls of a user program do in the kernel. The program is the task with a selector, whose base
-- the handler adds to the arguments.
pub mod Tests
use rathal_os.Prelude.{
  ℕ, zero, suc, ◌+◌, ◌*◌, ◌/◌, ◌%◌, ◌^◌, ◌<◌, ◌≡◌, ◌≢◌, refl, arith, Option, none, some, ◌>>=◌,
  if◌then◌else◌, ap, ap₂, ◌∙◌, sym, List, [], ◌∷◌, set, get_or, set-beyond, get_or-beyond, length,
  pos, negsuc, ℤ,
}
use rathal_os.Memory.{Memory, load32, store32, load32-store32, IsString, IsBytes, at}
use rathal_os.Common.Func.{strlen}
use rathal_os.Common.Func.Strings.{strlen_lem}
use rathal_os.Kernel.Disk.{Disk}
use rathal_os.Kernel.Fs.{Fs, file_open}
use rathal_os.Kernel.Syscall.{Syscall, syscall_nb, caller_base}
use rathal_os.Kernel.Syscall.Base.{syscall_handler_lem}
use rathal_os.Kernel.Syscall.Functions.{
  Machine, Environment, int_bits, store_int, syscall_file_open, syscall_strlen,
}
use rathal_os.Kernel.Syscall.Perform.{perform, system_call}
use rathal_os.User.Wrapper.Pointer.{pointer-IsString}
use rathal_os.User.Wrapper.Calls.{UserCall, file_open_call, strlen_call}

-- The state after a call of the program.
abbrev pub after_call :
    {State : Type 0} → Environment State → UserCall → ℕ → Machine State → Option (Machine State)
after_call env c selector s =
    system_call env (syscall_nb c.function) c.arg1 c.arg2 c.arg3 c.arg4 selector s

-- The address in the kernel of what the program has at `a`.
abbrev pub kernel_address : ℕ → ℕ → ℕ
kernel_address base a = (base + a) % 2 ^ 32

after_call-perform :
    {State : Type 0} (env : Environment State) (c : UserCall) (selector base : ℕ)
    (s : Machine State)
    → caller_base s.tasks selector ≡ some base
    → after_call env c selector s
      ≡ perform env
          (record {
            function = c.function;
            arg1 = kernel_address base c.arg1;
            arg2 = kernel_address base c.arg2;
            arg3 = kernel_address base c.arg3;
            arg4 = kernel_address base c.arg4;
          })
          s
unfolding system_call
after_call-perform env c selector base s e =
    ap (λ r. r >>= λ k. perform env k s)
      (syscall_handler_lem s.tasks c.function c.arg1 c.arg2 c.arg3 c.arg4 selector base e)

int_bits_lt : (z : ℤ) → int_bits z < 2 ^ 32
int_bits_lt (pos n) = omega arith
int_bits_lt (negsuc e) = omega arith

-- Opening a file from a program, whose base the handler finds, opens in the kernel the file whose name
-- stands at the program's address `filename`, and leaves the descriptor, or -1, at its address `ret`.
pub file_open_call_lem :
    {State : Type 0} (env : Environment State) (filename ret selector base : ℕ) (s : Machine State)
    → caller_base s.tasks selector ≡ some base
    → (s' : Machine State) × (after_call env (file_open_call filename ret) selector s ≡ some s')
      × (load32 s'.fs.memory (kernel_address base ret)
          ≡ int_bits (file_open s.fs (kernel_address base filename)).1)
      × (s'.fs.file_descriptor_tab
          ≡ (file_open s.fs (kernel_address base filename)).0.file_descriptor_tab)
unfolding perform syscall_file_open
file_open_call_lem env filename ret selector base s e =
    let opened = file_open s.fs (kernel_address base filename) in
    (
      store_int (kernel_address base ret) (int_bits opened.1) (record s { fs = opened.0 }),
      after_call-perform env (file_open_call filename ret) selector base s e,
      load32-store32 opened.0.memory (kernel_address base ret) (int_bits opened.1)
          (int_bits_lt opened.1),
      refl,
    )

-- `strlen` of a program, whose base the handler finds, measures the bytes of its parameter, the pointer: for a
-- pointer below 2 ^ 24 whose three low bytes are not 0 the result is 3, whatever the string is. The fuel is
-- above 3.
pub strlen_call_lem :
    {State : Type 0} (env : Environment State) (str ret selector base v : ℕ) (s : Machine State)
    → caller_base s.tasks selector ≡ some base
    → IsBytes s.fs.memory
    → load32 s.fs.memory (kernel_address base str) ≡ v
    → v < 2 ^ 24
    → v % 256 ≢ 0
    → v / 256 % 256 ≢ 0
    → v / 65536 ≢ 0
    → 3 < env.fuel
    → after_call env (strlen_call str ret) selector s
      ≡ some (store_int (kernel_address base ret) 3 s)
unfolding perform syscall_strlen
strlen_call_lem {State} env str ret selector base v s e bytes held small b0 b1 b2 enough =
    after_call-perform env (strlen_call str ret) selector base s e
    ∙ ap
        (λ (r : Option ℕ).
          r >>= λ length. some (store_int {State = State} (kernel_address base ret) length s))
        (strlen_lem env.fuel s.fs.memory (kernel_address base str)
          (v % 256 ∷ v / 256 % 256 ∷ v / 65536 ∷ [])
          (pointer-IsString s.fs.memory (kernel_address base str) v bytes held small b0 b1 b2)
          (omega arith) enough)
