-- ===== src/User/Wrapper/System/Tests.antt =====
-- Calls from the task with selector 64, whose base is 77.
use rathal_os.Prelude.{◌≡◌, refl, arith, some, [], ◌∷◌, replicate, false}
use rathal_os.Memory.{load32, place, place-IsBytes}
use rathal_os.Kernel.Display.Tests.{Registers, controller, screen}
use rathal_os.Kernel.Fs.{file_open}
use rathal_os.Kernel.Fs.Tests.{files, start, start-IsBytes, pattern_disk}
use rathal_os.Kernel.Task.{task_setup}
use rathal_os.Kernel.Syscall.Tests.{layout, tables, ram, base_found}
use rathal_os.Kernel.Syscall.Functions.{Machine, Environment, int_bits, store_int}
use rathal_os.User.Wrapper.Calls.{file_open_call, strlen_call}
use rathal_os.User.Wrapper.System.{after_call, kernel_address, file_open_call_lem, strlen_call_lem}

abbrev environment : Environment Registers
environment = record {
  disk = pattern_disk;
  garbage = 0;
  at = layout;
  crtc = controller;
  keyboard_status = 0;
  run = λ selector s. some s;
  stack = λ depth i. 0;
  fuel = 20;
  schedule = [];
}

abbrev machine : Machine Registers
machine = record {
  fs = files;
  tasks = task_setup layout ram tables;
  keyboard = record { fifo_buffer = replicate 256 0; head = 0; tail = 0; size = 0; shift = false };
  timer = record { tick = 5; freq = 18; divider = 1 };
  screen = screen;
}

-- A pointer at the address 6000.
abbrev with_pointer : Machine Registers
with_pointer = record machine {
  fs = record files { memory = place 6000 (1 ∷ 2 ∷ 3 ∷ 0 ∷ []) start };
}

file_open_call_lem_example :
    (s' : Machine Registers) × (after_call environment (file_open_call 4923 4000) 64 machine
      ≡ some s')
    × (load32 s'.fs.memory (kernel_address 77 4000)
        ≡ int_bits (file_open machine.fs (kernel_address 77 4923)).1)
    × (s'.fs.file_descriptor_tab
        ≡ (file_open machine.fs (kernel_address 77 4923)).0.file_descriptor_tab)
file_open_call_lem_example = file_open_call_lem environment 4923 4000 64 77 machine base_found

strlen_call_lem_example :
    after_call environment (strlen_call 5923 4000) 64 with_pointer
    ≡ some (store_int (kernel_address 77 4000) 3 with_pointer)
strlen_call_lem_example =
    strlen_call_lem environment 5923 4000 64 77 197121 with_pointer base_found
      (place-IsBytes 6000 (1 ∷ 2 ∷ 3 ∷ 0 ∷ []) start
        (omega arith, (omega arith, (omega arith, (omega arith, _)))) start-IsBytes)
      refl (omega arith) (λ e. omega arith) (λ e. omega arith) (λ e. omega arith) (omega arith)
