-- ===== src/Kernel/Keyboard/Tests.antt =====
-- A keyboard that starts empty near the end of its buffer.
use rathal_os.Prelude.{◌≡◌, refl, arith, false, List, [], ◌∷◌, none, some, replicate}
use rathal_os.Kernel.Keymap.{scan2char}
use rathal_os.Kernel.Keyboard.{Keyboard, keyboard_handler, getc}
use rathal_os.Kernel.Keyboard.Ring.{IsValid}
use rathal_os.Kernel.Keyboard.Run.{
  Event, interrupt, read, queue, interrupt_queue, run, run_queue, keyboard_handler_lem, run_refines,
}

abbrev keyboard : Keyboard
keyboard = record { fifo_buffer = replicate 256 0; head = 255; tail = 255; size = 0; shift = false }

keyboard-IsValid : IsValid keyboard
keyboard-IsValid = record {
  storage = refl;
  tail_in = omega arith;
  size_in = omega arith;
  head_at = refl;
}

-- a, shift, b, shift up, and three reads
abbrev typing : List Event
typing =
    interrupt 1 0x1e
    ∷ interrupt 1 0x9e
    ∷ interrupt 1 0x2a
    ∷ interrupt 1 0x30
    ∷ interrupt 1 0xaa
    ∷ read
    ∷ read
    ∷ read
    ∷ []

types : run keyboard typing ≡ some b'a' ∷ some b'B' ∷ none ∷ []
unfolding run keyboard_handler getc scan2char
types = refl

keyboard_handler_lem_example :
    IsValid (keyboard_handler 1 0x1e keyboard).0
    × (queue (keyboard_handler 1 0x1e keyboard).0 ≡ interrupt_queue 1 0x1e (queue keyboard))
    × ((keyboard_handler 1 0x1e keyboard).1 ≡ false)
keyboard_handler_lem_example = keyboard_handler_lem 1 0x1e keyboard keyboard-IsValid (omega arith)

run_refines_example : run keyboard typing ≡ run_queue (queue keyboard) typing
run_refines_example = run_refines typing keyboard keyboard-IsValid (omega arith)
