-- ===== src/Kernel/Idt/Tests.antt =====
-- A table and an empty keyboard.
use rathal_os.Prelude.{◌+◌, ◌*◌, ◌%◌, ◌^◌, ◌≡◌, refl, arith, [], ◌∷◌, replicate, false, get_or}
use rathal_os.Kernel.Keyboard.Ring.{IsValid}
use rathal_os.Kernel.Idt.{IdtEntry, Routines, no_entry, idt_init, pic_eoi, Devices}
use rathal_os.Kernel.Idt.Gates.{run_irqs, run_irqs_lem}

abbrev routines : Routines
routines = record {
  exception = λ k. 0x100000 + 16 * k;
  irq_exception = λ k. 0x110000 + 16 * k;
  syscall = 0x120000;
}

-- What the stack happened to hold: a gate that is open to user programs.
abbrev stale : IdtEntry
stale = record { offset15_0 = 9; selector = 8; type = 14; dpl = 3; p = 1; offset31_16 = 0 }

abbrev devices : Devices
devices = record {
  timer = record { tick = 5; freq = 100; divider = 72016 };
  keyboard = record { fifo_buffer = replicate 256 0; head = 0; tail = 0; size = 0; shift = false };
}

devices-IsValid : IsValid devices.keyboard
devices-IsValid = record {
  storage = refl;
  tail_in = omega arith;
  size_in = omega arith;
  head_at = refl;
}

-- Entry 100 keeps what the stack held.
keeps_stale : (get_or (idt_init routines (replicate 256 stale)) 100 no_entry).dpl ≡ 3
unfolding idt_init
keeps_stale = refl

acknowledges : (pic_eoi 1 ≡ (0x20, 0x20) ∷ []) × (pic_eoi 14 ≡ (0xa0, 0x20) ∷ (0x20, 0x20) ∷ [])
unfolding pic_eoi
acknowledges = (refl, refl)

run_irqs_lem_example :
    ((run_irqs devices ((0, 0, 0) ∷ (1, 1, 0x1e) ∷ (0, 0, 0) ∷ [])).timer.tick ≡ (5 + 2) % 2 ^ 32)
    × IsValid (run_irqs devices ((0, 0, 0) ∷ (1, 1, 0x1e) ∷ (0, 0, 0) ∷ [])).keyboard
run_irqs_lem_example =
    run_irqs_lem ((0, 0, 0) ∷ (1, 1, 0x1e) ∷ (0, 0, 0) ∷ []) devices devices-IsValid
      (omega arith, (omega arith, (omega arith, tt))) (omega arith)
