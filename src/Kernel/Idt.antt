-- ===== src/Kernel/Idt.antt =====
-- kernel/idt/idt.c and kernel/drivers/pic.c: the gates, and the handler of hardware interrupts with the
-- acknowledgement. What handlers print is left out, as is `exception_handler`, which prints and halts.
pub mod Gates
pub mod Tests
use rathal_os.Prelude.{
  ℕ, zero, suc, ◌+◌, ◌-◌, ◌*◌, ◌/◌, ◌%◌, ◌^◌, List, [], ◌∷◌, ◌++◌, set, if◌then◌else◌, ◌==◌, ltb,
}
use rathal_os.Kernel.Gdt.{dpl_user, dpl_kernel}
use rathal_os.Kernel.Timer.{Timer, timer_handler}
use rathal_os.Kernel.Keyboard.{Keyboard, keyboard_handler}

-- `idt_entry_t`
pub record IdtEntry : Type 0 where
  pub offset15_0 : ℕ
  pub selector : ℕ
  pub type : ℕ
  pub dpl : ℕ
  pub p : ℕ
  pub offset31_16 : ℕ

unfoldable pub idt_build_entry : ℕ → ℕ → ℕ → ℕ → IdtEntry
idt_build_entry selector offset type dpl = record {
  offset15_0 = offset % 2 ^ 16;
  selector = selector;
  type = type % 2 ^ 5;
  dpl = dpl % 2 ^ 2;
  p = 1;
  offset31_16 = offset / 2 ^ 16 % 2 ^ 16;
}

-- An entry that `memset` zeroed.
abbrev pub no_entry : IdtEntry
no_entry = record { offset15_0 = 0; selector = 0; type = 0; dpl = 0; p = 0; offset31_16 = 0 }

abbrev pub type_interrupt_gate : ℕ
type_interrupt_gate = 14

abbrev pub type_trap_gate : ℕ
type_trap_gate = 15

abbrev pub gdt_kernel_code_selector : ℕ
gdt_kernel_code_selector = 8

-- The addresses of the assembly routines.
pub record Routines : Type 0 where
  pub exception : ℕ → ℕ
  pub irq_exception : ℕ → ℕ
  pub syscall : ℕ

-- The assignments to `left` entries from `i` on; the routine of entry `i` is number `k`.
unfoldable pub set_gates : (ℕ → ℕ) → ℕ → ℕ → ℕ → List IdtEntry → List IdtEntry
unfolding idt_build_entry
set_gates routine k i zero idt = idt
set_gates routine k i (suc left) idt = set_gates routine (k + 1) (i + 1) left (
    set idt i (idt_build_entry gdt_kernel_code_selector (routine k) type_interrupt_gate dpl_kernel))

-- `idt` is a local of `idt_init`, and what it holds at first an argument. `memset` clears
-- `sizeof(idt_entry_t)` bytes, the first entry.
unfoldable pub idt_init : Routines → List IdtEntry → List IdtEntry
unfolding set_gates idt_build_entry
idt_init at idt =
    set (set_gates at.irq_exception 0 32 16 (set_gates at.exception 0 0 21 (set idt 0 no_entry))) 48
      (idt_build_entry gdt_kernel_code_selector at.syscall type_trap_gate dpl_user)

-- The bytes written to the ports of the controllers.
abbrev pub pic_init : List (ℕ × ℕ)
pic_init =
    (0x20, 0x11)
    ∷ (0xa0, 0x11)
    ∷ (0x21, 32)
    ∷ (0xa1, 40)
    ∷ (0x21, 0x04)
    ∷ (0xa1, 0x02)
    ∷ (0x21, 0x01)
    ∷ (0xa1, 0x01)
    ∷ []

unfoldable pub pic_eoi : ℕ → List (ℕ × ℕ)
pic_eoi irq = if ltb 7 irq then (0xa0, 0x20) ∷ (0x20, 0x20) ∷ [] else (0x20, 0x20) ∷ []

-- What the handlers change.
pub record Devices : Type 0 where
  pub timer : Timer
  pub keyboard : Keyboard

-- The interrupt `number`, with what the keyboard's ports hold; the bytes are what is written to ports.
unfoldable pub irq_handler : ℕ → ℕ → ℕ → Devices → Devices × List (ℕ × ℕ)
unfolding pic_eoi
irq_handler number status scan_code d = (
  (if number == 0
      then record d { timer = timer_handler d.timer }
      else if number == 1
      then record d { keyboard = (keyboard_handler status scan_code d.keyboard).0 }
      else d),
  pic_eoi number,
)
