-- ===== src/Kernel/Idt/Gates.antt =====
-- The gates after `idt_init`, and any sequence of hardware interrupts.
use native.Mathlib.Decide.{ℕ_discrete}
use rathal_os.Prelude.{
  ℕ, zero, suc, ◌+◌, ◌-◌, ◌%◌, ◌^◌, ◌<◌, ◌≤◌, ◌≡◌, refl, arith, List, [], ◌∷◌, set, get_or, length,
  length-set, get_or-set_self, get_or-set_ne, if◌then◌else◌, ◌==◌, ap, ◌∙◌, true, false, Bool, ◌⊎◌,
  inl, inr,
}
use rathal_os.Kernel.Timer.{timer_handler}
use rathal_os.Kernel.Keyboard.{keyboard_handler}
use rathal_os.Kernel.Keyboard.Ring.{IsValid}
use rathal_os.Kernel.Keyboard.Run.{keyboard_handler_lem}
use rathal_os.Kernel.Idt.{
  IdtEntry, Routines, idt_build_entry, no_entry, set_gates, idt_init, Devices, irq_handler,
}

abbrev entry_at : List IdtEntry → ℕ → IdtEntry
entry_at idt i = get_or idt i no_entry

-- The gate of an interrupt: routine `offset`, reached through `type`, open from level `dpl` on.
abbrev pub gate : ℕ → ℕ → ℕ → IdtEntry
gate offset type dpl = idt_build_entry 8 offset type dpl

length-set_gates :
    (routine : ℕ → ℕ) (k i left : ℕ) (idt : List IdtEntry)
    → length (set_gates routine k i left idt) ≡ length idt
unfolding set_gates
length-set_gates routine k i zero idt = refl
length-set_gates routine k i (suc left) idt =
    length-set_gates routine (k + 1) (i + 1) left (set idt i _) ∙ length-set idt i _

set_gates-outside :
    (routine : ℕ → ℕ) (k i left j : ℕ) (idt : List IdtEntry)
    → (j < i) ⊎ (i + left ≤ j)
    → entry_at (set_gates routine k i left idt) j ≡ entry_at idt j
unfolding set_gates
set_gates-outside routine k i zero j idt h = refl
set_gates-outside routine k i (suc left) j idt h =
    set_gates-outside routine (k + 1) (i + 1) left j (set idt i _) (omega arith)
    ∙ get_or-set_ne idt i j _ no_entry (λ e. omega arith)

set_gates-inside :
    (routine : ℕ → ℕ) (k i left n : ℕ) (idt : List IdtEntry)
    → n < left
    → i + left ≤ length idt
    → entry_at (set_gates routine k i left idt) (i + n) ≡ gate (routine (k + n)) 14 0
unfolding set_gates
set_gates-inside routine k i zero n idt h fits = absurd (omega arith)
set_gates-inside routine k i (suc left) n idt h fits = elim (ℕ_discrete n 0) [
  | yes e ↦
      ap (entry_at (set_gates routine k i (suc left) idt)) {x = i + n} {y = i} (omega arith)
      ∙ set_gates-outside routine (k + 1) (i + 1) left i (set idt i (gate (routine k) 14 0))
          (inl (omega arith))
      ∙ get_or-set_self idt i (gate (routine k) 14 0) no_entry (omega arith)
      ∙ ap (λ (r : ℕ). gate (routine r) 14 0) {x = k} {y = k + n} (omega arith)
  | no ne ↦
      ap (entry_at (set_gates routine k i (suc left) idt)) {x = i + n} {y = i + 1 + (n - 1)}
        (omega arith)
      ∙ set_gates-inside routine (k + 1) (i + 1) left (n - 1) (set idt i (gate (routine k) 14 0))
          (omega arith) (omega (arith, length-set idt i (gate (routine k) 14 0)))
      ∙ ap (λ (r : ℕ). gate (routine r) 14 0) {x = k + 1 + (n - 1)} {y = k + n} (omega arith)
]

-- The table after `idt_init`: the 21 exceptions and the 16 hardware interrupts from 32 on have gates
-- for the kernel, the system call one for user programs; every other entry is what the stack held.
pub record HasGates (at : Routines) (idt idt' : List IdtEntry) : Type 0 where
  pub exceptions : (i : ℕ) → i < 21 → entry_at idt' i ≡ gate (at.exception i) 14 0
  pub interrupts : (i : ℕ) → i < 16 → entry_at idt' (32 + i) ≡ gate (at.irq_exception i) 14 0
  pub system_call : entry_at idt' 48 ≡ gate at.syscall 15 3
  pub others : (i : ℕ) → ((21 ≤ i) × (i < 32)) ⊎ (49 ≤ i) → entry_at idt' i ≡ entry_at idt i

-- `idt_init` on a table of 256 entries sets the gates of the 21 exceptions, of the 16 hardware
-- interrupts and of the system call, and leaves what the memory of the table held in all others.
pub idt_init-HasGates :
    (at : Routines) (idt : List IdtEntry) → length idt ≡ 256 → HasGates at idt (idt_init at idt)
unfolding idt_init
idt_init-HasGates at idt h =
    let clear = set idt 0 no_entry in
    let low = set_gates at.exception 0 0 21 clear in
    let high = set_gates at.irq_exception 0 32 16 low in
    let clear_length : length clear ≡ 256 = length-set idt 0 no_entry ∙ h in
    let low_length : length low ≡ 256 = length-set_gates at.exception 0 0 21 clear ∙ clear_length in
    let high_length : length high ≡ 256 =
      length-set_gates at.irq_exception 0 32 16 low ∙ low_length in
    record {
      exceptions = λ i lt.
          get_or-set_ne high 48 i _ no_entry (λ e. omega arith)
          ∙ set_gates-outside at.irq_exception 0 32 16 i low (inl (omega arith))
          ∙ ap (entry_at low) {x = i} {y = 0 + i} (omega arith)
          ∙ set_gates-inside at.exception 0 0 21 i clear lt (omega (arith, clear_length))
          ∙ ap (λ (r : ℕ). gate (at.exception r) 14 0) {x = 0 + i} {y = i} (omega arith);
      interrupts = λ i lt.
          get_or-set_ne high 48 (32 + i) _ no_entry (λ e. omega arith)
          ∙ set_gates-inside at.irq_exception 0 32 16 i low lt (omega (arith, low_length))
          ∙ ap (λ (r : ℕ). gate (at.irq_exception r) 14 0) {x = 0 + i} {y = i} (omega arith);
      system_call = get_or-set_self high 48 _ no_entry (omega (arith, high_length));
      others = λ i out.
          get_or-set_ne high 48 i _ no_entry (λ e. omega arith)
          ∙ set_gates-outside at.irq_exception 0 32 16 i low (omega arith)
          ∙ set_gates-outside at.exception 0 0 21 i clear (inr (omega arith))
          ∙ get_or-set_ne idt 0 i _ no_entry (λ e. omega arith);
    }

-- A hardware interrupt: its number and what the two ports of the keyboard hold.
abbrev pub Irq : Type 0
Irq = ℕ × ℕ × ℕ

unfoldable pub run_irqs : Devices → List Irq → Devices
run_irqs d [] = d
run_irqs d ((number, status, code) ∷ irqs) = run_irqs (irq_handler number status code d).0 irqs

-- How many of the interrupts are the timer's.
abbrev pub timer_irqs : List Irq → ℕ
timer_irqs [] = 0
timer_irqs ((number, status, code) ∷ irqs) =
    let rest = timer_irqs irqs in if number == 0 then suc rest else rest

-- Scan codes are bytes.
abbrev pub AllBytesRead : List Irq → Type 0
AllBytesRead [] = Unit {0}
AllBytesRead ((number, status, code) ∷ irqs) = (code < 256) × AllBytesRead irqs

handler_tick :
    (number status code : ℕ) (d : Devices)
    → (irq_handler number status code d).0.timer.tick
      ≡ (if number == 0 then (d.timer.tick + 1) % 2 ^ 32 else d.timer.tick)
unfolding irq_handler timer_handler
handler_tick number status code d = ground arith

handler-IsValid :
    (number status code : ℕ) (d : Devices)
    → IsValid d.keyboard
    → code < 256
    → IsValid (irq_handler number status code d).0.keyboard
unfolding irq_handler
handler-IsValid number status code d v lt = go (number == 0) (number == 1)
  where
    go :
        (b c : Bool)
        → IsValid
            (if b
              then record d { timer = timer_handler d.timer }
              else if c
              then record d { keyboard = (keyboard_handler status code d.keyboard).0 }
              else d).keyboard
    go true c = v
    go false true = (keyboard_handler_lem status code d.keyboard v lt).0
    go false false = v

-- Whatever hardware interrupts happen (with scan codes below 256), from a tick below 2 ^ 32 on the tick
-- counts those of the timer modulo 2 ^ 32, and a valid keyboard stays valid.
pub run_irqs_lem :
    (irqs : List Irq) (d : Devices)
    → IsValid d.keyboard
    → AllBytesRead irqs
    → d.timer.tick < 2 ^ 32
    → ((run_irqs d irqs).timer.tick ≡ (d.timer.tick + timer_irqs irqs) % 2 ^ 32)
      × IsValid (run_irqs d irqs).keyboard
unfolding run_irqs
run_irqs_lem [] d v codes small = (omega arith, v)
run_irqs_lem ((number, status, code) ∷ irqs) d v codes small =
    let tick = handler_tick number status code d in
    let bounded : (irq_handler number status code d).0.timer.tick < 2 ^ 32 = ground (arith, tick) in
    let ih =
      run_irqs_lem irqs (irq_handler number status code d).0
        (handler-IsValid number status code d v codes.0) codes.1 bounded in
    (ih.0 ∙ ground (arith, tick), ih.1)
