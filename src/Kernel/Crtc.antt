-- ===== src/Kernel/Crtc.antt =====
-- What the display asks of the CRT controller, which it reaches by `outb` and `inb` on the two ports
-- CURSOR_COMMAND_REGISTER (an index) and CURSOR_DATA_REGISTER (the register at that index).
use rathal_os.Prelude.{ℕ, ◌<◌, ◌≡◌, ◌==◌, if◌then◌else◌}

abbrev pub cursor_command_register : ℕ
cursor_command_register = 0x3d4

abbrev pub cursor_data_register : ℕ
cursor_data_register = 0x3d5

pub record Crtc (State : Type 0) : Type 0 where
  pub outb : ℕ → ℕ → State → State
  pub inb : ℕ → State → ℕ
  pub index : State → ℕ
  pub register : State → ℕ → ℕ
  pub register_lt : (s : State) (r : ℕ) → register s r < 256
  pub index-select : (v : ℕ) (s : State) → v < 256 → index (outb cursor_command_register v s) ≡ v
  pub register-select :
      (v : ℕ) (s : State) (r : ℕ) → register (outb cursor_command_register v s) r ≡ register s r
  pub index-write : (v : ℕ) (s : State) → index (outb cursor_data_register v s) ≡ index s
  pub register-write :
      (v : ℕ) (s : State) (r : ℕ)
      → v < 256
      → register (outb cursor_data_register v s) r ≡ (if index s == r then v else register s r)
  pub inb-register : (s : State) → inb cursor_data_register s ≡ register s (index s)
