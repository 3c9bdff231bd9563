-- ===== src/Kernel/Lines.antt =====
-- kernel/drivers/shell_drivers.c and `read_line` (kernel/display/display.c): reading a line.
use rathal_os.Prelude.{
  ℕ, zero, suc, ◌+◌, ◌-◌, ◌%◌, ◌^◌, Option, none, some, ◌>>=◌, ◌==◌, true, false,
}
use rathal_os.Memory.{Memory, store}
use rathal_os.Kernel.Crtc.{Crtc}
use rathal_os.Kernel.Display.{Screen, line_size, display_carac, get_cursor_pos}
use rathal_os.Kernel.Keyboard.{Keyboard, getc}

abbrev pub esc : ℕ
esc = 2

abbrev pub enter : ℕ
enter = 13

-- The loop of `read_line`: the counter at its end and the memory. `reg` is `current_register`, whose low
-- byte, a part of an address, is the character.
line_loop : Memory → ℕ → ℕ → ℕ → ℕ → ℕ → ℕ × Memory
line_loop m buf reg char counter zero = (counter, m)
line_loop m buf reg char counter (suc left) = elim (char == 0) [
  | true ↦ (counter, m)
  | false ↦
      line_loop (store m (buf + counter) (reg % 2 ^ 8)) buf ((reg + 1) % 2 ^ 16) (reg % 2 ^ 8)
        (counter + 1) left
]

-- `SCREEN_REGISTER + line_start + 1`, cut to 16 bits.
abbrev pub line_register : ℕ → ℕ
line_register pos = (0xb8000 + (pos - pos % line_size) + 1) % 2 ^ 16

-- What `read_line` writes for the cursor at `pos`; the loop runs while the counter is below 80.
unfoldable pub write_line : Memory → ℕ → ℕ → Memory
unfolding line_loop
write_line m buf pos =
    let (counter, m') =
      line_loop m buf (line_register pos) (line_register pos % 2 ^ 8) 0 line_size in
    store m' (buf + counter - 1) 0

module _ {State : Type 0} (crtc : Crtc State) where
  unfoldable pub read_line : Screen State → Memory → ℕ → Screen State × Memory
  unfolding get_cursor_pos write_line
  read_line s m buf =
      let (ports, pos) = get_cursor_pos crtc s.ports in
      (record s { ports = ports }, write_line m buf pos)

  -- The loop, for `left` keys. `none` means that it does not return: it waits for a key, or ESC halts the
  -- machine.
  unfoldable pub read_keys :
      Screen State → Memory → ℕ → ℕ → Keyboard → Option (Screen State × Memory × Keyboard)
  unfolding read_line display_carac getc
  read_keys s m buffer zero k = none
  read_keys s m buffer (suc left) k = getc k >>= λ (k', key). elim (key == esc) [
    | true ↦ none
    | false ↦ elim (key == enter) [
      | true ↦ let (s', m') = read_line s m buffer in some (s', m', k')
      | false ↦ read_keys (display_carac crtc s key) m buffer left k'
    ]
  ]

  -- Without interrupts there are as many keys as the ring holds.
  unfoldable pub read_string :
      Screen State → Memory → ℕ → Keyboard → Option (Screen State × Memory × Keyboard)
  unfolding read_keys
  read_string s m buffer k = read_keys s m buffer k.size k
