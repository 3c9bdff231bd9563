-- ===== src/Kernel/Display.antt =====
-- kernel/display/display.c: the screen and its cursor. Video memory is seen as 16-bit cells, counted
-- from SCREEN_REGISTER on.
pub mod Scroll
pub mod View
pub mod Tests
use rathal_os.Prelude.{
  ℕ, zero, suc, ◌+◌, ◌-◌, ◌*◌, ◌/◌, ◌%◌, ◌^◌, Option, none, some, if◌then◌else◌, ◌==◌, ltb, bit_or,
}
use rathal_os.Memory.{Memory, store}
use rathal_os.Kernel.Crtc.{Crtc, cursor_command_register, cursor_data_register}

abbrev pub line_size : ℕ
line_size = 80

abbrev pub column_size : ℕ
column_size = 25

abbrev pub screen_size : ℕ
screen_size = 80 * 25

abbrev pub Cells : Type 0
Cells = ℕ → ℕ

-- `(CURRENT_COLOR << 8) | carac`, stored in 16 bits.
abbrev pub cell : ℕ → ℕ → ℕ
cell color carac = bit_or (color * 2 ^ 8) carac % 2 ^ 16

-- Video memory, CURRENT_COLOR and the controller.
pub record Screen (State : Type 0) : Type 0 where
  pub cells : Cells
  pub color : ℕ
  pub ports : State

-- The loop over `x` of `change_cursor_pos` in line `y`.
unfoldable pub copy_line : Cells → ℕ → ℕ → ℕ → Cells
copy_line c y x zero = c
copy_line c y x (suc left) =
    copy_line (store c ((y - 1) * line_size + x) (c (y * line_size + x))) y (x + 1) left

-- The loop over `y`.
unfoldable pub copy_lines : Cells → ℕ → ℕ → Cells
unfolding copy_line
copy_lines c y zero = c
copy_lines c y (suc left) = copy_lines (copy_line c y 0 line_size) (y + 1) left

-- `display_carac_at_pos(SCREEN_SIZE - LINE_SIZE + x, 0x00)` from `x` on.
unfoldable pub clear_line : Cells → ℕ → ℕ → ℕ → Cells
clear_line c color x zero = c
clear_line c color x (suc left) =
    clear_line (store c (screen_size - line_size + x) (cell color 0)) color (x + 1) left

unfoldable pub scroll : Cells → ℕ → Cells
unfolding copy_lines clear_line
scroll c color = clear_line (copy_lines c 1 (column_size - 1)) color 0 line_size

-- The loop of `clean_screen`.
unfoldable pub clean_from : Cells → ℕ → ℕ → Cells
clean_from c i zero = c
clean_from c i (suc left) = clean_from (store c i 0x0c00) (i + 1) left

-- `display_carac_at_pos`
unfoldable pub display_carac_at_pos : {State : Type 0} → Screen State → ℕ → ℕ → Screen State
display_carac_at_pos s pos carac = record s { cells = store s.cells pos (cell s.color carac) }

unfoldable pub change_color : {State : Type 0} → Screen State → ℕ → Screen State
change_color s new_color = record s { color = new_color }

unfoldable pub clean_screen : {State : Type 0} → Screen State → Screen State
unfolding clean_from
clean_screen s = record s { cells = clean_from s.cells 0 screen_size }

module _ {State : Type 0} (crtc : Crtc State) where
  abbrev command : ℕ → State → State
  command v p = crtc.outb cursor_command_register v p

  abbrev data_byte : ℕ → State → State
  data_byte v p = crtc.outb cursor_data_register v p

  -- The four port writes for a position on the screen.
  unfoldable pub set_cursor : ℕ → State → State
  set_cursor pos p =
      data_byte (pos % 2 ^ 8) (command 0xf (data_byte (pos / 2 ^ 8 % 2 ^ 8) (command 0xe p)))

  -- Behind the last position but one the screen is scrolled, and the call of itself with the start
  -- of the last line, 1920, takes the first branch.
  unfoldable pub change_cursor_pos : Screen State → ℕ → Screen State
  unfolding set_cursor scroll
  change_cursor_pos s pos =
      if ltb pos (screen_size - 1) then record s { ports = set_cursor pos s.ports } else record s {
        cells = scroll s.cells s.color;
        ports = set_cursor (screen_size - line_size) s.ports;
      }

  unfoldable pub get_cursor_pos : State → State × ℕ
  get_cursor_pos p =
      let high = command 0xe p in
      let low = command 0xf high in
      (
        low,
        bit_or (crtc.inb cursor_data_register high * 2 ^ 8 % 2 ^ 16)
            (crtc.inb cursor_data_register low),
      )

  -- A newline only computes a position: the call of `change_cursor_pos` stands behind the `break`.
  unfoldable pub display_carac : Screen State → ℕ → Screen State
  unfolding get_cursor_pos change_cursor_pos display_carac_at_pos
  display_carac s carac =
      let (ports, cursor_pos) = get_cursor_pos s.ports in
      if carac == 0xa
      then record s { ports = ports }
      else change_cursor_pos (display_carac_at_pos (record s { ports = ports }) cursor_pos carac)
          ((cursor_pos + 1) % 2 ^ 16)

  -- `none` means that the fuel ran out before the NUL.
  unfoldable pub display_string : ℕ → Memory → Screen State → ℕ → Option (Screen State)
  unfolding display_carac
  display_string zero m s string = none
  display_string (suc fuel) m s string =
      let rest = display_string fuel m (display_carac s (m string)) (string + 1) in
      if m string == 0 then some s else rest

  unfoldable pub init_cursor : State → State
  init_cursor p = data_byte 0x1f (command 0xb (data_byte 0xe (command 0xa p)))

  unfoldable pub init_screen : Screen State → Screen State
  unfolding clean_screen init_cursor change_cursor_pos
  init_screen s =
      let clean = clean_screen s in
      change_cursor_pos (record clean { ports = init_cursor clean.ports }) 0
