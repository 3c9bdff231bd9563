-- ===== src/Kernel/Keyboard.antt =====
-- kernel/drivers/keyboard.c: the interrupt handler and the ring of characters behind `getc`. What
-- the two `inb` calls deliver are arguments.
pub mod Ring
pub mod Run
pub mod Tests
use rathal_os.Prelude.{
  ℕ, zero, suc, ◌+◌, ◌-◌, ◌%◌, ◌/◌, Bool, true, false, List, [], ◌∷◌, if◌then◌else◌, leb, ltb, ◌==◌,
  ◌||◌, set, get_or, Option, none, some,
}
use rathal_os.Kernel.Keymap.{scan2char}

abbrev pub key_buffer_size : ℕ
key_buffer_size = 256

-- The static variables; `head`, `tail` and `size` are `uchar_t`.
pub record Keyboard : Type 0 where
  pub fifo_buffer : List ℕ
  pub head : ℕ
  pub tail : ℕ
  pub size : ℕ
  pub shift : Bool

-- `size` is left as it is.
unfoldable pub keyboard_init : Keyboard → Keyboard
keyboard_init k = record k { head = 0; tail = 0; shift = false }

-- Adding a character; `head++` and `size++` wrap at 256.
unfoldable pub add_key : Keyboard → ℕ → Keyboard
add_key k c = record k {
  fifo_buffer = set k.fifo_buffer k.head c;
  head = (k.head + 1) % 256 % key_buffer_size;
  size = (k.size + 1) % 256;
}

-- The Boolean says whether KEYBOARD_BUFFER_OVERFLOW is printed. `!status & 0x1` is `(!status) & 1`.
unfoldable pub keyboard_handler : ℕ → ℕ → Keyboard → Keyboard × Bool
unfolding add_key
keyboard_handler status scan_code k =
    if status == 0
    then (k, false)
    else if scan_code / 128 % 2 == 1
    then (if scan_code == 0xaa || scan_code == 0xb6 then record k { shift = false } else k, false)
    else if scan_code == 0x2a || scan_code == 0x36
    then (record k { shift = true }, false)
    else if leb key_buffer_size k.size
    then (k, true)
    else (add_key k (scan2char scan_code k.shift), false)

-- `none` is the wait for a key; the handler runs meanwhile.
unfoldable pub getc : Keyboard → Option (Keyboard × ℕ)
getc k =
    if k.size == 0
    then none
    else some (
      record k { tail = (k.tail + 1) % 256 % key_buffer_size; size = k.size - 1 },
      get_or k.fifo_buffer k.tail 0,
    )

-- `inb(KEYBOARD_STATE_REGISTER) & 0x1`
unfoldable pub keypressed : ℕ → ℕ
keypressed status = status % 2
