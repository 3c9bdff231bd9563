-- ===== src/Kernel/Print.antt =====
-- kernel/display/display.c: `print_int`, `printf` and the mark that the timer draws.
pub mod Digits
pub mod Plain
pub mod Tests
use rathal_os.Prelude.{
  ℕ, zero, suc, ◌+◌, ◌-◌, ◌*◌, ◌/◌, ◌%◌, ◌^◌, Option, none, some, ◌>>=◌, if◌then◌else◌, ◌==◌, ltb,
  leb, List, [], ◌∷◌, Bool, true, false,
}
use rathal_os.Memory.{Memory, store}
use rathal_os.Kernel.Crtc.{Crtc}
use rathal_os.Kernel.Display.{Screen, Cells, display_carac, get_cursor_pos, change_cursor_pos}

-- The character for `num % base`, which is `- digit` if `num` is negative.
abbrev pub digit_char : Bool → ℕ → ℕ
digit_char negative digit =
    if negative then 48 - digit else if ltb 9 digit then digit - 10 + 97 else digit + 48

-- The loop that fills `ret`, with the characters found so far behind the new ones, as the second loop
-- displays them. Both bases in use give at most ten digits.
unfoldable pub digits_onto : Bool → ℕ → ℕ → ℕ → List ℕ → List ℕ
digits_onto negative base zero num ret = ret
digits_onto negative base (suc left) num ret =
    let rest =
      digits_onto negative base left (num / base) (digit_char negative (num % base) ∷ ret) in
    if num == 0 then ret else rest

-- The sign bit and the magnitude of an `int`.
abbrev pub is_negative : ℕ → Bool
is_negative num = leb (2 ^ 31) num

abbrev pub magnitude : ℕ → ℕ
magnitude num = if is_negative num then 2 ^ 32 - num else num

-- What `print_int` displays: the NUL of the array first, then the digits.
unfoldable pub int_chars : ℕ → ℕ → List ℕ
int_chars num base =
    if num == 0 then 0 ∷ 48 ∷ [] else 0 ∷ digits_onto (is_negative num) base 32 (magnitude num) []

-- What a character and the one behind it mean to `printf`.
pub data Item : Type 0 where
  plain newline character string decimal hexadecimal ignored : Item

-- The letters are c, s, d and x behind '%'.
unfoldable pub conversion : ℕ → Item
conversion letter =
    if letter == 99
    then character
    else if letter == 115
    then string
    else if letter == 100
    then decimal
    else if letter == 120
    then hexadecimal
    else ignored

unfoldable pub item : ℕ → ℕ → Item
unfolding conversion
item c next = if c == 37 then conversion next else if c == 10 then newline else plain

module _ {State : Type 0} (crtc : Crtc State) where
  unfoldable pub display_all : Screen State → List ℕ → Screen State
  unfolding display_carac
  display_all s [] = s
  display_all s (c ∷ cs) = display_all (display_carac crtc s c) cs

  unfoldable pub print_int : Screen State → ℕ → ℕ → Screen State
  unfolding display_all int_chars
  print_int s num base = display_all s (int_chars num base)

  -- To the start of the next line.
  unfoldable pub next_line : Screen State → Screen State
  unfolding get_cursor_pos change_cursor_pos
  next_line s =
      let (ports, pos) = get_cursor_pos crtc s.ports in
      change_cursor_pos crtc (record s { ports = ports }) ((pos + (80 - pos % 80)) % 2 ^ 16)

  -- One round of the loop of `printf`, for an item at the reading head `rh`: the screen, the head and the
  -- counter `cnt` behind it. `arg` is the next argument, and `nested` the call of `printf` for a string.
  unfoldable pub print_item :
      Memory
      → (ℕ → Option (Screen State))
      → ℕ
      → Screen State
      → ℕ
      → ℕ
      → Item
      → Option (Screen State × ℕ × ℕ)
  unfolding display_carac print_int next_line
  print_item m nested arg s rh cnt plain = some (display_carac crtc s (m rh), rh + 1, cnt)
  print_item m nested arg s rh cnt newline = some (next_line s, rh + 1, cnt)
  print_item m nested arg s rh cnt character =
      some (display_carac crtc s (arg % 2 ^ 8), rh + 2, cnt + 1)
  print_item m nested arg s rh cnt string = nested arg >>= λ s'. some (s', rh + 2, cnt + 1)
  print_item m nested arg s rh cnt decimal = some (print_int s arg 10, rh + 2, cnt + 1)
  print_item m nested arg s rh cnt hexadecimal = some (print_int s arg 16, rh + 2, cnt + 1)
  print_item m nested arg s rh cnt ignored = some (s, rh + 2, cnt)

  -- `args depth i` is the word `i` behind the format on the stack, in the call at that depth. An empty
  -- format is read beyond its NUL, as is one that ends in '%'. `none` means that the fuel ran out.
  unfoldable pub printf_from :
      ℕ → Memory → (ℕ → ℕ → ℕ) → ℕ → Screen State → ℕ → ℕ → Option (Screen State)
  unfolding print_item
  printf_from zero m args depth s rh cnt = none
  printf_from (suc fuel) m args depth s rh cnt =
      print_item m (λ fmt. printf_from fuel m args (depth + 1) s fmt 0) (args depth (cnt + 1)) s rh
        cnt (item (m rh) (m (rh + 1)))
      >>= λ (s', rh', cnt'). elim (m rh' == 0) [
        | true ↦ some s'
        | false ↦ printf_from fuel m args depth s' rh' cnt'
      ]

  unfoldable pub printf : ℕ → Memory → (ℕ → ℕ → ℕ) → Screen State → ℕ → Option (Screen State)
  unfolding printf_from
  printf fuel m args s fmt = printf_from fuel m args 0 s fmt 0

-- `graphic_state1` and `graphic_state2`
abbrev pub graphic_state : ℕ → Cells → Cells
graphic_state state c = store c 78 (if state == 0 then 0x0c09 else 0x0c07)

-- The static variable `state` and the cells; `none` is a division by a frequency of 0.
unfoldable pub time_graphic : ℕ → ℕ → ℕ × Cells → Option (ℕ × Cells)
time_graphic tick freq (state, c) =
    if freq == 0
    then none
    else if tick % freq == 0
    then some (1 - state, graphic_state (1 - state) c)
    else some (state, c)
