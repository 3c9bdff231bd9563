-- ===== src/Kernel/Display/View.antt =====
-- The display as a screen of cells with a cursor and a colour, whatever the controller does inside.
use mathlib.Core.Path.{fun_ext}
use rathal_os.Prelude.{
  ℕ, zero, suc, ◌+◌, ◌*◌, ◌/◌, ◌%◌, ◌^◌, ◌<◌, ◌≡◌, ◌≢◌, refl, arith, if◌then◌else◌, ◌==◌, ltb, ap,
  ap₂, ◌∙◌, sym, bit_or, bit_or_fields, Option, none, some, List, [], ◌∷◌, length, true, false,
}
use rathal_os.Prelude.{Bool}
use rathal_os.Memory.{Memory, IsString, IsBytes, store}
use rathal_os.Kernel.Crtc.{Crtc, cursor_command_register, cursor_data_register}
use rathal_os.Kernel.Display.{
  Cells, Screen, cell, scroll, set_cursor, get_cursor_pos, change_cursor_pos, display_carac,
  display_carac_at_pos, display_string, clean_screen, init_cursor, init_screen,
}
use rathal_os.Kernel.Display.Scroll.{scroll-at, clean_from-at}

pub record Text : Type 0 where
  pub cells : Cells
  pub cursor : ℕ
  pub color : ℕ

abbrev pub scrolled : Cells → ℕ → Cells
scrolled c color i = if ltb i 1920 then c (i + 80) else if ltb i 2000 then color * 256 else c i

-- The cursor goes to a position, and the text up by a line if that is the last on the screen or behind
-- it.
abbrev pub move_to : Cells → ℕ → ℕ → Text
move_to c color pos =
    if ltb pos 1999
    then record { cells = c; cursor = pos; color = color }
    else record { cells = scrolled c color; cursor = 1920; color = color }

-- A character is written at the cursor, which then advances; a newline has no effect.
abbrev pub put : Text → ℕ → Text
put t carac =
    if carac == 10
    then t
    else move_to (store t.cells t.cursor (t.color * 256 + carac)) t.color ((t.cursor + 1) % 2 ^ 16)

abbrev pub puts : Text → List ℕ → Text
puts t [] = t
puts t (x ∷ xs) = puts (put t x) xs

put-color : (t : Text) (carac : ℕ) → (put t carac).color ≡ t.color
put-color t carac = ground arith

cell_lem : (color carac : ℕ) → color < 256 → carac < 256 → cell color carac ≡ color * 256 + carac
cell_lem color carac hc hx =
    ap (λ (v : ℕ). v % 2 ^ 16) (bit_or_fields 8 color carac hx) ∙ omega arith

scroll-scrolled : (c : Cells) (color : ℕ) → color < 256 → scroll c color ≡ scrolled c color
scroll-scrolled c color h = fun_ext (λ i.
    scroll-at c color i
    ∙ ap (λ (v : ℕ). if ltb i 1920 then c (i + 80) else if ltb i 2000 then v else c i)
        (cell_lem color 0 h (omega arith) ∙ omega arith))

module _ {State : Type 0} (crtc : Crtc State) where
  -- The position in registers 14 and 15.
  abbrev pub cursor : State → ℕ
  cursor p = crtc.register p 14 * 256 + crtc.register p 15

  -- A selected register receives the byte written, and the others stay.
  select_write :
      (r v : ℕ) (p : State) (k : ℕ)
      → r < 256
      → v < 256
      → crtc.register (crtc.outb cursor_data_register v (crtc.outb cursor_command_register r p)) k
        ≡ (if r == k then v else crtc.register p k)
  select_write r v p k hr hv =
      crtc.register-write v (crtc.outb cursor_command_register r p) k hv
      ∙ ap₂ (λ (i w : ℕ). if i == k then v else w) (crtc.index-select r p hr)
          (crtc.register-select r p k)

  set_cursor-register :
      (pos : ℕ) (p : State) (k : ℕ)
      → pos < 2 ^ 16
      → crtc.register (set_cursor crtc pos p) k
        ≡ (if 15 == k then pos % 256 else if 14 == k then pos / 256 else crtc.register p k)
  unfolding set_cursor
  set_cursor-register pos p k h =
      select_write 15 (pos % 2 ^ 8)
        (crtc.outb cursor_data_register (pos / 2 ^ 8 % 2 ^ 8)
          (crtc.outb cursor_command_register 14 p))
        k (omega arith) (omega arith)
      ∙ ap (λ (w : ℕ). if 15 == k then pos % 256 else w)
          (select_write 14 (pos / 2 ^ 8 % 2 ^ 8) p k (omega arith) (omega arith)
            ∙ ap (λ (w : ℕ). if 14 == k then w else crtc.register p k) {x = pos / 2 ^ 8 % 2 ^ 8}
                {y = pos / 256} (omega arith))

  cursor-set_cursor : (pos : ℕ) (p : State) → pos < 2 ^ 16 → cursor (set_cursor crtc pos p) ≡ pos
  cursor-set_cursor pos p h =
      omega (arith, set_cursor-register pos p 14 h, set_cursor-register pos p 15 h)

  select_read :
      (r : ℕ) (p : State)
      → r < 256
      → crtc.inb cursor_data_register (crtc.outb cursor_command_register r p) ≡ crtc.register p r
  select_read r p h =
      crtc.inb-register (crtc.outb cursor_command_register r p)
      ∙ ap (crtc.register (crtc.outb cursor_command_register r p)) (crtc.index-select r p h)
      ∙ crtc.register-select r p r

  -- `get_cursor_pos` returns the position and leaves it.
  get_cursor_pos_lem :
      (p : State)
      → ((get_cursor_pos crtc p).1 ≡ cursor p) × (cursor (get_cursor_pos crtc p).0 ≡ cursor p)
  unfolding get_cursor_pos
  get_cursor_pos_lem p =
      let high = crtc.outb cursor_command_register 14 p in
      let selected = crtc.register-select 14 p in
      let again = crtc.register-select 15 high in
      (
        ap₂ (λ (a b : ℕ). bit_or (a * 2 ^ 8 % 2 ^ 16) b) (select_read 14 p (omega arith))
              (select_read 15 high (omega arith) ∙ selected 15)
            ∙ ap (λ (a : ℕ). bit_or a (crtc.register p 15))
                {x = crtc.register p 14 * 2 ^ 8 % 2 ^ 16} {y = crtc.register p 14 * 2 ^ 8}
                (omega (arith, crtc.register_lt p 14))
            ∙ bit_or_fields 8 (crtc.register p 14) (crtc.register p 15) (crtc.register_lt p 15),
        ap₂ (λ (a b : ℕ). a * 256 + b) (again 14 ∙ selected 14) (again 15 ∙ selected 15),
      )

  abbrev pub view : Screen State → Text
  view s = record { cells = s.cells; cursor = cursor s.ports; color = s.color }

  abbrev text : Cells → ℕ → ℕ → Text
  text c color p = record { cells = c; cursor = p; color = color }

  abbrev pub map_view : Option (Screen State) → Option Text
  map_view none = none
  map_view (some s) = some (view s)

  pub change_cursor_pos-move_to :
      (s : Screen State) (pos : ℕ)
      → s.color < 256
      → pos < 2 ^ 16
      → view (change_cursor_pos crtc s pos) ≡ move_to s.cells s.color pos
  unfolding change_cursor_pos
  change_cursor_pos-move_to s pos hc hp = go (ltb pos 1999)
    where
      go :
          (b : Bool)
          → view (
              if b then record s { ports = set_cursor crtc pos s.ports } else record s {
                cells = scroll s.cells s.color;
                ports = set_cursor crtc 1920 s.ports;
              })
            ≡ (if b
                then record { cells = s.cells; cursor = pos; color = s.color }
                else record { cells = scrolled s.cells s.color; cursor = 1920; color = s.color })
      go true = ap (λ (p : ℕ). text s.cells s.color p) (cursor-set_cursor pos s.ports hp)
      go false =
          ap₂ (λ (c : Cells) (p : ℕ). text c s.color p) (scroll-scrolled s.cells s.color hc)
            (cursor-set_cursor 1920 s.ports (omega arith))

  -- `display_carac` does what `put` does.
  pub display_carac-put :
      (s : Screen State) (carac : ℕ)
      → s.color < 256
      → carac < 256
      → view (display_carac crtc s carac) ≡ put (view s) carac
  unfolding display_carac display_carac_at_pos
  display_carac-put s carac hc hx = go (carac == 10)
    where
      read : State × ℕ
      read = get_cursor_pos crtc s.ports

      go :
          (b : Bool)
          → view (
              if b
              then record s { ports = read.0 }
              else change_cursor_pos crtc
                  (record s { cells = store s.cells read.1 (cell s.color carac); ports = read.0 })
                  ((read.1 + 1) % 2 ^ 16))
            ≡ (if b
                then view s
                else move_to
                    (store s.cells (cursor s.ports) (s.color * 256 + carac))
                    s.color
                    ((cursor s.ports + 1) % 2 ^ 16))
      go true = ap (λ (p : ℕ). text s.cells s.color p) (get_cursor_pos_lem s.ports).1
      go false =
          change_cursor_pos-move_to
            (record s { cells = store s.cells read.1 (cell s.color carac); ports = read.0 })
            ((read.1 + 1) % 2 ^ 16) hc (omega arith)
          ∙ ap₂ (λ (p v : ℕ). move_to (store s.cells p v) s.color ((p + 1) % 2 ^ 16))
              (get_cursor_pos_lem s.ports).0 (cell_lem s.color carac hc hx)

  -- `display_string` of a string, with fuel above its length and a colour of a byte, returns, and the
  -- screen is then the one that shows the characters one by one: each at the cursor, which advances
  -- and scrolls the screen up by a line at its end, and none of a newline, which leaves the cursor.
  pub display_string-puts :
      (fuel : ℕ) (m : Memory) (s : Screen State) (string : ℕ) (xs : List ℕ)
      → IsString m string xs
      → IsBytes m
      → s.color < 256
      → length xs < fuel
      → map_view (display_string crtc fuel m s string) ≡ some (puts (view s) xs)
  unfolding display_string
  display_string-puts zero m s string xs str bytes hc enough = absurd (omega arith)
  display_string-puts (suc fuel) m s string [] str bytes hc enough = ended (m string) str
    where
      ended :
          (c : ℕ)
          → c ≡ 0
          → map_view (
              if c == 0
              then some s
              else display_string crtc fuel m (display_carac crtc s (m string)) (string + 1))
            ≡ some (view s)
      ended zero e = refl
      ended (suc c) e = absurd (omega arith)
  display_string-puts (suc fuel) m s string (x ∷ xs) str bytes hc enough =
      let shown = display_carac-put s (m string) hc (bytes string) in
      let color = ap (λ (t : Text). t.color) shown ∙ put-color (view s) (m string) in
      goes_on (m string) (λ e. str.1 (sym str.0 ∙ e))
      ∙ display_string-puts fuel m (display_carac crtc s (m string)) (string + 1) xs str.2 bytes
          (omega (arith, color)) (omega arith)
      ∙ ap (λ (t : Text). some (puts t xs)) (shown ∙ ap (put (view s)) str.0)
    where
      goes_on :
          (c : ℕ)
          → c ≢ 0
          → map_view (
              if c == 0
              then some s
              else display_string crtc fuel m (display_carac crtc s (m string)) (string + 1))
            ≡ map_view (display_string crtc fuel m (display_carac crtc s (m string)) (string + 1))
      goes_on zero ne = absurd (ne refl)
      goes_on (suc c) ne =
          let test : (suc c == 0) ≡ false = ground arith in
          ap
            (λ (b : Bool). map_view (
              if b
              then some s
              else display_string crtc fuel m (display_carac crtc s (m string)) (string + 1)))
            test

  -- After `init_screen`, with a colour below 256, the screen is blank in the colour 12, the cells behind it are as before, and
  -- the cursor is at its start.
  pub init_screen_lem :
      (s : Screen State)
      → s.color < 256
      → view (init_screen crtc s) ≡ record {
        cells = λ i. if ltb i 2000 then 0x0c00 else s.cells i;
        cursor = 0;
        color = s.color;
      }
  unfolding init_screen clean_screen
  init_screen_lem s hc =
      change_cursor_pos-move_to
        (record (clean_screen s) { ports = init_cursor crtc (clean_screen s).ports }) 0 hc
        (omega arith)
      ∙ ap (λ (c : Cells). text c s.color 0)
          (fun_ext (λ i. clean_from-at s.cells 0 2000 i ∙ ground arith))
