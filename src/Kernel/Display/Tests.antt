-- ===== src/Kernel/Display/Tests.antt =====
-- A controller with an index and a function of registers, and a string of two lines.
use rathal_os.Prelude.{ℕ, ◌%◌, ◌≡◌, refl, arith, if◌then◌else◌, ◌==◌, some, [], ◌∷◌}
use rathal_os.Memory.{Memory, IsBytes, place, zeros, place-IsBytes}
use rathal_os.Kernel.Crtc.{Crtc}
use rathal_os.Kernel.Display.{Screen, display_string}
use rathal_os.Kernel.Display.View.{view, map_view, puts, display_string-puts}

pub record Registers : Type 0 where
  pub selected : ℕ
  pub values : ℕ → ℕ

abbrev pub controller : Crtc Registers
controller = record {
  outb = λ port v s.
      if port == 0x3d4
      then record s { selected = v }
      else record s { values = λ r. if s.selected == r then v else s.values r };
  inb = λ port s. s.values s.selected % 256;
  index = λ s. s.selected;
  register = λ s r. s.values r % 256;
  register_lt = λ s r. omega arith;
  index-select = λ v s lt. refl;
  register-select = λ v s r. refl;
  index-write = λ v s. refl;
  register-write = λ v s r lt. ground arith;
  inb-register = λ s. refl;
}

abbrev pub screen : Screen Registers
screen = record {
  cells = λ i. i;
  color = 12;
  ports = record { selected = 0; values = λ r. if r == 15 then 78 else if r == 14 then 7 else 0 };
}

abbrev ram : Memory
ram = place 100 (b'a' ∷ 10 ∷ b'b' ∷ []) zeros

ram-IsBytes : IsBytes ram
ram-IsBytes = place-IsBytes 100 (b'a' ∷ 10 ∷ b'b' ∷ []) zeros (omega arith) (λ a. omega arith)

-- From position 1870 on, without a line feed between the two characters.
cursor_after : (puts (view controller screen) (b'a' ∷ 10 ∷ b'b' ∷ [])).cursor ≡ 1872
cursor_after = refl

display_string-puts_example :
    map_view controller (display_string controller 9 ram screen 100)
    ≡ some (puts (view controller screen) (b'a' ∷ 10 ∷ b'b' ∷ []))
display_string-puts_example =
    display_string-puts controller 9 ram screen 100 (b'a' ∷ 10 ∷ b'b' ∷ [])
      (refl, omega arith, (refl, omega arith, (refl, omega arith, refl))) ram-IsBytes (omega arith)
      (omega arith)
