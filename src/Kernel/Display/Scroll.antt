-- ===== src/Kernel/Display/Scroll.antt =====
-- What the loops over the screen leave in the cells.
use rathal_os.Prelude.{
  ℕ, zero, suc, ◌+◌, ◌-◌, ◌*◌, ◌≤◌, ◌≡◌, arith, if◌then◌else◌, ltb, leb, ◌&&◌, ap, ap₂, ◌∙◌,
}
use rathal_os.Memory.{store, at}
use rathal_os.Kernel.Display.{Cells, cell, copy_line, copy_lines, clear_line, scroll, clean_from}

copy_line-at :
    (c : Cells) (y x left i : ℕ)
    → 1 ≤ y
    → x + left ≤ 80
    → copy_line c y x left i
      ≡ (if leb ((y - 1) * 80 + x) i && ltb i ((y - 1) * 80 + x + left) then c (i + 80) else c i)
unfolding copy_line
copy_line-at c y x zero i hy hx = ground arith
copy_line-at c y x (suc left) i hy hx = ground (
  arith,
  copy_line-at (store c ((y - 1) * 80 + x) (c (y * 80 + x))) y (x + 1) left i hy (omega arith),
  at c (y * 80 + x) (i + 80),
)

-- Line `y` is moved before the lines behind it.
line_step :
    (y left i a b d : ℕ)
    → 1 ≤ y
    → (if leb ((y + 1 - 1) * 80) i && ltb i ((y + 1 - 1) * 80 + left * 80)
        then (if leb ((y - 1) * 80 + 0) (i + 80) && ltb (i + 80) ((y - 1) * 80 + 0 + 80)
            then d
            else a)
        else (if leb ((y - 1) * 80 + 0) i && ltb i ((y - 1) * 80 + 0 + 80) then a else b))
      ≡ (if leb ((y - 1) * 80) i && ltb i ((y - 1) * 80 + suc left * 80) then a else b)
line_step y left i a b d hy = ground arith

copy_lines-at :
    (c : Cells) (y left i : ℕ)
    → 1 ≤ y
    → copy_lines c y left i
      ≡ (if leb ((y - 1) * 80) i && ltb i ((y - 1) * 80 + left * 80) then c (i + 80) else c i)
unfolding copy_lines
copy_lines-at c y zero i hy = ground arith
copy_lines-at c y (suc left) i hy =
    copy_lines-at (copy_line c y 0 80) (y + 1) left i (omega arith)
    ∙ ap₂
        (λ (u v : ℕ).
          if leb ((y + 1 - 1) * 80) i && ltb i ((y + 1 - 1) * 80 + left * 80) then u else v)
        (copy_line-at c y 0 80 (i + 80) hy (omega arith)) (copy_line-at c y 0 80 i hy (omega arith))
    ∙ line_step y left i (c (i + 80)) (c i) (c (i + 80 + 80)) hy

clear_line-at :
    (c : Cells) (color x left i : ℕ)
    → clear_line c color x left i
      ≡ (if leb (1920 + x) i && ltb i (1920 + x + left) then cell color 0 else c i)
unfolding clear_line
clear_line-at c color x zero i = ground arith
clear_line-at c color x (suc left) i =
    ground (arith, clear_line-at (store c (1920 + x) (cell color 0)) color (x + 1) left i)

-- Scrolling moves every line up by one and blanks the last; cells behind the screen are left.
pub scroll-at :
    (c : Cells) (color i : ℕ)
    → scroll c color i
      ≡ (if ltb i 1920 then c (i + 80) else if ltb i 2000 then cell color 0 else c i)
unfolding scroll
scroll-at c color i =
    clear_line-at (copy_lines c 1 24) color 0 80 i
    ∙ ap (λ (v : ℕ). if leb 1920 i && ltb i 2000 then cell color 0 else v)
        (copy_lines-at c 1 24 i (omega arith))
    ∙ parts (c (i + 80)) (c i) (cell color 0)
  where
    parts :
        (a b d : ℕ)
        → (if leb 1920 i && ltb i 2000 then d else if leb 0 i && ltb i 1920 then a else b)
          ≡ (if ltb i 1920 then a else if ltb i 2000 then d else b)
    parts a b d = ground arith

pub clean_from-at :
    (c : Cells) (i left j : ℕ)
    → clean_from c i left j ≡ (if leb i j && ltb j (i + left) then 0x0c00 else c j)
unfolding clean_from
clean_from-at c i zero j = ground arith
clean_from-at c i (suc left) j = ground (arith, clean_from-at (store c i 0x0c00) (i + 1) left j)
