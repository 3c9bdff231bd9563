-- ===== src/Kernel/Gdt.antt =====
-- kernel/gdt/gdt.c, gdt.h and the constants of kernel/x86.h: segment descriptors. Addresses of C
-- objects are arguments.
pub mod Entry
pub mod Tests
use rathal_os.Prelude.{ℕ, zero, suc, ◌+◌, ◌-◌, ◌*◌, ◌/◌, ◌%◌, ◌^◌, List, [], ◌∷◌, set, bit_or}

-- `gdt_entry_t`, with the widths of the fields in its assignments below.
pub record GdtEntry : Type 0 where
  pub lim15_0 : ℕ
  pub base15_0 : ℕ
  pub base23_16 : ℕ
  pub type : ℕ
  pub s : ℕ
  pub dpl : ℕ
  pub present : ℕ
  pub lim19_16 : ℕ
  pub avl : ℕ
  pub l : ℕ
  pub db : ℕ
  pub granularity : ℕ
  pub base31_24 : ℕ

unfoldable pub build_entry : ℕ → ℕ → ℕ → ℕ → ℕ → ℕ → ℕ → GdtEntry
build_entry base limit type s db granularity dpl = record {
  lim15_0 = limit % 2 ^ 16;
  base15_0 = base % 2 ^ 16;
  base23_16 = base / 2 ^ 16 % 2 ^ 8;
  type = type % 16;
  s = s % 2;
  dpl = dpl % 4;
  present = 1;
  lim19_16 = limit / 2 ^ 16 % 2 ^ 4;
  avl = 0;
  l = 0;
  db = db % 2;
  granularity = granularity % 2;
  base31_24 = base / 2 ^ 24 % 2 ^ 8;
}

-- Zeroed by `memset`.
abbrev pub gdt_make_null_segment : GdtEntry
gdt_make_null_segment = record {
  lim15_0 = 0;
  base15_0 = 0;
  base23_16 = 0;
  type = 0;
  s = 0;
  dpl = 0;
  present = 0;
  lim19_16 = 0;
  avl = 0;
  l = 0;
  db = 0;
  granularity = 0;
  base31_24 = 0;
}

abbrev pub dpl_user : ℕ
dpl_user = 3

abbrev pub dpl_kernel : ℕ
dpl_kernel = 0

-- TYPE_CODE_EXECREAD, S_CODE_OR_DATA, DB_SEG
unfoldable pub gdt_make_code_segment : ℕ → ℕ → ℕ → GdtEntry
unfolding build_entry
gdt_make_code_segment base limit dpl = build_entry base limit 11 1 1 1 dpl

-- TYPE_DATA_READWRITE
unfoldable pub gdt_make_data_segment : ℕ → ℕ → ℕ → GdtEntry
unfolding build_entry
gdt_make_data_segment base limit dpl = build_entry base limit 3 1 1 1 dpl

-- `sizeof(tss_t)` (kernel/task/task.h, with IOMAP 0).
abbrev pub tss_size : ℕ
tss_size = 104

-- TYPE_TSS, S_SYSTEM, DB_SYS
unfoldable pub gdt_make_tss : ℕ → ℕ → GdtEntry
unfolding build_entry
gdt_make_tss tss dpl = build_entry tss (tss_size - 1) 9 0 0 0 dpl

-- TYPE_LDT
unfoldable pub gdt_make_ldt : ℕ → ℕ → ℕ → GdtEntry
unfolding build_entry
gdt_make_ldt base limit dpl = build_entry base limit 2 0 0 0 dpl

-- `GDT_INDEX_TO_SELECTOR`, and `entry - gdt_table` for entry `index`.
abbrev pub gdt_entry_to_selector : ℕ → ℕ
gdt_entry_to_selector index = index * 2 ^ 3

-- The part of `gdt_init` before `task_setup`: entries 0 to 3 of the table, the last for the TSS at
-- the address given.
unfoldable pub gdt_init : ℕ → List GdtEntry → List GdtEntry
unfolding gdt_make_code_segment gdt_make_data_segment gdt_make_tss
gdt_init initial_tss table =
    set
      (set (set (set table 0 gdt_make_null_segment) 1 (gdt_make_code_segment 0 0xfffff dpl_kernel))
        2 (gdt_make_data_segment 0 0xfffff dpl_kernel))
      3 (gdt_make_tss initial_tss dpl_kernel)

-- How `syscall_handler` (kernel/syscalls/syscall.c) puts the base together again.
unfoldable pub descriptor_base : GdtEntry → ℕ
descriptor_base e =
    bit_or (bit_or (e.base31_24 * 2 ^ 24 % 2 ^ 32) (e.base23_16 * 2 ^ 16)) e.base15_0
