-- ===== src/Kernel/Gdt/Entry.antt =====
-- The fields of a descriptor, put together again.
use rathal_os.Prelude.{
  ℕ, ◌+◌, ◌*◌, ◌/◌, ◌%◌, ◌^◌, ◌<◌, ◌≡◌, refl, arith, bit_or, bit_or_fields, ap, ◌∙◌,
}
use rathal_os.Kernel.Gdt.{build_entry, descriptor_base}

-- The fields of a base, put together by `|`.
pub or_base :
    (a b c : ℕ)
    → a < 256
    → b < 256
    → c < 2 ^ 16
    → bit_or (bit_or (a * 2 ^ 24 % 2 ^ 32) (b * 2 ^ 16)) c ≡ a * 2 ^ 24 + b * 2 ^ 16 + c
or_base a b c ha hb hc =
    ap (λ (w : ℕ). bit_or (bit_or w (b * 2 ^ 16)) c) {x = a * 2 ^ 24 % 2 ^ 32} {y = a * 2 ^ 24}
      (omega arith)
    ∙ ap (λ (w : ℕ). bit_or w c) (bit_or_fields 24 a (b * 2 ^ 16) (omega arith) ∙ regroup)
    ∙ bit_or_fields 16 (a * 256 + b) c hc
    ∙ omega arith
  where
    regroup : a * 2 ^ 24 + b * 2 ^ 16 ≡ (a * 256 + b) * 2 ^ 16
    regroup = omega arith

-- A descriptor built from a 32-bit base, a 20-bit limit and a privilege level below 4 gives them back:
-- the base as the system call handler computes it, the limit from its two fields; it is present.
pub build_entry_lem :
    (base limit type s db granularity dpl : ℕ)
    → base < 2 ^ 32
    → limit < 2 ^ 20
    → dpl < 4
    → let e = build_entry base limit type s db granularity dpl in
      (descriptor_base e ≡ base)
      × (e.lim19_16 * 2 ^ 16 + e.lim15_0 ≡ limit)
      × (e.present ≡ 1)
      × (e.dpl ≡ dpl)
unfolding build_entry descriptor_base
build_entry_lem base limit type s db granularity dpl hb hl hd = (
  or_base (base / 2 ^ 24 % 2 ^ 8) (base / 2 ^ 16 % 2 ^ 8) (base % 2 ^ 16) (omega arith)
        (omega arith) (omega arith)
      ∙ omega arith,
  omega arith,
  refl,
  omega arith,
)
