-- ===== src/Kernel/Gdt/Tests.antt =====
-- Descriptors at concrete bases.
use rathal_os.Prelude.{◌≡◌, refl, replicate, get_or}
use rathal_os.Kernel.Gdt.{
  build_entry, gdt_make_tss, gdt_make_null_segment, gdt_init, descriptor_base,
}

-- The TSS at 0x12345678 is entry 3 of the table.
tss_is_entry :
    descriptor_base
      (get_or (gdt_init 0x12345678 (replicate 24 gdt_make_null_segment)) 3 gdt_make_null_segment)
    ≡ 0x12345678
unfolding gdt_init gdt_make_tss build_entry descriptor_base
tss_is_entry = refl
