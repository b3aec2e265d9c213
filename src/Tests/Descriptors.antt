-- ===== src/Tests/Descriptors.antt =====
-- The GDT.
use rtv.Base.{◌⊎◌, refl, arith, ◌==◌, ltb, if◌then◌else◌}
use rtv.Segments.{Gdt, alloc_tss_desc}
use rtv.Segments.Tss.{Placed, NoPair, alloc_tss_desc-Placed}

-- The null, code and data descriptors are there.
abbrev at_boot : Gdt
at_boot = record {
  gdt = λ i. if i == 0 then 0 else if ltb i 3 then 0x00AF9A000000FFFF else 0;
  gdt_lock = record { next = 0; owner = 0 };
}

alloc_tss_desc-Placed_example :
    Placed at_boot 3 0xFFFF800012345678 (alloc_tss_desc 0xFFFF800012345678 at_boot)
    ⊎ NoPair at_boot 3 (alloc_tss_desc 0xFFFF800012345678 at_boot)
alloc_tss_desc-Placed_example = alloc_tss_desc-Placed at_boot 0xFFFF800012345678 (omega arith) refl
