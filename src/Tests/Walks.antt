-- ===== src/Tests/Walks.antt =====
-- The processor's walk through the page tables.
use rtv.Base.{◌+◌, ◌*◌, ◌≡◌, ◌⊎◌, refl, true, false, ◌&&◌, ◌==◌, ltb, leb, if◌then◌else◌, arith}
use rtv.Base.Run.{ok, panicked}
use rtv.Physical.Defs.{initial}
use rtv.Vm.Defs.{absent}
use rtv.Vm.Tables.{Machine, vm_map_page_unrestricted}
use rtv.Vm.Unrestricted.{HasTables, MappedAt, old_entry, vm_map_page_unrestricted-MappedAt}

-- The top table is frame 1; its first entry leads to frames 2, 3 and 4, the last of which is empty.
abbrev mapped_low : Machine
mapped_low = record {
  frames = λ f i.
      if f == 1 && i == 511
      then 0x1003
      else if (leb 1 f && ltb f 4) && i == 0
      then (f + 1) * 4096 + 3
      else 0;
  root = 1;
  pg_lock = record { next = 2; owner = 2 };
  phys = initial;
}

mapped_low-HasTables : HasTables mapped_low 0x5000
unfolding absent
mapped_low-HasTables = record {
  self = ((refl, refl), refl);
  top = (refl, refl);
  pdpt = (refl, refl);
  pdt = (refl, refl);
}

vm_map_page_unrestricted-MappedAt_example :
    ((absent (old_entry mapped_low 0x5000) ≡ true)
      × ((s' : Machine) × (vm_map_page_unrestricted 0x7000 3 0x5000 mapped_low ≡ ok tt s')
          × MappedAt mapped_low 0x5000 0x7000 s'))
    ⊎ ((absent (old_entry mapped_low 0x5000) ≡ false)
        × (vm_map_page_unrestricted 0x7000 3 0x5000 mapped_low ≡ panicked))
vm_map_page_unrestricted-MappedAt_example =
    vm_map_page_unrestricted-MappedAt mapped_low 0x5000 0x7000 3 (omega arith) mapped_low-HasTables
      refl (omega arith) refl refl
