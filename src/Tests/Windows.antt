-- ===== src/Tests/Windows.antt =====
-- The windows of kernel virtual memory.
use rtv.Base.{ℕ, ◌≡◌, refl, bit_or, arith, ltb, ◌==◌, if◌then◌else◌, ◌||◌, []}
use rtv.Base.Run.{ok, and_then}
use rtv.Physical.Defs.{pg_size}
use rtv.Vm.Defs.{Paging, kernel_mapping_base, absent, get_paging_struct_vaddr}
use rtv.Vm.Pages.{vm_map_page, vm_map_pages, vm_unmap_page, vm_unmap_pages}
use rtv.Vm.State.{IsIdle, outside}
use rtv.Vm.Single.{page_table, FirstMapped, vm_map_page-FirstMapped}
use rtv.Vm.Runs.{RunMapped, HeadRun, vm_map_pages-RunMapped}
use rtv.Vm.Unmap.{page_address, Unchanged, vm_unmap_page-vm_map_page}
use rtv.Vm.UnmapRuns.{vm_unmap_pages-vm_map_pages}
use rtv.Vm.Skipped.{IsPassed, vm_map_pages-passes}

-- The first three entries of every table are present.
abbrev booted : Paging
booted = record {
  entries = λ u i. if ltb i 3 then 3 else 0;
  pg_lock = record { next = 7; owner = 7 };
  invalidated = [];
}

booted-IsIdle : IsIdle booted
booted-IsIdle = record { lock = omega arith; unlocked = refl }

-- Entry 0 and the entries 2 and 3 are absent.
abbrev broken : Paging
broken = record booted { entries = λ u i. if i == 0 || (i == 2 || i == 3) then 0 else 3 }

broken-IsIdle : IsIdle broken
broken-IsIdle = record { lock = omega arith; unlocked = refl }

-- The table of the 4 KB window shows at this address.
window_table : get_paging_struct_vaddr kernel_mapping_base 3 booted ≡ ok page_table booted
unfolding get_paging_struct_vaddr
window_table = refl

vm_map_page-FirstMapped_example :
    FirstMapped booted page_table 0 512 (bit_or 0x5000 3) page_address (vm_map_page 0x5000 3 booted)
vm_map_page-FirstMapped_example = vm_map_page-FirstMapped booted-IsIdle 0x5000 3

vm_map_pages-RunMapped_example :
    RunMapped booted page_table 0 512 3 0x5000 3 pg_size page_address
      (vm_map_pages 0x5000 3 3 booted)
vm_map_pages-RunMapped_example =
    vm_map_pages-RunMapped booted-IsIdle 0x5000 3 3 (omega arith) (omega arith) (omega arith)

vm_unmap_page-vm_map_page_example :
    (s' : Paging) × (and_then (vm_map_page 0x5000 3 booted) vm_unmap_page ≡ ok 0x5000 s')
    × Unchanged booted s'
unfolding absent
vm_unmap_page-vm_map_page_example =
    vm_unmap_page-vm_map_page booted booted-IsIdle 0x5000 3 3 (omega arith) refl (omega arith) refl
      (omega arith)

booted-HeadRun : HeadRun booted page_table 0 4 3
unfolding absent
booted-HeadRun = record {
  from = omega arith;
  present = λ k _ lt. ground arith;
  free = λ k lt. ground arith;
}

vm_unmap_pages-vm_map_pages_example :
    (i : ℕ) × (s' : Paging) × (s'' : Paging) × (vm_map_pages 0x5000 4 3 booted
      ≡ ok (page_address i) s')
    × (vm_unmap_pages (page_address i) 4 s' ≡ ok 0x5000 s'')
    × Unchanged booted s''
vm_unmap_pages-vm_map_pages_example =
    vm_unmap_pages-vm_map_pages booted booted-IsIdle 0x5000 4 3 3 (omega arith) (omega arith)
      booted-HeadRun (omega arith) (omega arith) refl (omega arith)

broken-IsPassed : IsPassed broken 2
unfolding absent
broken-IsPassed = record {
  lone = refl;
  wall = refl;
  run = λ k lt. ground arith;
  rest = λ m le lt. ground arith;
}

vm_map_pages-passes_example :
    vm_map_pages 0x5000 2 3 broken ≡ ok 0 (outside broken broken.entries [])
vm_map_pages-passes_example =
    vm_map_pages-passes broken-IsIdle 0x5000 2 3 (omega arith) (omega arith) (omega arith)
      broken-IsPassed
