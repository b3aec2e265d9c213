-- ===== src/Vm/Pages.antt =====
-- arch/x86_64/mm/vm.c: mapping and unmapping in the two windows. The functions for 2 MB pages have the
-- loops of those for 4 KB pages, with other bounds, so each loop stands once.
use rtv.Base.{ℕ, zero, suc, ◌+◌, ◌-◌, bit_and, bit_or, ◌==◌, ltb, if◌then◌else◌}
use rtv.Base.Run.{out_of_fuel, Cmd, pure, ◌>>=◌, ◌>>◌}
use rtv.Word.{u64, shr, shl64, sub64}
use rtv.Physical.Defs.{pg_bits, pg_size}
use rtv.Vm.Defs.{
  Paging, pg_mask, pg_table_entries, pg_table_mask, large_pg_bits, large_pg_size, large_pg_mask,
  kernel_mapping_base, lg_pg_base, lg_pg_limit, lock_paging, unlock_paging, get_paging_struct_vaddr,
  absent, read_entry, write_entry, invalidate_page,
}

-- The loop of vm_map_page and of vm_map_large_page, with `left` entries to go; `va` is the address
-- that entry `i` maps.
unfoldable pub map_first : (left i table entry : ℕ) → (ℕ → ℕ) → Cmd Paging ℕ
map_first zero i table entry va = do unlock_paging; pure 0
map_first (suc left) i table entry va = do
  old ← read_entry table i
  if absent old
      then (do write_entry table i entry; unlock_paging; pure (va i))
      else map_first left (i + 1) table entry va

unfoldable pub vm_map_page : ℕ → ℕ → Cmd Paging ℕ
vm_map_page frame flags = do
  lock_paging
  table ← get_paging_struct_vaddr kernel_mapping_base 3
  map_first pg_table_entries 0 table (bit_or frame flags)
      (λ i. u64 (kernel_mapping_base + shl64 i pg_bits))

unfoldable pub vm_map_large_page : ℕ → ℕ → Cmd Paging ℕ
vm_map_large_page frame flags = do
  lock_paging
  table ← get_paging_struct_vaddr lg_pg_base 2
  map_first (shr lg_pg_limit large_pg_bits - shr lg_pg_base large_pg_bits)
      (shr lg_pg_base large_pg_bits) table (bit_or frame flags) (λ i. shl64 i large_pg_bits)

-- The first inner loop of vm_map_pages, with `left` rounds to go: where it stops, and the count.
unfoldable pub count_absent : (left j count table : ℕ) → Cmd Paging (ℕ × ℕ)
count_absent zero j count table = pure (j, count)
count_absent (suc left) j count table = do
  entry ← read_entry table j
  if absent entry then count_absent left (j + 1) (count + 1) table else pure (j, count)

-- The second one, which fills the run.
unfoldable pub fill_entries : (left j table frame flags size : ℕ) → Cmd Paging (Unit {0})
fill_entries zero j table frame flags size = pure tt
fill_entries (suc left) j table frame flags size = do
  write_entry table j (bit_or frame flags)
  fill_entries left (j + 1) table (u64 (frame + size)) flags size

-- The outer loop from entry `i` on. After a run that is too short it goes on with `j + 2`: the body
-- sets `i = j + 1`, and the loop's own `i++` follows.
unfoldable pub map_run : (fuel i limit num table frame flags size : ℕ) → (ℕ → ℕ) → Cmd Paging ℕ
map_run zero i limit num table frame flags size va = λ _. out_of_fuel
map_run (suc fuel) i limit num table frame flags size va = λ s.
    (if ltb i limit
        then (do
          entry ← read_entry table i
          if absent entry
              then (do
                (j, count) ← count_absent (num - 1) (i + 1) 1 table
                if count == num
                    then (do fill_entries num i table frame flags size; unlock_paging; pure (va i))
                    else map_run fuel (j + 1 + 1) limit num table frame flags size va)
              else map_run fuel (i + 1) limit num table frame flags size va)
        else (do unlock_paging; pure 0))
      s

unfoldable pub vm_map_pages : ℕ → ℕ → ℕ → Cmd Paging ℕ
vm_map_pages frame num flags = if ltb num 1 then pure 0 else (do
  lock_paging
  table ← get_paging_struct_vaddr kernel_mapping_base 3
  map_run (pg_table_entries + 1) 0 (u64 (sub64 pg_table_entries num + 1)) num table frame flags
      pg_size (λ i. u64 (kernel_mapping_base + shl64 i pg_bits)))

unfoldable pub vm_map_large_pages : ℕ → ℕ → ℕ → Cmd Paging ℕ
vm_map_large_pages frame num flags = if ltb num 1 then pure 0 else (do
  lock_paging
  table ← get_paging_struct_vaddr lg_pg_base 2
  map_run (pg_table_entries + 1) (shr lg_pg_base large_pg_bits)
      (u64 (sub64 (shr lg_pg_limit large_pg_bits) num + 1)) num table frame flags large_pg_size
      (λ i. shl64 i large_pg_bits))

-- What vm_unmap_page and vm_unmap_large_page share.
unfoldable pub unmap_entry : (table i va mask : ℕ) → Cmd Paging ℕ
unmap_entry table i va mask = do
  entry ← read_entry table i
  write_entry table i 0
  invalidate_page va
  unlock_paging
  pure (bit_and entry mask)

unfoldable pub vm_unmap_page : ℕ → Cmd Paging ℕ
vm_unmap_page va = do
  lock_paging
  table ← get_paging_struct_vaddr va 3
  unmap_entry table (bit_and (shr va pg_bits) pg_table_mask) va pg_mask

unfoldable pub vm_unmap_large_page : ℕ → Cmd Paging ℕ
vm_unmap_large_page va = do
  lock_paging
  table ← get_paging_struct_vaddr va 2
  unmap_entry table (bit_and (shr va large_pg_bits) pg_table_mask) va large_pg_mask

-- The loop of vm_unmap_pages and of vm_unmap_large_pages, which returns `frame`.
unfoldable pub unmap_entries : (num i table pg frame mask size : ℕ) → Cmd Paging ℕ
unmap_entries zero i table pg frame mask size = pure frame
unmap_entries (suc num) i table pg frame mask size = do
  found ←
      (if frame == 0
        then (do entry ← read_entry table i; pure (bit_and entry mask))
        else pure frame)
  write_entry table i 0
  invalidate_page pg
  unmap_entries num (i + 1) table (u64 (pg + size)) found mask size

unfoldable pub vm_unmap_pages : ℕ → ℕ → Cmd Paging ℕ
vm_unmap_pages va num = do
  lock_paging
  table ← get_paging_struct_vaddr va 3
  frame ← unmap_entries num (bit_and (shr va pg_bits) pg_table_mask) table va 0 pg_mask pg_size
  unlock_paging
  pure frame

unfoldable pub vm_unmap_large_pages : ℕ → ℕ → Cmd Paging ℕ
vm_unmap_large_pages va num = do
  lock_paging
  table ← get_paging_struct_vaddr va 2
  frame ←
      unmap_entries num (bit_and (shr va large_pg_bits) pg_table_mask) table va 0 large_pg_mask
        large_pg_size
  unlock_paging
  pure frame
