-- ===== src/Vm/Tables.antt =====
-- arch/x86_64/mm/vm.c: the functions that walk all four levels of tables, vm_map_page_unrestricted,
-- vm_map_large_page_unrestricted and vm_init.
--
-- They write to upper tables, which moves what shows below, so the state is physical memory: page
-- frames as arrays of 512 words, and the frame that CR3 names. An access goes through `walk`, the
-- processor's own translation; without one the processor raises a page fault.
use rtv.Base.{
  ℕ, zero, suc, ◌+◌, ◌-◌, ◌*◌, ◌/◌, ◌%◌, ◌^◌, bit_and, bit_or, Bool, not, ◌==◌, if◌then◌else◌,
  Option, none, some,
}
use rtv.Base.Run.{ok, panicked, faulted, Cmd, pure, ◌>>=◌, ◌>>◌, on_part}
use rtv.Word.{u64, shr}
use rtv.Bits.{Words}
use rtv.Spinlock.{Spinlock, spin_lock, spin_unlock}
use rtv.Physical.Defs.{Phys, alloc_phys_frame}
use rtv.Vm.Defs.{
  absent, put_entry, pg_table_entries, kernel_mapping_base, lg_pg_base, lg_pg_limit, large_pg_bits,
  get_paging_struct_vaddr,
}

pub record Machine : Type 0 where
  pub frames : ℕ → Words
  pub root : ℕ
  pub pg_lock : Spinlock
  pub phys : Phys

-- The frame number of an entry, and its page-size bit.
abbrev pub frame_of : ℕ → ℕ
frame_of e = shr e 12 % 2 ^ 40

abbrev pub large : ℕ → Bool
large e = shr e 7 % 2 == 1

-- The index into the table of a level.
abbrev pub index : (level a : ℕ) → ℕ
index level a = shr a (39 - 9 * level) % 2 ^ 9

-- The processor's walk, to the frame that holds address `a`.
unfoldable pub walk : (ℕ → Words) → (root a : ℕ) → Option ℕ
walk frames root a =
    let e0 = frames root (index 0 a) in
    let e1 = frames (frame_of e0) (index 1 a) in
    let e2 = frames (frame_of e1) (index 2 a) in
    let e3 = frames (frame_of e2) (index 3 a) in
    if absent e0
    then none
    else if absent e1
    then none
    else if large e1
    then some (frame_of e1 / 2 ^ 18 * 2 ^ 18 + shr a 12 % 2 ^ 18)
    else if absent e2
    then none
    else if large e2
    then some (frame_of e2 / 2 ^ 9 * 2 ^ 9 + shr a 12 % 2 ^ 9)
    else if absent e3
    then none
    else some (frame_of e3)

unfoldable pub translate : ℕ → Cmd Machine ℕ
translate a s = elim (walk s.frames s.root a) [ none ↦ faulted | some f ↦ ok f s ]

-- An 8-byte access at an aligned address.
unfoldable pub load : ℕ → Cmd Machine ℕ
load a = do f ← translate a; λ s. ok (s.frames f (shr a 3 % 2 ^ 9)) s

unfoldable pub write : ℕ → ℕ → Cmd Machine (Unit {0})
write a w = do
  f ← translate a
  λ s. ok tt (record s { frames = put_entry s.frames f (shr a 3 % 2 ^ 9) w })

unfoldable pub lock_tables : Cmd Machine (Unit {0})
lock_tables = on_part (λ s. s.pg_lock) (λ l s. record s { pg_lock = l }) spin_lock

unfoldable pub unlock_tables : Cmd Machine (Unit {0})
unlock_tables = on_part (λ s. s.pg_lock) (λ l s. record s { pg_lock = l }) spin_unlock

unfoldable pub alloc_table : Cmd Machine ℕ
alloc_table = on_part (λ s. s.phys) (λ p s. record s { phys = p }) alloc_phys_frame

-- The entry of the table of `level` for an address: `entry` of the source.
unfoldable pub entry_index : (level vaddr : ℕ) → ℕ
entry_index zero vaddr = shr (bit_and vaddr 0xFF8000000000) 39
entry_index (suc zero) vaddr = shr (bit_and vaddr 0x7FC0000000) 30
entry_index (suc (suc zero)) vaddr = shr (bit_and vaddr 0x3FE00000) 21
entry_index (suc (suc (suc level))) vaddr = shr (bit_and vaddr 0x1FF000) 12

-- The step that the functions repeat for an upper level: a table that is missing is allocated.
unfoldable pub ensure_table : (level vaddr : ℕ) → Cmd Machine (Unit {0})
ensure_table level vaddr = do
  table ← get_paging_struct_vaddr vaddr level
  old ← load (u64 (table + entry_index level vaddr * 8))
  if not (absent old) then pure tt else (do
    new ← alloc_table
    if new == 0
        then (λ s. panicked)
        else write (u64 (table + entry_index level vaddr * 8)) (bit_or (bit_or new 1) 2))

-- The last step, for the table of `level`.
unfoldable pub fill_entry : (level frame flags vaddr : ℕ) → Cmd Machine (Unit {0})
fill_entry level frame flags vaddr = do
  table ← get_paging_struct_vaddr vaddr level
  old ← load (u64 (table + entry_index level vaddr * 8))
  if not (absent old)
      then (λ s. panicked)
      else write (u64 (table + entry_index level vaddr * 8)) (bit_or frame flags)

unfoldable pub vm_map_page_unrestricted : (frame flags vaddr : ℕ) → Cmd Machine (Unit {0})
vm_map_page_unrestricted frame flags vaddr = do
  lock_tables
  ensure_table 0 vaddr
  ensure_table 1 vaddr
  ensure_table 2 vaddr
  fill_entry 3 frame flags vaddr
  unlock_tables

unfoldable pub vm_map_large_page_unrestricted : (frame flags vaddr : ℕ) → Cmd Machine (Unit {0})
vm_map_large_page_unrestricted frame flags vaddr = do
  lock_tables
  ensure_table 0 vaddr
  ensure_table 1 vaddr
  fill_entry 2 frame flags vaddr
  unlock_tables

-- `for ( ; i < end; i++) table[i] = 0`, with `left` entries to go.
unfoldable pub clear_entries : (left i table : ℕ) → Cmd Machine (Unit {0})
clear_entries zero i table = pure tt
clear_entries (suc left) i table = do
  write (u64 (table + i * 8)) 0
  clear_entries left (i + 1) table

unfoldable pub vm_init : Cmd Machine (Unit {0})
vm_init = do
  ensure_table 0 kernel_mapping_base
  ensure_table 1 kernel_mapping_base
  ensure_table 2 kernel_mapping_base
  pdt ← get_paging_struct_vaddr kernel_mapping_base 2
  pt ← get_paging_struct_vaddr kernel_mapping_base 3
  clear_entries pg_table_entries 0 pt
  clear_entries (shr lg_pg_limit large_pg_bits - shr lg_pg_base large_pg_bits)
      (shr lg_pg_base large_pg_bits) pdt
