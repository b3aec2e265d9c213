-- ===== src/Vm/Defs.antt =====
-- arch/x86_64/mm/vm.c and arch/x86_64/include/vm.h: the paging structures and where they are found.
--
-- The last entry of the top table points to that table itself, so every table shows at a virtual
-- address, and the code names a table by that address. A table has 512 entries; an index beyond them
-- is an access outside the table. invlpg keeps no state of its own: the model records its operands.
use rtv.Base.{
  ℕ, zero, suc, ◌+◌, ◌-◌, ◌/◌, ◌^◌, bit_and, bit_or, Bool, List, ◌∷◌, ◌==◌, ltb, if◌then◌else◌,
}
use rtv.Base.Run.{ok, panicked, faulted, Cmd, pure, on_part}
use rtv.Word.{shr, not64}
use rtv.Bits.{Words, store}
use rtv.Spinlock.{Spinlock, spin_lock, spin_unlock}
use rtv.Physical.Defs.{pg_bits, pg_size}

-- PG_MASK and PGT_MASK
abbrev pub pg_mask : ℕ
pg_mask = not64 (pg_size - 1)

abbrev pub pg_table_entries : ℕ
pg_table_entries = pg_size / 8

abbrev pub pg_table_mask : ℕ
pg_table_mask = 2 ^ (pg_bits - 3) - 1

abbrev pub large_pg_bits : ℕ
large_pg_bits = 21

abbrev pub large_pg_size : ℕ
large_pg_size = 2 ^ large_pg_bits

abbrev pub large_pg_mask : ℕ
large_pg_mask = not64 (large_pg_size - 1)

abbrev pub pgt_p : ℕ
pgt_p = 1

-- MALLOC_END of include/mm/malloc.h
abbrev pub kernel_mapping_base : ℕ
kernel_mapping_base = 0x600000 + 2 ^ 22

abbrev pub lg_pg_base : ℕ
lg_pg_base = kernel_mapping_base + 0x200000

abbrev pub lg_pg_limit : ℕ
lg_pg_limit = 0x2000000

-- The entries of a table by its address, and the addresses that were invalidated, the last one first.
pub record Paging : Type 0 where
  pub entries : ℕ → Words
  pub pg_lock : Spinlock
  pub invalidated : List ℕ

-- `spin_lock(&pg_lock)` and `spin_unlock(&pg_lock)`
unfoldable pub lock_paging : Cmd Paging (Unit {0})
lock_paging = on_part (λ s. s.pg_lock) (λ l s. record s { pg_lock = l }) spin_lock

unfoldable pub unlock_paging : Cmd Paging (Unit {0})
unlock_paging = on_part (λ s. s.pg_lock) (λ l s. record s { pg_lock = l }) spin_unlock

-- The address of the table of `level` that translates `addr`, the top table being level 0.
unfoldable pub get_paging_struct_vaddr : {S : Type 0} → ℕ → ℕ → Cmd S ℕ
get_paging_struct_vaddr bits zero = pure 0xFFFFFFFFFFFFF000
get_paging_struct_vaddr bits (suc zero) =
    pure (bit_and (bit_or (shr bits 27) 0xFFFFFFFFFFE00000) pg_mask)
get_paging_struct_vaddr bits (suc (suc zero)) =
    pure (bit_and (bit_or (shr bits 18) 0xFFFFFFFFC0000000) pg_mask)
get_paging_struct_vaddr bits (suc (suc (suc zero))) =
    pure (bit_and (bit_or (shr bits 9) 0xFFFFFF8000000000) pg_mask)
get_paging_struct_vaddr bits (suc (suc (suc (suc level)))) = λ _. panicked

-- `!(entry & PGT_P)`
unfoldable pub absent : ℕ → Bool
absent entry = bit_and entry pgt_p == 0

-- `table[i] = w`
unfoldable pub put_entry : (ℕ → Words) → ℕ → ℕ → ℕ → (ℕ → Words)
put_entry entries table i w u = if u == table then store (entries u) i w else entries u

unfoldable pub read_entry : ℕ → ℕ → Cmd Paging ℕ
read_entry table i s = if ltb i pg_table_entries then ok (s.entries table i) s else faulted

unfoldable pub write_entry : ℕ → ℕ → ℕ → Cmd Paging (Unit {0})
write_entry table i w s =
    if ltb i pg_table_entries
    then ok tt (record s { entries = put_entry s.entries table i w })
    else faulted

unfoldable pub invalidate_page : ℕ → Cmd Paging (Unit {0})
invalidate_page va s = ok tt (record s { invalidated = va ∷ s.invalidated })
