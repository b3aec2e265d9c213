-- ===== src/Vm/Single.antt =====
-- vm_map_page and vm_map_large_page: one entry.
use rtv.Base.{
  ℕ, zero, suc, ◌+◌, ◌≤◌, ◌<◌, ◌≡◌, ◌⊎◌, inl, inr, true, false, bit_or, arith, Bool-cases,
}
use rtv.Base.Run.{Run, ok}
use rtv.Word.{u64, shl64}
use rtv.Physical.Defs.{pg_bits}
use rtv.Vm.Defs.{
  Paging, pg_table_entries, kernel_mapping_base, large_pg_bits, put_entry, get_paging_struct_vaddr,
}
use rtv.Vm.Pages.{map_first, vm_map_page, vm_map_large_page}
use rtv.Vm.State.{
  IsIdle, inside, outside, absent_at, lock_paging_lem, unlock_paging_lem, read_entry_lem,
  write_entry_lem,
}

-- The first entry of `[lo, hi)` that was absent was set to `entry`, and nothing else changed.
pub record Mapped (s : Paging) (table lo hi entry : ℕ) (va : ℕ → ℕ) (r : Run Paging ℕ)
    : Type 0 where
  pub index : ℕ
  pub from : lo ≤ index
  pub below : index < hi
  pub was_absent : absent_at s.entries table index ≡ true
  pub first : (m : ℕ) → lo ≤ m → m < index → absent_at s.entries table m ≡ false
  pub returns : r ≡ ok (va index) (outside s (put_entry s.entries table index entry) s.invalidated)

-- No entry of `[lo, hi)` is absent, and no entry changed.
pub record Full (s : Paging) (table lo hi : ℕ) (r : Run Paging ℕ) : Type 0 where
  pub none_absent : (m : ℕ) → lo ≤ m → m < hi → absent_at s.entries table m ≡ false
  pub returns : r ≡ ok 0 (outside s s.entries s.invalidated)

abbrev pub FirstMapped : Paging → ℕ → ℕ → ℕ → ℕ → (ℕ → ℕ) → Run Paging ℕ → Type 0
FirstMapped s table lo hi entry va r = Mapped s table lo hi entry va r ⊎ Full s table lo hi r

module _ (s : Paging) (table entry : ℕ) (va : ℕ → ℕ) where
  abbrev here : Paging
  here = inside s s.entries s.invalidated

  FirstMapped-skip :
      (i hi : ℕ) (r : Run Paging ℕ)
      → absent_at s.entries table i ≡ false
      → FirstMapped s table (i + 1) hi entry va r
      → FirstMapped s table i hi entry va r
  FirstMapped-skip i hi r e (inl f) = inl (record {
    index = f.index;
    from = let h = f.from in omega arith;
    below = f.below;
    was_absent = f.was_absent;
    first = λ m lo lt. ground (arith, f.first m);
    returns = f.returns;
  })
  FirstMapped-skip i hi r e (inr x) =
      inr (record { none_absent = λ m lo lt. ground (arith, x.none_absent m); returns = x.returns })

  module _ (left i : ℕ) (room : i < pg_table_entries) where
    map_first-next :
        absent_at s.entries table i ≡ false
        → map_first (suc left) i table entry va here ≡ map_first left (i + 1) table entry va here
    unfolding map_first
    map_first-next e = rw (read_entry_lem here table i room, e)

    map_first-stops :
        absent_at s.entries table i ≡ true
        → map_first (suc left) i table entry va here
          ≡ ok (va i) (outside s (put_entry s.entries table i entry) s.invalidated)
    unfolding map_first
    map_first-stops e = rw (
      read_entry_lem here table i room,
      e,
      write_entry_lem here table i entry room,
      unlock_paging_lem s,
    )

  map_first-FirstMapped :
      (left i : ℕ)
      → i + left ≤ pg_table_entries
      → FirstMapped s table i (i + left) entry va (map_first left i table entry va here)
  map_first-FirstMapped zero i room = inr (record {
    none_absent = λ m lo lt. absurd (omega arith);
    returns = unfold map_first in rw (unlock_paging_lem s);
  })
  map_first-FirstMapped (suc left) i room = elim (Bool-cases (absent_at s.entries table i)) [
    | inl e ↦ inl (record {
      index = i;
      from = omega arith;
      below = omega arith;
      was_absent = e;
      first = λ m lo lt. absurd (omega arith);
      returns = map_first-stops left i (omega arith) e;
    })
    | inr e ↦ rw (map_first-next left i (omega arith) e) (
        FirstMapped-skip i _ _ e
          (rw next_entry at (map_first-FirstMapped left (i + 1) (omega arith))))
  ]
    where
      next_entry : i + 1 + left ≡ i + suc left
      next_entry = omega arith

-- The tables of the two windows.
abbrev pub page_table : ℕ
page_table = 0xFFFFFF8000005000

abbrev pub page_directory : ℕ
page_directory = 0xFFFFFFFFC0000000

module _ {s : Paging} (idle : IsIdle s) where
  -- Between calls: `vm_map_page` sets the first entry that is not present of the table of the 4 KB
  -- window to `frame | flags`, changes no other entry and returns the address of the page that the
  -- entry maps, or it returns 0 with all entries unchanged where all 512 are present; the lock is
  -- released.
  pub vm_map_page-FirstMapped :
      (frame flags : ℕ)
      → FirstMapped s page_table 0 512
          (bit_or frame flags)
          (λ i. u64 (kernel_mapping_base + shl64 i pg_bits))
          (vm_map_page frame flags s)
  unfolding vm_map_page get_paging_struct_vaddr
  vm_map_page-FirstMapped frame flags = rw (lock_paging_lem idle) (
      map_first-FirstMapped s page_table (bit_or frame flags)
        (λ i. u64 (kernel_mapping_base + shl64 i pg_bits)) 512 0 (omega arith))

  -- Between calls: `vm_map_large_page` does the same with the entries 6 to 15 of the table of the 2 MB
  -- window, which map the addresses from 12 MB to 32 MB.
  pub vm_map_large_page-FirstMapped :
      (frame flags : ℕ)
      → FirstMapped s page_directory 6 16
          (bit_or frame flags)
          (λ i. shl64 i large_pg_bits)
          (vm_map_large_page frame flags s)
  unfolding vm_map_large_page get_paging_struct_vaddr
  vm_map_large_page-FirstMapped frame flags = rw (lock_paging_lem idle) (
      map_first-FirstMapped s page_directory (bit_or frame flags) (λ i. shl64 i large_pg_bits) 10 6
        (omega arith))
