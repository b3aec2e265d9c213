-- ===== src/Vm/Skipped.antt =====
-- A run that vm_map_pages passes over: after a run that is too short the loop leaves out the entry
-- behind the one that ended it.
use rtv.Base.{ℕ, ◌+◌, ◌-◌, ◌^◌, ◌≤◌, ◌<◌, ◌≡◌, inl, inr, ◌∙◌, true, false, arith, ltb}
use rtv.Base.Run.{Run, ok}
use rtv.Word.{u64, sub64}
use rtv.Physical.Defs.{pg_size}
use rtv.Vm.Defs.{Paging, pg_table_entries, get_paging_struct_vaddr}
use rtv.Vm.Pages.{count_absent, vm_map_pages}
use rtv.Vm.State.{IsIdle, inside, outside, absent_at, lock_paging_lem}
use rtv.Vm.Single.{page_table}
use rtv.Vm.Unmap.{page_address}
use rtv.Vm.Runs.Parts.{Counted, count_absent-Counted}
use rtv.Vm.Runs.{RunMapped, map_run-short, map_run-RunMapped}

-- Entry 0 is absent, entry 1 is present, `num` absent entries follow, and the others are present.
pub record IsPassed (s : Paging) (num : ℕ) : Type 0 where
  pub lone : absent_at s.entries page_table 0 ≡ true
  pub wall : absent_at s.entries page_table 1 ≡ false
  pub run : (k : ℕ) → k < num → absent_at s.entries page_table (2 + k) ≡ true
  pub rest : (m : ℕ) → num + 2 ≤ m → m < 512 → absent_at s.entries page_table m ≡ false

module _ {s : Paging} (idle : IsIdle s) (frame num flags : ℕ) where
  lone_counted :
      IsPassed s num
      → 2 ≤ num
      → num ≤ 510
      → count_absent (num - 1) 1 1 page_table (inside s s.entries s.invalidated)
        ≡ ok (1, 1) (inside s s.entries s.invalidated)
  lone_counted passed two room = rw none at c.returns
    where
      c :
          Counted
            (inside s s.entries s.invalidated)
            page_table
            (num - 1)
            1
            1
            (count_absent (num - 1) 1 1 page_table (inside s s.entries s.invalidated))
      c =
          count_absent-Counted (inside s s.entries s.invalidated) page_table (num - 1) 1 1
            (omega arith)

      none : c.run ≡ 0
      none = let w = passed.wall in ground (arith, c.absent 0)

  -- Between calls, for 2 to 510 pages: where entry 0 of the 4 KB window is absent, entry 1 present, a
  -- run of `num` absent entries begins at entry 2 and all others are present, `vm_map_pages` returns 0
  -- and maps nothing, although the run would do.
  pub vm_map_pages-passes :
      2 ≤ num
      → num ≤ 510
      → frame < 2 ^ 64
      → IsPassed s num
      → vm_map_pages frame num flags s ≡ ok 0 (outside s s.entries s.invalidated)
  unfolding vm_map_pages get_paging_struct_vaddr
  vm_map_pages-passes two room fits passed =
      rw (some, lock_paging_lem idle, limit)
        (map_run-short s page_table num frame flags pg_size (513 - num) page_address 512 0
            (omega arith) (omega arith) passed.lone 1 1 (lone_counted passed two room)
            (ground arith)
          ∙ from_three (
              map_run-RunMapped s page_table num frame flags pg_size (513 - num) page_address
                (omega arith) fits (omega arith) 512 3 (omega arith)))
    where
      some : ltb num 1 ≡ false
      some = ground arith

      limit : u64 (sub64 pg_table_entries num + 1) ≡ 513 - num
      limit = omega arith

      from_three :
          {r : Run Paging ℕ}
          → RunMapped s page_table 3 (513 - num + num - 1) num frame flags pg_size page_address r
          → r ≡ ok 0 (outside s s.entries s.invalidated)
      from_three (inr x) = x.returns
      from_three (inl f) =
          let lo = f.from in
          let hi = f.below in
          absurd (
            cc (
              f.were_absent (num - 1) (omega arith),
              passed.rest (f.index + (num - 1)) (omega arith) (omega arith),
            ))
