-- ===== src/Vm/Runs.antt =====
-- vm_map_pages and vm_map_large_pages: a run of entries.
pub mod Parts
use native.Mathlib.Nat.{add-zero}
use native.Mathlib.Decide.{dec_lt, ℕ_discrete}
use rtv.Base.{
  ℕ, zero, suc, ◌+◌, ◌-◌, ◌*◌, ◌/◌, ◌%◌, ◌^◌, ◌≤◌, ◌<◌, ◌≡◌, ◌⊎◌, inl, inr, refl, ◌∙◌, Bool, true,
  false, bit_or, arith, Bool-cases, ltb, ◌==◌,
}
use rtv.Base.Run.{Run, ok}
use rtv.Word.{u64, shl64, sub64}
use rtv.Bits.{Words}
use rtv.Physical.Defs.{pg_bits, pg_size}
use rtv.Vm.Defs.{
  Paging, pg_table_entries, kernel_mapping_base, large_pg_bits, large_pg_size,
  get_paging_struct_vaddr,
}
use rtv.Vm.Pages.{count_absent, fill_entries, map_run, vm_map_pages, vm_map_large_pages}
use rtv.Vm.State.{
  IsIdle, inside, outside, absent_at, lock_paging_lem, unlock_paging_lem, read_entry_lem,
}
use rtv.Vm.Single.{page_table, page_directory}
use rtv.Vm.Runs.Parts.{Counted, count_absent-Counted, Filled, fill_entries-Filled}

-- A run of `num` absent entries of `[lo, hi)` was filled, and nothing else changed.
pub record MappedRun (s : Paging) (table lo hi num frame flags size : ℕ) (va : ℕ → ℕ)
    (r : Run Paging ℕ) : Type 0 where
  pub index : ℕ
  pub entries : ℕ → Words
  pub from : lo ≤ index
  pub below : index + num ≤ hi
  pub were_absent : (k : ℕ) → k < num → absent_at s.entries table (index + k) ≡ true
  pub filled : Filled entries s.entries table num index frame flags size
  pub returns : r ≡ ok (va index) (outside s entries s.invalidated)

-- The entries `[m, m + num)` are absent and those from `lo` to `m` are present.
pub record HeadRun (s : Paging) (table lo num m : ℕ) : Type 0 where
  pub from : lo ≤ m
  pub present : (k : ℕ) → lo ≤ k → k < m → absent_at s.entries table k ≡ false
  pub free : (k : ℕ) → k < num → absent_at s.entries table (m + k) ≡ true

-- No entry changed, and the first absent entry of `[lo, hi)` does not begin a run of `num`.
pub record NoRun (s : Paging) (table lo hi num : ℕ) (r : Run Paging ℕ) : Type 0 where
  pub no_head : (m : ℕ) → m + num ≤ hi → HeadRun s table lo num m → ⊥
  pub returns : r ≡ ok 0 (outside s s.entries s.invalidated)

abbrev pub RunMapped : Paging → ℕ → ℕ → ℕ → ℕ → ℕ → ℕ → ℕ → (ℕ → ℕ) → Run Paging ℕ → Type 0
RunMapped s table lo hi num frame flags size va r =
    MappedRun s table lo hi num frame flags size va r ⊎ NoRun s table lo hi num r

module _ (s : Paging) (table num frame flags size limit : ℕ) (va : ℕ → ℕ) where
  abbrev pub here : Paging
  here = inside s s.entries s.invalidated

  abbrev pub Result : ℕ → Run Paging ℕ → Type 0
  Result lo r = RunMapped s table lo (limit + num - 1) num frame flags size va r

  module _ (fuel i : ℕ) where
    map_run-end :
        limit ≤ i
        → map_run (suc fuel) i limit num table frame flags size va here
          ≡ ok 0 (outside s s.entries s.invalidated)
    unfolding map_run
    map_run-end le = rw (test, unlock_paging_lem s s.entries)
      where
        test : ltb i limit ≡ false
        test = ground arith

    module _ (lt : i < limit) (room : i < pg_table_entries) where
      test : ltb i limit ≡ true
      test = ground arith

      map_run-next :
          absent_at s.entries table i ≡ false
          → map_run (suc fuel) i limit num table frame flags size va here
            ≡ map_run fuel (i + 1) limit num table frame flags size va here
      unfolding map_run
      map_run-next e = rw (test, read_entry_lem here table i room, e)

      module _ (e : absent_at s.entries table i ≡ true) (j count : ℕ) where
        pub map_run-short :
            count_absent (num - 1) (i + 1) 1 table here ≡ ok (j, count) here
            → (count == num) ≡ false
            → map_run (suc fuel) i limit num table frame flags size va here
              ≡ map_run fuel (j + 1 + 1) limit num table frame flags size va here
        unfolding map_run
        map_run-short counted short = rw (test, read_entry_lem here table i room, e, counted, short)

        map_run-stops :
            (t : ℕ → Words)
            → count_absent (num - 1) (i + 1) 1 table here ≡ ok (j, count) here
            → (count == num) ≡ true
            → fill_entries num i table frame flags size here ≡ ok tt (inside s t s.invalidated)
            → map_run (suc fuel) i limit num table frame flags size va here
              ≡ ok (va i) (outside s t s.invalidated)
        unfolding map_run
        map_run-stops t counted long filled = rw (
          test,
          read_entry_lem here table i room,
          e,
          counted,
          long,
          filled,
          unlock_paging_lem s t,
        )

  -- A result from a later entry on is one from `lo` on, where the entries in between begin no run.
  Result-later :
      (lo later : ℕ) (r : Run Paging ℕ)
      → lo ≤ later
      → ((m : ℕ) → m < later → m + num ≤ limit + num - 1 → HeadRun s table lo num m → ⊥)
      → ((m : ℕ) → later ≤ m → HeadRun s table lo num m → HeadRun s table later num m)
      → Result later r
      → Result lo r
  Result-later lo later r le early narrow (inl f) = inl (record {
    index = f.index;
    entries = f.entries;
    from = let h = f.from in omega arith;
    below = f.below;
    were_absent = f.were_absent;
    filled = f.filled;
    returns = f.returns;
  })
  Result-later lo later r le early narrow (inr x) = inr (record {
    no_head = λ m h head. elim (dec_lt m later) [
      | yes lt ↦ early m lt h head
      | no ge ↦ x.no_head m h (narrow m (omega arith) head)
    ];
    returns = x.returns;
  })

  HeadRun-narrow :
      (lo later m : ℕ)
      → lo ≤ later
      → later ≤ m
      → HeadRun s table lo num m
      → HeadRun s table later num m
  HeadRun-narrow lo later m le ge h = record {
    from = ge;
    present = λ k a b. h.present k (omega arith) b;
    free = h.free;
  }

  -- An entry that is present begins no run, one that begins too short a run neither, and none behind
  -- an absent entry is the first one.
  HeadRun-present :
      (i m : ℕ)
      → 1 ≤ num
      → absent_at s.entries table i ≡ false
      → m < i + 1
      → HeadRun s table i num m
      → ⊥
  HeadRun-present i m pos e lt h = let le = h.from in ground (arith, h.free 0, add-zero m)

  HeadRun-short :
      (i run m : ℕ)
      → 1 ≤ num
      → absent_at s.entries table i ≡ true
      → run + 1 < num
      → absent_at s.entries table (i + 1 + run) ≡ false
      → HeadRun s table i num m
      → ⊥
  HeadRun-short i run m pos e lt stop h = elim (ℕ_discrete m i) [
    | yes same ↦ ground (arith, h.free (run + 1) lt, here_too same)
    | no other ↦ let le = h.from in ground (arith, h.present i (omega arith) (omega arith))
  ]
    where
      here_too : m ≡ i → m + (run + 1) ≡ i + 1 + run
      here_too same = omega arith

  module _ (pos : 1 ≤ num) (fits : frame < 2 ^ 64)
      (inbounds : limit + num ≤ pg_table_entries + 1) where
    -- One round at an absent entry, given what the rounds that follow it do.
    round :
        (fuel i : ℕ)
        → i < limit
        → absent_at s.entries table i ≡ true
        → ((later : ℕ)
            → i < later
            → Result later (map_run fuel later limit num table frame flags size va here))
        → Result i (map_run (suc fuel) i limit num table frame flags size va here)
    round fuel i lt e continue = elim (ℕ_discrete c.run (num - 1)) [
      | yes all ↦
          let (t, f, eq) =
            fill_entries-Filled s s.invalidated table flags size num i frame s.entries (omega arith)
              fits in
          inl (record {
            index = i;
            entries = t;
            from = omega arith;
            below = omega arith;
            were_absent = were_absent all;
            filled = f;
            returns =
                map_run-stops fuel i lt (omega arith) e (i + 1 + c.run) (1 + c.run) t c.returns
                  (ground arith) eq;
          })
      | no some ↦
          rw
            (map_run-short fuel i lt (omega arith) e (i + 1 + c.run) (1 + c.run) c.returns
              (short some))
            (Result-later i (i + 1 + c.run + 1 + 1) _ (omega arith)
              (λ m _ _ head. begins_none some m head) (λ m _ head. absurd (begins_none some m head))
              (continue (i + 1 + c.run + 1 + 1) (omega arith)))
    ]
      where
        c : Counted here table (num - 1) (i + 1) 1 (count_absent (num - 1) (i + 1) 1 table here)
        c = count_absent-Counted here table (num - 1) (i + 1) 1 (omega arith)

        short : (c.run ≡ num - 1 → ⊥) → (1 + c.run == num) ≡ false
        short some = let h = c.bound in ground arith

        begins_none : (c.run ≡ num - 1 → ⊥) → (m : ℕ) → HeadRun s table i num m → ⊥
        begins_none some m head =
            let h = c.bound in
            HeadRun-short i c.run m pos e (omega arith) (c.stops (omega arith)) head

        were_absent : c.run ≡ num - 1 → (k : ℕ) → k < num → absent_at s.entries table (i + k) ≡ true
        were_absent all zero h = rw (add-zero i) e
        were_absent all (suc k) h = rw moved (c.absent k (omega arith))
          where
            moved : i + suc k ≡ i + 1 + k
            moved = omega arith

    pub map_run-RunMapped :
        (fuel i : ℕ)
        → limit - i < fuel
        → Result i (map_run fuel i limit num table frame flags size va here)
    map_run-RunMapped zero i enough = absurd (omega arith)
    map_run-RunMapped (suc fuel) i enough = elim (dec_lt i limit) [
      | yes lt ↦ elim (Bool-cases (absent_at s.entries table i)) [
        | inl e ↦ round fuel i lt e (λ later h. map_run-RunMapped fuel later (omega arith))
        | inr e ↦ rw (map_run-next fuel i lt (omega arith) e) (
            Result-later i (i + 1) _ (omega arith) (λ m h _ head. HeadRun-present i m pos e h head)
              (λ m h head. HeadRun-narrow i (i + 1) m (omega arith) h head)
              (map_run-RunMapped fuel (i + 1) (omega arith)))
      ]
      | no ge ↦ inr (record {
        no_head = λ m h head. let le = head.from in absurd (omega arith);
        returns = map_run-end fuel i (omega arith);
      })
    ]

module _ {s : Paging} (idle : IsIdle s) (frame num flags : ℕ) (pos : 1 ≤ num)
    (fits : frame < 2 ^ 64) where
  -- Between calls, for 1 to 513 pages: `vm_map_pages` terminates inside the table of the 4 KB window;
  -- it fills a run of `num` entries that were all absent with consecutive frames, changes no other
  -- entry and returns the address that the first of them maps, or it returns 0 with all entries
  -- unchanged, which it does only where the first absent entry does not begin a run of `num`. The lock
  -- is released.
  pub vm_map_pages-RunMapped :
      num ≤ 513
      → RunMapped s page_table 0 512 num frame flags pg_size
          (λ i. u64 (kernel_mapping_base + shl64 i pg_bits))
          (vm_map_pages frame num flags s)
  unfolding vm_map_pages get_paging_struct_vaddr
  vm_map_pages-RunMapped most =
      rw (some, lock_paging_lem idle, limit, ← upto)
        (map_run-RunMapped s page_table num frame flags pg_size (513 - num)
          (λ i. u64 (kernel_mapping_base + shl64 i pg_bits)) pos fits (omega arith) 513 0
          (omega arith))
    where
      some : ltb num 1 ≡ false
      some = ground arith

      limit : u64 (sub64 pg_table_entries num + 1) ≡ 513 - num
      limit = omega arith

      upto : 513 - num + num - 1 ≡ 512
      upto = omega arith

  -- Between calls, for 1 to 17 pages: `vm_map_large_pages` does the same with 2 MB pages and the
  -- entries 6 to 15 of the table of the 2 MB window.
  pub vm_map_large_pages-RunMapped :
      num ≤ 17
      → RunMapped s page_directory 6 16 num frame flags large_pg_size
          (λ i. shl64 i large_pg_bits)
          (vm_map_large_pages frame num flags s)
  unfolding vm_map_large_pages get_paging_struct_vaddr
  vm_map_large_pages-RunMapped most =
      rw (some, lock_paging_lem idle, limit, ← upto)
        (map_run-RunMapped s page_directory num frame flags large_pg_size (17 - num)
          (λ i. shl64 i large_pg_bits) pos fits (omega arith) 513 6 (omega arith))
    where
      some : ltb num 1 ≡ false
      some = ground arith

      limit : u64 (sub64 16 num + 1) ≡ 17 - num
      limit = omega arith

      upto : 17 - num + num - 1 ≡ 16
      upto = omega arith
