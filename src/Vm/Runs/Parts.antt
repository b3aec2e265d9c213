-- ===== src/Vm/Runs/Parts.antt =====
-- The two inner loops of vm_map_pages and vm_map_large_pages.
use native.Mathlib.Nat.{add-zero, zero-mul, suc-mul}
use rtv.Base.{
  ℕ, zero, suc, ◌+◌, ◌*◌, ◌^◌, ◌≤◌, ◌<◌, ◌≡◌, ◌≢◌, ◌⊎◌, inl, inr, refl, ◌∙◌, true, false, bit_or,
  arith, Bool-cases, List,
}
use rtv.Base.Run.{Run, ok}
use rtv.Word.{u64}
use rtv.Bits.{Words}
use rtv.Vm.Defs.{Paging, pg_table_entries, put_entry}
use rtv.Vm.Pages.{count_absent, fill_entries}
use rtv.Vm.State.{inside, absent_at, read_entry_lem, write_entry_lem, put_entry_at}

-- How many entries from `j` on are absent, with `left` at most.
pub record Counted (s : Paging) (table left j count : ℕ) (r : Run Paging (ℕ × ℕ)) : Type 0 where
  pub run : ℕ
  pub bound : run ≤ left
  pub absent : (k : ℕ) → k < run → absent_at s.entries table (j + k) ≡ true
  pub stops : run < left → absent_at s.entries table (j + run) ≡ false
  pub returns : r ≡ ok (j + run, count + run) s

module _ (s : Paging) (table : ℕ) where
  module _ (left j count : ℕ) (room : j < pg_table_entries) where
    count_absent-next :
        absent_at s.entries table j ≡ true
        → count_absent (suc left) j count table s ≡ count_absent left (j + 1) (count + 1) table s
    unfolding count_absent
    count_absent-next e = rw (read_entry_lem s table j room, e)

    count_absent-stops :
        absent_at s.entries table j ≡ false
        → count_absent (suc left) j count table s ≡ ok (j, count) s
    unfolding count_absent
    count_absent-stops e = rw (read_entry_lem s table j room, e)

  Counted-next :
      (left j count : ℕ) (r : Run Paging (ℕ × ℕ))
      → absent_at s.entries table j ≡ true
      → Counted s table left (j + 1) (count + 1) r
      → Counted s table (suc left) j count r
  Counted-next left j count r e c = record {
    run = suc c.run;
    bound = let h = c.bound in omega arith;
    absent = absent;
    stops = λ h. rw moved (c.stops (omega arith));
    returns = c.returns ∙ rw (moved, counted);
  }
    where
      moved : j + suc c.run ≡ j + 1 + c.run
      moved = omega arith

      absent : (k : ℕ) → k < suc c.run → absent_at s.entries table (j + k) ≡ true
      absent zero h = rw (add-zero j) e
      absent (suc k) h = rw shifted (c.absent k (omega arith))
        where
          shifted : j + suc k ≡ j + 1 + k
          shifted = omega arith

      counted : count + suc c.run ≡ count + 1 + c.run
      counted = omega arith

  pub count_absent-Counted :
      (left j count : ℕ)
      → j + left ≤ pg_table_entries
      → Counted s table left j count (count_absent left j count table s)
  count_absent-Counted zero j count room = record {
    run = 0;
    bound = omega arith;
    absent = λ k h. absurd (omega arith);
    stops = λ h. absurd (omega arith);
    returns = unfold count_absent in rw (add-zero j, add-zero count);
  }
  count_absent-Counted (suc left) j count room = elim (Bool-cases (absent_at s.entries table j)) [
    | inl e ↦ rw (count_absent-next left j count (omega arith) e) (
        Counted-next left j count _ e (count_absent-Counted left (j + 1) (count + 1) (omega arith)))
    | inr e ↦ record {
      run = 0;
      bound = omega arith;
      absent = λ k h. absurd (omega arith);
      stops = λ h. rw (add-zero j) e;
      returns = rw (count_absent-stops left j count (omega arith) e, add-zero j, add-zero count);
    }
  ]

-- `num` entries from `i` on map consecutive frames, and no other entry changed.
pub record Filled (t' t : ℕ → Words) (table num i frame flags size : ℕ) : Type 0 where
  pub written : (k : ℕ) → k < num → t' table (i + k) ≡ bit_or (u64 (frame + k * size)) flags
  pub kept : (u m : ℕ) → (u ≢ table) ⊎ (m < i) ⊎ (i + num ≤ m) → t' u m ≡ t u m

module _ (s : Paging) (inv : List ℕ) (table flags size : ℕ) where
  fill_entries-next :
      (left j frame : ℕ) (t : ℕ → Words)
      → j < pg_table_entries
      → fill_entries (suc left) j table frame flags size (inside s t inv)
        ≡ fill_entries left
            (j + 1)
            table
            (u64 (frame + size))
            flags
            size
            (inside s (put_entry t table j (bit_or frame flags)) inv)
  unfolding fill_entries
  fill_entries-next left j frame t room =
      rw (write_entry_lem (inside s t inv) table j (bit_or frame flags) room)

  Filled-next :
      (num i frame : ℕ) (t' t : ℕ → Words)
      → frame < 2 ^ 64
      → Filled t'
          (put_entry t table i (bit_or frame flags))
          table
          num
          (i + 1)
          (u64 (frame + size))
          flags
          size
      → Filled t' t table (suc num) i frame flags size
  Filled-next num i frame t' t fits f = record { written = written; kept = kept }
    where
      written : (k : ℕ) → k < suc num → t' table (i + k) ≡ bit_or (u64 (frame + k * size)) flags
      written zero h =
          rw (add-zero i, zero-mul size, same)
            (f.kept table i (inr (inl (omega arith)))
              ∙ put_entry_at t table i (bit_or frame flags) table i
              ∙ ground arith)
        where
          same : u64 (frame + 0) ≡ frame
          same = omega arith
      written (suc k) h = rw (shifted, same) (f.written k (omega arith))
        where
          shifted : i + suc k ≡ i + 1 + k
          shifted = omega arith

          same : u64 (frame + suc k * size) ≡ u64 (u64 (frame + size) + k * size)
          same = omega (arith, suc-mul k size)

      kept : (u m : ℕ) → (u ≢ table) ⊎ (m < i) ⊎ (i + suc num ≤ m) → t' u m ≡ t u m
      kept u m where_ = ground (arith, f.kept u m, put_entry_at t table i (bit_or frame flags) u m)

  pub fill_entries-Filled :
      (num i frame : ℕ) (t : ℕ → Words)
      → i + num ≤ pg_table_entries
      → frame < 2 ^ 64
      → (t' : ℕ → Words) × Filled t' t table num i frame flags size
        × (fill_entries num i table frame flags size (inside s t inv) ≡ ok tt (inside s t' inv))
  fill_entries-Filled zero i frame t room fits = (
    t,
    record { written = λ k h. absurd (omega arith); kept = λ u m h. refl },
    unfold fill_entries in refl,
  )
  fill_entries-Filled (suc num) i frame t room fits =
      let (t', f, e) =
        fill_entries-Filled num (i + 1) (u64 (frame + size))
          (put_entry t table i (bit_or frame flags)) (omega arith) (omega arith) in
      (t', Filled-next num i frame t' t fits f, fill_entries-next num i frame t (omega arith) ∙ e)
