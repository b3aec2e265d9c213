-- ===== src/Vm/UnmapRuns.antt =====
-- vm_unmap_pages, and vm_unmap_pages after vm_map_pages.
use native.Mathlib.Nat.{add-zero}
use rtv.Base.{
  ℕ, zero, suc, ◌+◌, ◌-◌, ◌*◌, ◌%◌, ◌^◌, ◌≤◌, ◌<◌, ◌≡◌, ◌≢◌, ◌⊎◌, inl, inr, refl, ap, ◌∙◌, true,
  bit_and, bit_or, arith, List, ◌∷◌, ◌==◌, if◌then◌else◌, Bool-cases,
}
use rtv.Base.Run.{ok}
use rtv.Word.{u64}
use rtv.Bits.{Words}
use rtv.Physical.Defs.{pg_size}
use rtv.Vm.Defs.{Paging, pg_table_entries, pg_mask, put_entry, absent, invalidate_page}
use rtv.Vm.Pages.{unmap_entries, vm_map_pages, vm_unmap_pages}
use rtv.Vm.State.{
  IsIdle, inside, outside, outside-IsIdle, absent_at, lock_paging_lem, unlock_paging_lem,
  read_entry_lem, write_entry_lem, put_entry_at,
}
use rtv.Vm.Single.{page_table}
use rtv.Vm.Runs.Parts.{Filled}
use rtv.Vm.Runs.{MappedRun, HeadRun, vm_map_pages-RunMapped}
use rtv.Vm.Unmap.{page_address, page_address-table, page_address-index, frame_of_entry, Unchanged}

-- The pages that a loop of `num` rounds invalidates, the last one first.
abbrev flushed : (num pg size : ℕ) → List ℕ → List ℕ
flushed zero pg size inv = inv
flushed (suc num) pg size inv = flushed num (u64 (pg + size)) size (pg ∷ inv)

-- `num` entries from `i` on are clear, and no other entry changed.
pub record Cleared (t' t : ℕ → Words) (table num i : ℕ) : Type 0 where
  pub clear : (k : ℕ) → k < num → t' table (i + k) ≡ 0
  pub kept : (u m : ℕ) → (u ≢ table) ⊎ (m < i) ⊎ (i + num ≤ m) → t' u m ≡ t u m

-- The frame that the loop keeps.
abbrev keep : (frame entry mask : ℕ) → ℕ
keep frame entry mask = if frame == 0 then bit_and entry mask else frame

module _ (s : Paging) (table mask size : ℕ) where
  unmap_entries-next :
      (num i pg frame : ℕ) (t : ℕ → Words) (inv : List ℕ)
      → i < pg_table_entries
      → unmap_entries (suc num) i table pg frame mask size (inside s t inv)
        ≡ unmap_entries num
            (i + 1)
            table
            (u64 (pg + size))
            (keep frame (t table i) mask)
            mask
            size
            (inside s (put_entry t table i 0) (pg ∷ inv))
  unfolding unmap_entries invalidate_page
  unmap_entries-next num i pg frame t inv room = elim (Bool-cases (frame == 0)) [
    | inl e ↦ rw (
      e,
      read_entry_lem (inside s t inv) table i room,
      write_entry_lem (inside s t inv) table i 0 room,
    )
    | inr e ↦ rw (e, write_entry_lem (inside s t inv) table i 0 room)
  ]

  Cleared-next :
      (num i : ℕ) (t' t : ℕ → Words)
      → Cleared t' (put_entry t table i 0) table num (i + 1)
      → Cleared t' t table (suc num) i
  Cleared-next num i t' t c = record { clear = clear; kept = kept }
    where
      clear : (k : ℕ) → k < suc num → t' table (i + k) ≡ 0
      clear zero h = rw (add-zero i) (
          c.kept table i (inr (inl (omega arith)))
          ∙ put_entry_at t table i 0 table i
          ∙ ground arith)
      clear (suc k) h = rw shifted (c.clear k (omega arith))
        where
          shifted : i + suc k ≡ i + 1 + k
          shifted = omega arith

      kept : (u m : ℕ) → (u ≢ table) ⊎ (m < i) ⊎ (i + suc num ≤ m) → t' u m ≡ t u m
      kept u m away = ground (arith, c.kept u m, put_entry_at t table i 0 u m)

  -- Once a frame is found it stays.
  unmap_entries-Cleared :
      (num i pg frame : ℕ) (t : ℕ → Words) (inv : List ℕ)
      → i + num ≤ pg_table_entries
      → 0 < frame
      → (t' : ℕ → Words) × Cleared t' t table num i
        × (unmap_entries num i table pg frame mask size (inside s t inv)
            ≡ ok frame (inside s t' (flushed num pg size inv)))
  unmap_entries-Cleared zero i pg frame t inv room pos = (
    t,
    record { clear = λ k h. absurd (omega arith); kept = λ u m h. refl },
    unfold unmap_entries in refl,
  )
  unmap_entries-Cleared (suc num) i pg frame t inv room pos =
      let (t', c, e) =
        unmap_entries-Cleared num (i + 1) (u64 (pg + size)) frame (put_entry t table i 0) (pg ∷ inv)
          (omega arith) pos in
      (
        t',
        Cleared-next num i t' t c,
        unmap_entries-next num i pg frame t inv (omega arith) ∙ rw kept e,
      )
    where
      kept : keep frame (t table i) mask ≡ frame
      kept = ground arith

  unmap_entries-first :
      (num i pg : ℕ)
      → 1 ≤ num
      → i + num ≤ pg_table_entries
      → 0 < bit_and (s.entries table i) mask
      → (t' : ℕ → Words) × Cleared t' s.entries table num i
        × (unmap_entries num i table pg 0 mask size (inside s s.entries s.invalidated)
            ≡ ok
                (bit_and (s.entries table i) mask)
                (inside s t' (flushed num pg size s.invalidated)))
  unmap_entries-first zero i pg some room pos = absurd (omega arith)
  unmap_entries-first (suc num) i pg some room pos =
      let (t', c, e) =
        unmap_entries-Cleared num (i + 1) (u64 (pg + size)) (bit_and (s.entries table i) mask)
          (put_entry s.entries table i 0) (pg ∷ s.invalidated) (omega arith) pos in
      (
        t',
        Cleared-next num i t' s.entries c,
        unmap_entries-next num i pg 0 s.entries s.invalidated (omega arith) ∙ e,
      )

module _ {s : Paging} (idle : IsIdle s) where
  vm_unmap_pages-Cleared :
      (i num : ℕ)
      → 1 ≤ num
      → i + num ≤ 512
      → 0 < bit_and (s.entries page_table i) pg_mask
      → (t' : ℕ → Words) × Cleared t' s.entries page_table num i
        × (vm_unmap_pages (page_address i) num s
            ≡ ok
                (bit_and (s.entries page_table i) pg_mask)
                (outside s t' (flushed num (page_address i) pg_size s.invalidated)))
  unfolding vm_unmap_pages
  vm_unmap_pages-Cleared i num some room pos =
      let (t', c, e) =
        unmap_entries-first s page_table pg_mask pg_size num i (page_address i) some room pos in
      (
        t',
        c,
        rw (
          lock_paging_lem idle,
          page_address-table i (omega arith),
          page_address-index i (omega arith),
          e,
          unlock_paging_lem s t',
        ),
      )

module _ (s : Paging) (idle : IsIdle s) (frame num flags : ℕ) where
  unmap_run :
      (i : ℕ) (t t' : ℕ → Words) (inv inv' : List ℕ)
      → ((k : ℕ) → k < num → absent_at s.entries page_table (i + k) ≡ true)
      → Filled t s.entries page_table num i frame flags pg_size
      → Cleared t' t page_table num i
      → Unchanged s (outside (outside s t inv) t' inv')
  unmap_run i t t' inv inv' free f c = record {
    presence = λ u j. ground (arith, f.kept u j, c.kept u j, zero_at u j, was_free u j, none);
    others = λ u j h. ground (arith, f.kept u j, c.kept u j, was_free u j);
    idle = outside-IsIdle (outside-IsIdle idle t inv) t' inv';
  }
    where
      none : absent 0 ≡ true
      none = unfold absent in refl

      zero_at : (u j : ℕ) → u ≡ page_table → i ≤ j → j < i + num → t' u j ≡ 0
      zero_at u j e le lt = rw e (rw back at (c.clear (j - i) (omega arith)))
        where
          back : i + (j - i) ≡ j
          back = omega arith

      was_free : (u j : ℕ) → u ≡ page_table → i ≤ j → j < i + num → absent (s.entries u j) ≡ true
      was_free u j e le lt = rw e (rw back at (free (j - i) (omega arith)))
        where
          back : i + (j - i) ≡ j
          back = omega arith

  -- Between calls, where the first absent entry of the 4 KB window begins a run of `num` of them, for
  -- an aligned frame other than 0 and flags below bit 12: unmapping `num` pages from the address on
  -- that `vm_map_pages` returns gives the first frame back, and then the same entries are present as
  -- before, with the same contents, and the lock is released.
  pub vm_unmap_pages-vm_map_pages :
      (m : ℕ)
      → 1 ≤ num
      → m + num ≤ 512
      → HeadRun s page_table 0 num m
      → frame < 2 ^ 64
      → 0 < frame
      → frame % pg_size ≡ 0
      → flags < pg_size
      → (i : ℕ) × (s' : Paging) × (s'' : Paging) × (vm_map_pages frame num flags s
          ≡ ok (page_address i) s')
        × (vm_unmap_pages (page_address i) num s' ≡ ok frame s'')
        × Unchanged s s''
  vm_unmap_pages-vm_map_pages m some room head fits pos aligned low =
      elim (vm_map_pages-RunMapped idle frame num flags some fits (omega arith)) [
        | inr x ↦ absurd (x.no_head m room head)
        | inl r ↦
            let value : bit_and (r.entries page_table r.index) pg_mask ≡ frame = first_frame r in
            let (t', c, e) =
              vm_unmap_pages-Cleared (outside-IsIdle idle r.entries s.invalidated) r.index num some
                r.below (rw value pos) in
            (
              r.index,
              outside s r.entries s.invalidated,
              outside (outside s r.entries s.invalidated) t'
                  (flushed num (page_address r.index) pg_size s.invalidated),
              r.returns,
              e ∙ rw value,
              unmap_run r.index r.entries t' s.invalidated
                  (flushed num (page_address r.index) pg_size s.invalidated) r.were_absent r.filled
                  c,
            )
      ]
    where
      first_frame :
          (r : MappedRun s page_table 0 512 num frame flags pg_size page_address
            (vm_map_pages frame num flags s))
          → bit_and (r.entries page_table r.index) pg_mask ≡ frame
      first_frame r = rw stored (frame_of_entry frame flags fits aligned low)
        where
          stored : r.entries page_table r.index ≡ bit_or frame flags
          stored =
              ap (λ (n : ℕ). r.entries page_table n) start
              ∙ r.filled.written 0 some
              ∙ ap (λ (n : ℕ). bit_or n flags) same
            where
              start : r.index ≡ r.index + 0
              start = omega arith

              same : u64 (frame + 0 * pg_size) ≡ frame
              same = omega arith
