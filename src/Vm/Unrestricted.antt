-- ===== src/Vm/Unrestricted.antt =====
-- vm_map_page_unrestricted and vm_map_large_page_unrestricted, where the upper tables are there.
use rtv.Base.{
  ℕ, ◌+◌, ◌/◌, ◌%◌, ◌^◌, ◌<◌, ◌≡◌, ◌⊎◌, refl, ap, ◌∙◌, true, false, bit_or, arith, some, Bool-cases,
  inl, inr,
}
use rtv.Base.Run.{ok, panicked}
use rtv.Bits.{Words}
use rtv.Spinlock.{u16, spin_lock, spin_unlock}
use rtv.Spinlock.Ticket.{IsFree}
use rtv.Physical.Defs.{pg_size}
use rtv.Vm.Defs.{absent, put_entry}
use rtv.Vm.Tables.{
  Machine, frame_of, index, walk, lock_tables, unlock_tables, vm_map_page_unrestricted,
}
use rtv.Vm.Walk.{Open, SelfMapped, pdpt_frame, pdt_frame, pt_frame, walk-indices}
use rtv.Vm.Entries.{
  frame_of-bit_or, absent-bit_or, put_entry-same, kept_entry, walk-put_entry, ensure_table-present,
  fill_entry-present, fill_entry-absent, top-Found, pdpt-Found, pdt-Found, pt-Found,
}

-- The upper tables of an address are there.
pub record HasTables (s : Machine) (a : ℕ) : Type 0 where
  pub self : SelfMapped s.frames s.root
  pub top : Open (s.frames s.root (index 0 a))
  pub pdpt : Open (s.frames (pdpt_frame s.frames s.root a) (index 1 a))
  pub pdt : Open (s.frames (pdt_frame s.frames s.root a) (index 2 a))

abbrev entered : Machine → Machine
entered s = record s {
  pg_lock = record { next = u16 (s.pg_lock.next + 1); owner = s.pg_lock.owner };
}

lock_tables_lem : (s : Machine) → IsFree s.pg_lock → lock_tables s ≡ ok tt (entered s)
unfolding lock_tables spin_lock
lock_tables_lem s unlocked = ground arith

-- The outcome of a mapping of `frame` at `a`: the address translates to the frame, and what translated
-- before is as it was.
pub record MappedAt (s : Machine) (a frame : ℕ) (s' : Machine) : Type 0 where
  pub translates : walk s'.frames s'.root a ≡ some (frame / pg_size)
  pub keeps : (b f : ℕ) → walk s.frames s.root b ≡ some f → walk s'.frames s'.root b ≡ some f
  pub unlocked : IsFree s'.pg_lock

-- The entry of an address in the last table.
abbrev pub old_entry : Machine → ℕ → ℕ
old_entry s a = s.frames (pt_frame s.frames s.root a) (index 3 a)

module _ (s : Machine) (a frame flags : ℕ) (fits : a < 2 ^ 64) (tables : HasTables s a)
    (unlocked : IsFree s.pg_lock) where
  abbrev mapped : ℕ → Words
  mapped = put_entry s.frames (pt_frame s.frames s.root a) (index 3 a) (bit_or frame flags)

  abbrev result : Machine
  result = record s {
    frames = mapped;
    pg_lock = record { next = u16 (s.pg_lock.next + 1); owner = u16 (s.pg_lock.owner + 1) };
  }

  vm_map_page_unrestricted-runs :
      (absent (old_entry s a) ≡ true → vm_map_page_unrestricted frame flags a s ≡ ok tt result)
      × (absent (old_entry s a) ≡ false → vm_map_page_unrestricted frame flags a s ≡ panicked)
  unfolding vm_map_page_unrestricted unlock_tables spin_unlock
  vm_map_page_unrestricted-runs =
      let r = entered s in
      let self = tables.self in
      let f0 = top-Found r a fits self in
      let f1 = pdpt-Found r a fits self tables.top.0 in
      let f2 = pdt-Found r a fits self tables.top tables.pdpt.0 in
      let f3 = pt-Found r a fits self tables.top tables.pdpt tables.pdt.0 in
      (
        λ free. rw (
          lock_tables_lem s unlocked,
          ensure_table-present r 0 a r.root f0 tables.top.0,
          ensure_table-present r 1 a (pdpt_frame r.frames r.root a) f1 tables.pdpt.0,
          ensure_table-present r 2 a (pdt_frame r.frames r.root a) f2 tables.pdt.0,
          fill_entry-absent r 3 a (pt_frame r.frames r.root a) f3 frame flags free,
        ),
        λ taken. rw (
          lock_tables_lem s unlocked,
          ensure_table-present r 0 a r.root f0 tables.top.0,
          ensure_table-present r 1 a (pdpt_frame r.frames r.root a) f1 tables.pdpt.0,
          ensure_table-present r 2 a (pdt_frame r.frames r.root a) f2 tables.pdt.0,
          fill_entry-present r 3 a (pt_frame r.frames r.root a) f3 frame flags taken,
        ),
      )

  -- An upper entry is as it was.
  Open-kept :
      (u j : ℕ) → absent (old_entry s a) ≡ true → Open (s.frames u j) → mapped u j ≡ s.frames u j
  Open-kept u j free o =
      kept_entry s.frames (pt_frame s.frames s.root a) (index 3 a) (bit_or frame flags) free u j o.0

  mapped-translates :
      absent (old_entry s a) ≡ true
      → frame < 2 ^ 52
      → flags % 2 ≡ 1
      → frame_of flags ≡ 0
      → walk mapped s.root a ≡ some (frame / pg_size)
  mapped-translates free small p clear =
      walk-indices mapped s.root a (index 0 a) (index 1 a) (index 2 a) (index 3 a) refl refl refl
        refl (pdpt_frame s.frames s.root a) (pdt_frame s.frames s.root a)
        (pt_frame s.frames s.root a)
        (rw (Open-kept s.root (index 0 a) free tables.top) (tables.top, refl))
        (rw (Open-kept (pdpt_frame s.frames s.root a) (index 1 a) free tables.pdpt)
          (tables.pdpt, refl))
        (rw (Open-kept (pdt_frame s.frames s.root a) (index 2 a) free tables.pdt)
          (tables.pdt, refl))
        (rw here (absent-bit_or frame flags p))
      ∙ rw (here, frame_of-bit_or frame flags clear) (ap some (omega arith))
    where
      here : mapped (pt_frame s.frames s.root a) (index 3 a) ≡ bit_or frame flags
      here = put_entry-same s.frames (pt_frame s.frames s.root a) (index 3 a) (bit_or frame flags)

  -- Where the last entry of the top table leads back to it and the three upper tables of a virtual
  -- address are there, for a frame below 2 ^ 52 and flags with PGT_P and no digit of an address:
  -- if no page is mapped at the address, `vm_map_page_unrestricted` makes the processor's walk of it end
  -- at the frame, keeps the translation of every address that had one, and releases the lock; if a page
  -- is mapped there, it panics.
  pub vm_map_page_unrestricted-MappedAt :
      frame < 2 ^ 52
      → flags % 2 ≡ 1
      → frame_of flags ≡ 0
      → ((absent (old_entry s a) ≡ true)
          × ((s' : Machine) × (vm_map_page_unrestricted frame flags a s ≡ ok tt s')
              × MappedAt s a frame s'))
        ⊎ ((absent (old_entry s a) ≡ false) × (vm_map_page_unrestricted frame flags a s ≡ panicked))
  vm_map_page_unrestricted-MappedAt small p clear = elim (Bool-cases (absent (old_entry s a))) [
    | inl free ↦ inl (
      free,
      (
        result,
        vm_map_page_unrestricted-runs.0 free,
        record {
          translates = mapped-translates free small p clear;
          keeps = λ b f e.
              walk-put_entry s.frames s.root (pt_frame s.frames s.root a) (index 3 a)
                (bit_or frame flags) b f free e;
          unlocked = ap (λ (n : ℕ). u16 (n + 1)) unlocked;
        },
      ),
    )
    | inr taken ↦ inr (taken, vm_map_page_unrestricted-runs.1 taken)
  ]
