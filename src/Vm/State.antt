-- ===== src/Vm/State.antt =====
-- What the mapping functions share: the states between two calls, their critical section, and single
-- entries of a table.
use rtv.Base.{ℕ, ◌+◌, ◌<◌, ◌≡◌, refl, ap, ◌==◌, Bool, List, arith, if◌then◌else◌}
use rtv.Base.Run.{ok}
use rtv.Bits.{Words, store}
use rtv.Spinlock.{u16, spin_lock, spin_unlock}
use rtv.Spinlock.Ticket.{IsLock, IsFree}
use rtv.Vm.Defs.{
  Paging, pg_table_entries, lock_paging, unlock_paging, absent, put_entry, read_entry, write_entry,
}

-- The invariant between two calls: nobody holds the lock.
pub record IsIdle (s : Paging) : Type 0 where
  pub lock : IsLock s.pg_lock
  pub unlocked : IsFree s.pg_lock

-- The state inside the critical section, and after it, with new entries and invalidations.
abbrev pub inside : Paging → (ℕ → Words) → List ℕ → Paging
inside s t inv = record {
  entries = t;
  pg_lock = record { next = u16 (s.pg_lock.next + 1); owner = s.pg_lock.owner };
  invalidated = inv;
}

abbrev pub outside : Paging → (ℕ → Words) → List ℕ → Paging
outside s t inv = record {
  entries = t;
  pg_lock = record { next = u16 (s.pg_lock.next + 1); owner = u16 (s.pg_lock.owner + 1) };
  invalidated = inv;
}

module _ {s : Paging} (idle : IsIdle s) where
  pub lock_paging_lem : lock_paging s ≡ ok tt (inside s s.entries s.invalidated)
  unfolding lock_paging spin_lock
  lock_paging_lem = let e = idle.unlocked in ground arith

  pub outside-IsIdle : (t : ℕ → Words) (inv : List ℕ) → IsIdle (outside s t inv)
  outside-IsIdle t inv = record {
    lock = record { next_fits = omega arith; owner_fits = omega arith };
    unlocked = let e = idle.unlocked in ap (λ (n : ℕ). u16 (n + 1)) e;
  }

pub unlock_paging_lem :
    (s : Paging) (t : ℕ → Words) (inv : List ℕ)
    → unlock_paging (inside s t inv) ≡ ok tt (outside s t inv)
unfolding unlock_paging spin_unlock
unlock_paging_lem s t inv = refl

-- Entry `i` of `table` is free for a new page.
abbrev pub absent_at : (ℕ → Words) → ℕ → ℕ → Bool
absent_at t table i = absent (t table i)

module _ (s : Paging) (table i : ℕ) where
  pub read_entry_lem : i < pg_table_entries → read_entry table i s ≡ ok (s.entries table i) s
  unfolding read_entry
  read_entry_lem h = ground arith

  pub write_entry_lem :
      (w : ℕ)
      → i < pg_table_entries
      → write_entry table i w s ≡ ok tt (record s { entries = put_entry s.entries table i w })
  unfolding write_entry
  write_entry_lem w h = ground arith

module _ (t : ℕ → Words) (table i w : ℕ) where
  pub put_entry_at :
      (u j : ℕ)
      → put_entry t table i w u j ≡ (if u == table then (if i == j then w else t u j) else t u j)
  unfolding put_entry store
  put_entry_at u j = ground arith
