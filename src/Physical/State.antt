-- ===== src/Physical/State.antt =====
-- What the allocator's functions share: its states between two calls, and its critical section.
use rtv.Base.{
  ℕ, zero, suc, ◌+◌, ◌-◌, ◌*◌, ◌^◌, ◌≤◌, ◌<◌, ◌≡◌, refl, ap, ◌∙◌, ◌==◌, Bool, false, arith, bit_and,
  if◌then◌else◌,
}
use native.Mathlib.Nat.{pow-suc}
use rtv.Base.Run.{ok, faulted}
use rtv.Word.{neg64, shr}
use rtv.Word.Laws.{two_pow_pos}
use rtv.Word.Lowest.{IsLowest, IsLowest-exists}
use rtv.Bits.{Words, bit_at}
use rtv.Bits.Word.{bitmap64_get-bit_at}
use rtv.Spinlock.{u16, spin_lock, spin_unlock}
use rtv.Spinlock.Ticket.{IsLock, IsFree}
use rtv.Physical.Defs.{
  Phys, mm_table_max, acquire, release, read_word, get_bit, count_shifts, lowest_bit,
}

-- The invariant between two calls: nobody holds the lock, and the table has room for the limit.
pub record IsReady (s : Phys) : Type 0 where
  pub lock : IsLock s.phy_lock
  pub unlocked : IsFree s.phy_lock
  pub words : (i : ℕ) → s.mm_table i < 2 ^ 64
  pub fits : s.entry_end ≤ mm_table_max
  pub limit : s.mm_limit ≤ s.entry_end * 64

-- Frame `n` is free.
abbrev pub free_at : Phys → ℕ → Bool
free_at s n = bit_at s.mm_table n

-- The state inside the critical section, and after it, with a new table.
abbrev pub held : Phys → Words → Phys
held s t = record s {
  mm_table = t;
  phy_lock = record { next = u16 (s.phy_lock.next + 1); owner = s.phy_lock.owner };
}

abbrev pub after : Phys → Words → Phys
after s t = record s {
  mm_table = t;
  phy_lock = record { next = u16 (s.phy_lock.next + 1); owner = u16 (s.phy_lock.owner + 1) };
}

module _ {s : Phys} (ready : IsReady s) where
  pub acquire_lem : acquire s ≡ ok tt (held s s.mm_table)
  unfolding acquire spin_lock
  acquire_lem = let e = ready.unlocked in ground arith

  pub after-IsReady : (t : Words) → ((i : ℕ) → t i < 2 ^ 64) → IsReady (after s t)
  after-IsReady t words = record {
    lock = record { next_fits = omega arith; owner_fits = omega arith };
    unlocked = let e = ready.unlocked in ap (λ (n : ℕ). u16 (n + 1)) e;
    words = words;
    fits = ready.fits;
    limit = ready.limit;
  }

pub release_lem : (s : Phys) (t : Words) → release (held s t) ≡ ok tt (after s t)
unfolding release spin_unlock
release_lem s t = refl

pub read_word_lem : (s : Phys) (i : ℕ) → i < mm_table_max → read_word i s ≡ ok (s.mm_table i) s
unfolding read_word
read_word_lem s i h = ground arith

pub get_bit_lem :
    (s : Phys) (n : ℕ) → n < mm_table_max * 64 → get_bit n s ≡ ok (if free_at s n then 1 else 0) s
unfolding get_bit
get_bit_lem s n h = ground (arith, bitmap64_get-bit_at s.mm_table n)

pub get_bit-faulted : (s : Phys) (n : ℕ) → mm_table_max * 64 ≤ n → get_bit n s ≡ faulted
unfolding get_bit
get_bit-faulted s n h = ground arith

count_shifts-suc :
    (fuel w pos : ℕ) → 0 < w → count_shifts (suc fuel) w pos ≡ count_shifts fuel (shr w 1) (pos + 1)
unfolding count_shifts
count_shifts-suc fuel w pos h = rw (==_pos h)
  where
    ==_pos : 0 < w → (w == 0) ≡ false
    ==_pos h = ground arith

count_shifts-pow : (fuel p pos : ℕ) → p < fuel → count_shifts fuel (shr (2 ^ p) 1) pos ≡ pos + p
count_shifts-pow zero p pos h = absurd (omega arith)
count_shifts-pow (suc f) zero pos h = unfold count_shifts in ground arith
count_shifts-pow (suc f) (suc p) pos h = rw halved (
    count_shifts-suc f (2 ^ p) pos (two_pow_pos p)
    ∙ count_shifts-pow f p (pos + 1) (omega arith)
    ∙ omega arith)
  where
    halved : shr (2 ^ suc p) 1 ≡ 2 ^ p
    halved = omega (arith, pow-suc 2 p)

-- The shifting loop finds the lowest bit of any word that is not zero.
pub lowest_bit_lem : (w : ℕ) → w < 2 ^ 64 → 0 < w → IsLowest w (lowest_bit w) × (lowest_bit w < 64)
unfolding lowest_bit
lowest_bit_lem w fits pos =
    let (p, lt, low, eq) = IsLowest-exists 64 w fits pos in
    let found : count_shifts 64 (shr (bit_and w (neg64 w)) 1) 0 ≡ p =
      rw (negated, eq) (count_shifts-pow 64 p 0 lt ∙ omega arith) in
    rw found (low, lt)
  where
    negated : neg64 w ≡ 2 ^ 64 - w
    negated = omega arith
