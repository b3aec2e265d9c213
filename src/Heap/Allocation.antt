-- ===== src/Heap/Allocation.antt =====
-- malloc: the block that it returns was free, and those in use keep their bytes.
use native.Mathlib.Decide.{dec_lt}
use rtv.Base.{ℕ, ◌+◌, ◌-◌, ◌%◌, ◌^◌, ◌≤◌, ◌<◌, ◌≡◌, ◌≢◌, ◌⊎◌, inl, inr, refl, ◌∙◌, arith}
use rtv.Base.Run.{ok, panicked, on_part-ok}
use rtv.Spinlock.{Spinlock, spin_lock, spin_unlock, u16}
use rtv.Spinlock.Ticket.{IsFree, spin_lock-free}
use rtv.Heap.{
  Bytes, Heap, buddy_entries, buddy_min_order, take_first, malloc, next_power2, climb, split_down,
  lock_heap, unlock_heap,
}
use rtv.Heap.Rings.{Places, without, put}
use rtv.Heap.Layout.{Kinds, block_size, begin}
use rtv.Heap.Marking.{IsKept}
use rtv.Heap.Stock.{IsStock}
use rtv.Heap.Taking.{IsTaken, set_lock-IsStock, take_first_lem}
use rtv.Heap.Searching.{IsEntry, next_power2_lem, climb_lem, split_down_lem, block_size_mono}

-- What malloc leaves of a heap `s` with a free lock when it returns `ptr`.
pub record IsAllocation (bsystem : ℕ) (s s' : Heap) (kind : Kinds) (size ptr : ℕ) : Type 0 where
  pub entry : ℕ
  pub number : ℕ
  pub ptr_at : ptr ≡ begin entry number + 8
  pub room : IsEntry (size + 9) entry
  pub kind' : Kinds
  pub pos' : Places
  pub len' : ℕ → ℕ
  pub stock : IsStock bsystem s' kind' pos' len'
  pub took : IsTaken kind s.memory kind' s'.memory entry number
  pub free_lock : IsFree s'.mm_lock

-- Splits first, and then the block that is taken.
IsKept-IsTaken :
    {kind kind' kind'' : Kinds} {m m' m'' : Bytes} {e i : ℕ}
    → IsKept kind m kind' m'
    → IsTaken kind' m' kind'' m'' e i
    → IsTaken kind m kind'' m'' e i
IsKept-IsTaken f g = record {
  mine = g.mine;
  stays = λ a j t. g.stays a j (f.stays a j t);
  adds = λ a j t. elim (g.adds a j t) [ inl o ↦ inl (f.adds a j o) | inr same ↦ inr same ];
  apart = λ a j ha t. g.apart a j ha (f.stays a j t);
  bytes = λ a j q ha t lo hi. g.bytes a j q ha (f.stays a j t) lo hi ∙ f.bytes a j q ha t lo hi;
}

pub lock_heap_lem :
    (s : Heap)
    → IsFree s.mm_lock
    → lock_heap s
      ≡ ok tt (record s {
        mm_lock = record { next = u16 (s.mm_lock.next + 1); owner = s.mm_lock.owner };
      })
unfolding lock_heap
lock_heap_lem s free =
    on_part-ok (λ s. s.mm_lock) (λ l s. record s { mm_lock = l }) spin_lock s tt
      (record { next = u16 (s.mm_lock.next + 1); owner = s.mm_lock.owner })
      (spin_lock-free s.mm_lock free)

pub unlock_heap_lem :
    (s : Heap)
    → unlock_heap s
      ≡ ok tt (record s {
        mm_lock = record { next = s.mm_lock.next; owner = u16 (s.mm_lock.owner + 1) };
      })
unfolding unlock_heap spin_unlock
unlock_heap_lem s = refl

malloc_runs :
    (bsystem size order l ptr : ℕ) (s t u w x : Heap)
    → size + 9 < 2 ^ 32
    → next_power2 (size + 9) s ≡ ok (order + buddy_min_order) s
    → lock_heap s ≡ ok tt t
    → climb bsystem (buddy_entries + 1) order t ≡ ok l t
    → split_down bsystem (l - order) l t ≡ ok tt u
    → take_first bsystem order u ≡ ok ptr w
    → unlock_heap w ≡ ok tt x
    → malloc bsystem size s ≡ ok ptr x
unfolding malloc
malloc_runs bsystem size order l ptr s t u w x fits power lock climbs splits takes unlock =
    rw (no_wrap, power, back, lock, climbs, splits, takes, unlock) refl
  where
    no_wrap : (size + 9) % 2 ^ 32 ≡ size + 9
    no_wrap = omega arith

    back : order + buddy_min_order - buddy_min_order ≡ order
    back = omega arith

malloc_panics :
    (bsystem size order : ℕ) (s t : Heap)
    → size + 9 < 2 ^ 32
    → next_power2 (size + 9) s ≡ ok (order + buddy_min_order) s
    → lock_heap s ≡ ok tt t
    → climb bsystem (buddy_entries + 1) order t ≡ panicked
    → malloc bsystem size s ≡ panicked
unfolding malloc
malloc_panics bsystem size order s t fits power lock climbs =
    rw (no_wrap, power, back, lock, climbs) refl
  where
    no_wrap : (size + 9) % 2 ^ 32 ≡ size + 9
    no_wrap = omega arith

    back : order + buddy_min_order - buddy_min_order ≡ order
    back = omega arith

-- A bucket above the entry of a size has larger blocks.
entry_lowest : (v e a : ℕ) → IsEntry v e → v ≤ block_size a → e ≤ a
entry_lowest v e a entry fits = elim (dec_lt a e) [
  | no ge ↦ omega arith
  | yes lt ↦
      let t = entry.tight (e - 1) (omega arith) in
      let m = block_size_mono (e - 1 - a) a (e - 1) (omega arith) in absurd (omega arith)
]

-- malloc of `size` bytes on a heap that agrees with its lists and whose lock is free, for a size that
-- with its 9 bytes of tags fits the pool of 4 MB: either no bucket of blocks that are large enough has
-- a block, and malloc panics; or it returns, with the lock free again, the address 8 bytes into a block
-- of the smallest entry with room for the size and the tags. That block has no byte in common with a
-- block in use, all blocks in use stay so and keep their bytes, and no other one comes to them; the
-- heap agrees with its lists again.
pub malloc-IsAllocation :
    (bsystem : ℕ) (s : Heap) (kind : Kinds) (pos : Places) (len : ℕ → ℕ) (size : ℕ)
    → IsStock bsystem s kind pos len
    → IsFree s.mm_lock
    → size + 9 ≤ 2 ^ 22
    → ((malloc bsystem size s ≡ panicked)
        × ((a : ℕ) → a < buddy_entries → size + 9 ≤ block_size a → s.count a ≡ 0))
      ⊎ (ptr : ℕ) × (s' : Heap) × (malloc bsystem size s ≡ ok ptr s')
        × IsAllocation bsystem s s' kind size ptr
malloc-IsAllocation bsystem s kind pos len size st free fits =
    let (order, power, entry) = next_power2_lem (size + 9) s fits in
    elim (climb_lem bsystem (buddy_entries + 1) order locked entry.inside (omega arith)) [
      | inl (stops, none) ↦ inl (
        malloc_panics bsystem size order s locked (omega arith) power (lock_heap_lem s free) stops,
        λ a ha room. none a (entry_lowest (size + 9) order a entry room) ha,
      )
      | inr (l, climbs, le, inside, some, below) ↦
          inr (found order power entry l climbs le inside some)
    ]
  where
    locked : Heap
    locked = record s {
      mm_lock = record { next = u16 (s.mm_lock.next + 1); owner = s.mm_lock.owner };
    }

    found :
        (order : ℕ)
        → next_power2 (size + 9) s ≡ ok (order + buddy_min_order) s
        → IsEntry (size + 9) order
        → (l : ℕ) → climb bsystem (buddy_entries + 1) order locked ≡ ok l locked
        → order ≤ l
        → l < buddy_entries
        → s.count l ≢ 0
        → (ptr : ℕ) × (s' : Heap) × (malloc bsystem size s ≡ ok ptr s')
          × IsAllocation bsystem s s' kind size ptr
    found order power entry l climbs le inside some =
        let (t, splits, step, ready) =
          split_down_lem bsystem (l - order) order l locked kind pos len
            (set_lock-IsStock st locked.mm_lock) (omega arith) inside some in
        let (i, u, kind', takes, st', took, lock) =
          take_first_lem step.stock order entry.inside ready in
        let unlocked : Spinlock = record {
          next = u.mm_lock.next;
          owner = u16 (u.mm_lock.owner + 1);
        } in
        (
          begin order i + 8,
          record u { mm_lock = unlocked },
          malloc_runs bsystem size order l (begin order i + 8) s locked t u
              (record u { mm_lock = unlocked }) (omega arith) power (lock_heap_lem s free) climbs
              splits takes (unlock_heap_lem u),
          record {
            entry = order;
            number = i;
            ptr_at = refl;
            room = entry;
            kind' = kind';
            pos' = without step.pos' order 0;
            len' = put step.len' order (step.len' order - 1);
            stock = set_lock-IsStock st' unlocked;
            took = IsKept-IsTaken step.kept took;
            free_lock = released u (lock ∙ step.lock);
          },
        )
      where
        released :
            (u : Heap) → u.mm_lock ≡ locked.mm_lock → u.mm_lock.next ≡ u16 (u.mm_lock.owner + 1)
        released u same = rw (same, free) refl
