-- ===== src/Heap/Release.antt =====
-- free as a whole, on its own and behind malloc.
use rtv.Base.{
  ◌^◌, ℕ, ◌+◌, ◌-◌, ◌≤◌, ◌<◌, ◌≡◌, ◌≢◌, ◌⊎◌, inl, inr, refl, sym, ◌∙◌, ◌==◌, leb, true, false,
  arith,
}
use rtv.Base.Run.{ok, panicked, and_then}
use rtv.Spinlock.{Spinlock, u16}
use rtv.Spinlock.Ticket.{IsFree}
use rtv.Heap.{
  Bytes, Heap, buddy_entries, used_tag, lock_heap, unlock_heap, buddy_try_merge, put_back,
  release_block, malloc, free,
}
use rtv.Heap.Rings.{Places}
use rtv.Heap.Layout.{block_inside, taken, Kinds, block_size, begin, block_size_min}
use rtv.Word.{sub64}
use rtv.Heap.Counting.{pool_size}
use rtv.Heap.Stock.{IsStock}
use rtv.Heap.Taking.{IsTaken, set_lock-IsStock}
use rtv.Heap.Allocation.{malloc-IsAllocation, lock_heap_lem, unlock_heap_lem}
use rtv.Heap.Coalescing.{IsFreed}
use rtv.Heap.Freeing.{IsReturn, buddy_try_merge_lem, put_back_lem}

-- What free leaves of a heap `s` with a free lock.
pub record IsRelease (bsystem : ℕ) (s s' : Heap) (kind : Kinds) (e i : ℕ) : Type 0 where
  pub kind' : Kinds
  pub pos' : Places
  pub len' : ℕ → ℕ
  pub stock : IsStock bsystem s' kind' pos' len'
  pub freed : IsFreed kind s.memory kind' s'.memory e i
  pub free_lock : IsFree s'.mm_lock

release_block_put :
    (bsystem addr e : ℕ) (s t u : Heap)
    → buddy_try_merge bsystem addr e s ≡ ok 0 s
    → put_back bsystem addr e s ≡ ok tt t
    → unlock_heap t ≡ ok tt u
    → release_block bsystem addr e s ≡ ok tt u
unfolding release_block
release_block_put bsystem addr e s t u merges puts unlock = rw (merges, puts, unlock) refl

release_block_merge :
    (bsystem addr e c : ℕ) (s t u : Heap)
    → buddy_try_merge bsystem addr e s ≡ ok c t
    → c ≢ 0
    → unlock_heap t ≡ ok tt u
    → release_block bsystem addr e s ≡ ok tt u
unfolding release_block
release_block_merge bsystem addr e c s t u merges some unlock = rw (merges, test, unlock) refl
  where
    test : c == 0 ≡ false
    test = ground arith

free_runs :
    (bsystem addr e : ℕ) (s t u : Heap)
    → addr < 2 ^ 64
    → e < buddy_entries
    → lock_heap s ≡ ok tt t
    → t.memory addr ≡ e
    → t.memory (addr + t.size e - 1) ≡ used_tag
    → release_block bsystem addr e t ≡ ok tt u
    → free bsystem (addr + 8) s ≡ ok tt u
unfolding free
free_runs bsystem addr e s t u small he lock tag used runs =
    rw (lock, back, tag, inside, test, runs) refl
  where
    back : sub64 (addr + 8) 8 ≡ addr
    back = omega arith

    inside : leb buddy_entries e ≡ false
    inside = ground arith

    test : t.memory (addr + t.size e - 1) == used_tag ≡ true
    test = ground arith

advanced : Spinlock → Spinlock
advanced l = record { next = u16 (l.next + 1); owner = l.owner }

handed_on : Spinlock → Spinlock
handed_on l = record { next = l.next; owner = u16 (l.owner + 1) }

handed_on-IsFree : (l k : Spinlock) → IsFree l → k ≡ advanced l → IsFree (handed_on k)
unfolding advanced handed_on
handed_on-IsFree l k free same = rw (same, free) refl

-- On a heap that agrees with its lists and whose lock is free, free of the address 8 bytes into a block
-- that is in use returns with the lock free again. The block is no longer in use, all others that were
-- in use still are and keep their bytes, no other one comes to them, and the heap agrees with its lists
-- again, whether the block was merged with its buddies or not.
pub free-IsRelease :
    (bsystem : ℕ) (s : Heap) (kind : Kinds) (pos : Places) (len : ℕ → ℕ) (e i : ℕ)
    → IsStock bsystem s kind pos len
    → IsFree s.mm_lock
    → e < buddy_entries
    → kind e i ≡ taken
    → (s' : Heap) × (free bsystem (begin e i + 8) s ≡ ok tt s') × IsRelease bsystem s s' kind e i
unfolding advanced handed_on
free-IsRelease bsystem s kind pos len e i st unlocked he is_taken =
    elim (buddy_try_merge_lem stock e i he is_taken) [
      | inl none ↦
          let (t, puts, back) = put_back_lem stock e i he is_taken in
          finish t back (
            release_block_put bsystem (begin e i) e locked t
              (record t { mm_lock = handed_on t.mm_lock }) none puts (unlock_heap_lem t))
      | inr (c, t, merges, some, back) ↦ finish t back (
          release_block_merge bsystem (begin e i) e c locked t
            (record t { mm_lock = handed_on t.mm_lock }) merges some (unlock_heap_lem t))
    ]
  where
    locked : Heap
    locked = record s { mm_lock = advanced s.mm_lock }

    stock : IsStock bsystem locked kind pos len
    stock = set_lock-IsStock st (advanced s.mm_lock)

    finish :
        (t : Heap)
        → IsReturn bsystem locked t kind e i
        → release_block bsystem (begin e i) e locked
          ≡ ok tt (record t { mm_lock = handed_on t.mm_lock })
        → (s' : Heap) × (free bsystem (begin e i + 8) s ≡ ok tt s')
          × IsRelease bsystem s s' kind e i
    finish t back runs =
        let (tag, first) = st.heap.used e i he is_taken in
        let inside = block_inside st.heap.layout e i (omega arith) (omega arith) in
        let pool = pool_size in
        let small : begin e i < 2 ^ 64 = omega arith in
        (
          record t { mm_lock = handed_on t.mm_lock },
          free_runs bsystem (begin e i) e s locked (record t { mm_lock = handed_on t.mm_lock })
              small he (lock_heap_lem s unlocked) first (rw (st.sizes e he) tag) runs,
          record {
            kind' = back.kind';
            pos' = back.pos';
            len' = back.len';
            stock = set_lock-IsStock back.stock (handed_on t.mm_lock);
            freed = back.freed;
            free_lock = handed_on-IsFree s.mm_lock t.mm_lock unlocked back.lock;
          },
        )

-- What malloc and then free leave: those in use are the blocks that were, with their bytes.
pub record IsUnchanged (bsystem : ℕ) (s s' : Heap) (kind : Kinds) : Type 0 where
  pub kind' : Kinds
  pub pos' : Places
  pub len' : ℕ → ℕ
  pub stock : IsStock bsystem s' kind' pos' len'
  pub free_lock : IsFree s'.mm_lock
  pub stays : (a j : ℕ) → kind a j ≡ taken → kind' a j ≡ taken
  pub adds : (a j : ℕ) → kind' a j ≡ taken → kind a j ≡ taken
  pub bytes :
      (a j q : ℕ)
      → a < buddy_entries
      → kind a j ≡ taken
      → begin a j ≤ q
      → q < begin a j + block_size a
      → s'.memory q ≡ s.memory q

-- malloc of `size` bytes on a heap that agrees with its lists and whose lock is free, for a size that
-- with its 9 bytes of tags fits the pool, panics, or free of the address that it returns returns with
-- the lock free again, the blocks in use are again those of before with the bytes that they had, and
-- the heap agrees with its lists.
pub malloc-free :
    (bsystem : ℕ) (s : Heap) (kind : Kinds) (pos : Places) (len : ℕ → ℕ) (size : ℕ)
    → IsStock bsystem s kind pos len
    → IsFree s.mm_lock
    → size + 9 ≤ 2 ^ 22
    → (malloc bsystem size s ≡ panicked)
      ⊎ (s' : Heap) × (and_then (malloc bsystem size s) (free bsystem) ≡ ok tt s')
        × IsUnchanged bsystem s s' kind
malloc-free bsystem s kind pos len size st unlocked fits =
    elim (malloc-IsAllocation bsystem s kind pos len size st unlocked fits) [
      | inl (stops, none) ↦ inl stops
      | inr (ptr, t, runs, got) ↦
          let (u, frees, gave) =
            free-IsRelease bsystem t got.kind' got.pos' got.len' got.entry got.number got.stock
              got.free_lock (got.room).inside (got.took).mine in
          let took = got.took in
          let freed = gave.freed in
          inr (
            u,
            rw (runs, got.ptr_at) frees,
            record {
              kind' = gave.kind';
              pos' = gave.pos';
              len' = gave.len';
              stock = gave.stock;
              free_lock = gave.free_lock;
              stays =
                  λ a j t. freed.stays a j (took.stays a j t) (other (got.room).inside took a j t);
              adds = λ a j t. elim (took.adds a j (freed.adds a j t)) [
                | inl old ↦ old
                | inr same ↦ absurd (freed.gone (at gave.kind' a j got.entry got.number same t))
              ];
              bytes = λ a j q ha t lo hi.
                  freed.bytes a j q ha (took.stays a j t) (other (got.room).inside took a j t) lo hi
                  ∙ took.bytes a j q ha t lo hi;
            },
          )
    ]
  where
    at : (k : Kinds) (a j b c : ℕ) → (a ≡ b) × (j ≡ c) → k a j ≡ taken → k b c ≡ taken
    at k a j b c (ab, jc) t = rw (sym ab, sym jc) t

    other :
        {kind' : Kinds} {m' : Bytes} {e i : ℕ}
        → e < buddy_entries
        → IsTaken kind s.memory kind' m' e i
        → (a j : ℕ) → kind a j ≡ taken
        → ¬ ((a ≡ e) × (j ≡ i))
    other {e = e} {i = i} inside took a j t (ae, ji) =
        let same : begin a j + block_size a ≡ begin e i + block_size e = rw (ae, ji) refl in
        let first : begin a j ≡ begin e i = rw (ae, ji) refl in
        let s = block_size_min e in let d = took.apart a j (omega arith) t in ground arith
