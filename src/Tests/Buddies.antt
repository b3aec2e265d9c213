-- ===== src/Tests/Buddies.antt =====
-- The kernel heap that malloc_init leaves, and what malloc makes of it.
use rtv.Base.{ℕ, ◌+◌, ◌≤◌, ◌<◌, ◌≡◌, ◌≢◌, ◌⊎◌, inl, inr, refl, true, arith}
use rtv.Base.Run.{ok, panicked, and_then, on_part}
use rtv.Bits.{store}
use rtv.Physical.Defs.{initial}
use rtv.Heap.{Heap, malloc_base, buddy_entries, used_tag, bucket, malloc, free}
use rtv.Heap.Rings.{with_first, put}
use rtv.Heap.Layout.{taken, settled, Kinds, block_size, begin, final}
use rtv.Heap.Kinds.{set_kind, set_kind_lem}
use rtv.Heap.Marking.{take-IsHeap}
use rtv.Heap.Stock.{IsStock}
use rtv.Heap.Allocation.{IsAllocation, malloc-IsAllocation}
use rtv.Heap.Release.{IsRelease, IsUnchanged, free-IsRelease, malloc-free}
use rtv.Heap.Initial.{
  Pool, map_pool, malloc_init, init_buckets, add_initial, IsEmpty, init_buckets_lem,
}
use rtv.Heap.Starting.{
  pool_held, pool_held_cases, pool_held_lem, pool_vacant, held-IsHeap, pool_held-at,
  malloc_init-IsStock, add_initial-init_buckets,
}

abbrev blank : Heap
blank = record {
  memory = λ _. 0;
  count = λ _. 0;
  size = λ _. 0;
  mem_base = 0;
  mm_lock = record { next = 3; owner = 3 };
}

abbrev bare_pool : Pool
bare_pool = record {
  heap = blank;
  machine = record {
    frames = λ _ _. 0;
    root = 0;
    pg_lock = record { next = 0; owner = 0 };
    phys = initial;
  };
}

malloc_init-IsStock_example :
    (heap : Heap) × (malloc_init 0x200000 bare_pool
      ≡ on_part (λ t. t.machine) (λ m t. record { heap = heap; machine = m }) map_pool bare_pool)
    × IsStock 0x200000 heap pool_vacant
        (with_first (λ e k. bucket 0x200000 e) 17 (begin 17 0))
        (put (λ e. 0) 17 1)
    × ((e i : ℕ) → pool_vacant e i ≢ taken)
    × (heap.count 17 ≡ 1)
malloc_init-IsStock_example = malloc_init-IsStock 0x200000 bare_pool (omega arith)

abbrev fresh : Heap
fresh = add_initial 0x200000 (init_buckets 0x200000 buddy_entries 0 blank)

fresh-IsStock :
    IsStock 0x200000 fresh pool_vacant
      (with_first (λ e k. bucket 0x200000 e) 17 (begin 17 0))
      (put (λ e. 0) 17 1)
fresh-IsStock = add_initial-init_buckets 0x200000 (omega arith) blank

fresh_lock : fresh.mm_lock.next ≡ fresh.mm_lock.owner
unfolding add_initial init_buckets
fresh_lock = refl

malloc-IsAllocation_example :
    ((malloc 0x200000 100 fresh ≡ panicked)
      × ((a : ℕ) → a < buddy_entries → 100 + 9 ≤ block_size a → fresh.count a ≡ 0))
    ⊎ (ptr : ℕ) × (s' : Heap) × (malloc 0x200000 100 fresh ≡ ok ptr s')
      × IsAllocation 0x200000 fresh s' pool_vacant 100 ptr
malloc-IsAllocation_example =
    malloc-IsAllocation 0x200000 fresh pool_vacant
      (with_first (λ e k. bucket 0x200000 e) 17 (begin 17 0)) (put (λ e. 0) 17 1) 100 fresh-IsStock
      fresh_lock (omega arith)

malloc-free_example :
    (malloc 0x200000 100 fresh ≡ panicked)
    ⊎ (s' : Heap) × (and_then (malloc 0x200000 100 fresh) (free 0x200000) ≡ ok tt s')
      × IsUnchanged 0x200000 fresh s' pool_vacant
malloc-free_example =
    malloc-free 0x200000 fresh pool_vacant (with_first (λ e k. bucket 0x200000 e) 17 (begin 17 0))
      (put (λ e. 0) 17 1) 100 fresh-IsStock fresh_lock (omega arith)

-- The pool as one block that is in use.
abbrev emptied : Heap
emptied = init_buckets 0x200000 buddy_entries 0 blank

abbrev full : Heap
full = record emptied {
  memory = store (store emptied.memory (begin 17 0) 17) (final 17 0) used_tag;
  mem_base = malloc_base;
}

emptied-IsEmpty : (e : ℕ) → e < buddy_entries → IsEmpty 0x200000 emptied e
emptied-IsEmpty =
    init_buckets_lem 0x200000 (omega arith) buddy_entries 0 blank (omega arith)
      (λ e lt. absurd (omega arith))

abbrev full_kind : Kinds
full_kind = set_kind pool_held 17 0 taken

full_kind-at : full_kind 17 0 ≡ taken
full_kind-at = ground (arith, set_kind_lem pool_held 17 0 taken 17 0)

full_kind-settled : (e i : ℕ) → settled (full_kind e i) ≡ true
full_kind-settled e i = elim (pool_held_cases e i) [
  | inl is ↦ ground (arith, set_kind_lem pool_held 17 0 taken e i, pool_held_lem e i is)
  | inr is ↦ ground (arith, set_kind_lem pool_held 17 0 taken e i)
]

full-IsStock : IsStock 0x200000 full full_kind (λ e k. bucket 0x200000 e) (λ e. 0)
full-IsStock = record {
  heap =
      take-IsHeap (held-IsHeap 0x200000 (omega arith) emptied emptied-IsEmpty) 17 0 (omega arith)
        (pool_held-at 0x200000 (omega arith) emptied emptied-IsEmpty);
  ripe = full_kind-settled;
  counts = λ e he. (emptied-IsEmpty e he).none;
  sizes = λ e he. (emptied-IsEmpty e he).size;
  based = refl;
}

full_lock : full.mm_lock.next ≡ full.mm_lock.owner
unfolding init_buckets
full_lock = refl

free-IsRelease_example :
    (s' : Heap) × (free 0x200000 (begin 17 0 + 8) full ≡ ok tt s')
    × IsRelease 0x200000 full s' full_kind 17 0
free-IsRelease_example =
    free-IsRelease 0x200000 full full_kind (λ e k. bucket 0x200000 e) (λ e. 0) 17 0 full-IsStock
      full_lock (omega arith) full_kind-at
