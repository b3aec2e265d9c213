-- ===== src/Heap/Initial.antt =====
-- kernel/mm/malloc.c: malloc_init, which maps the pool and puts it into its list as one block.
use native.Mathlib.Decide.{ℕ_discrete}
use native.Mathlib.Nat.{pow-suc}
use rtv.Base.{
  ℕ, zero, suc, ◌+◌, ◌-◌, ◌*◌, ◌^◌, ◌≤◌, ◌<◌, ◌≡◌, refl, ap, ◌∙◌, ◌==◌, if◌then◌else◌, arith,
}
use rtv.Base.Run.{ok, panicked, Cmd, pure, ◌>>=◌, ◌>>◌, on_part}
use rtv.Bits.{store}
use rtv.Vm.Defs.{large_pg_size}
use rtv.Physical.Blocks.{alloc_phys_frames_aligned}
use rtv.Vm.Tables.{Machine, vm_map_large_page_unrestricted}
use rtv.Heap.{
  Bytes, Heap, malloc_base, buddy_entries, buddy_min_order, buddy_max_order, bucket, write64,
  next_of, prev_of, init_list_head, list_add,
}
use rtv.Heap.Links.{read64-same, read64-elsewhere}
use rtv.Heap.Layout.{block_size}

-- The heap, and what the page tables and the frames are made of.
pub record Pool : Type 0 where
  pub heap : Heap
  pub machine : Machine

-- The first loop, from bucket `i` on with `left` buckets to go.
unfoldable pub init_buckets : (bsystem left i : ℕ) → Heap → Heap
init_buckets bsystem zero i s = s
init_buckets bsystem (suc left) i s = init_buckets bsystem left (i + 1) (record s {
  count = store s.count i 0;
  size = store s.size i (2 ^ (i + buddy_min_order));
  memory = init_list_head s.memory (bucket bsystem i);
})

-- The loop that maps the large pages of the pool, whose size is not below that of a large page.
unfoldable pub map_pages : (pages paddr vaddr : ℕ) → Cmd Machine (Unit {0})
map_pages zero paddr vaddr = pure tt
map_pages (suc pages) paddr vaddr = do
  vm_map_large_page_unrestricted paddr 0x8000000000000083 vaddr
  map_pages pages (paddr + large_pg_size) (vaddr + large_pg_size)

unfoldable pub map_pool : Cmd Machine (Unit {0})
map_pool = do
  paddr ←
      on_part (λ s. s.phys) (λ p s. record s { phys = p })
        (alloc_phys_frames_aligned 1024 large_pg_size)
  if paddr == 0 then (λ s. panicked) else map_pages 2 paddr malloc_base

-- The initial block.
unfoldable pub add_initial : (bsystem : ℕ) → Heap → Heap
add_initial bsystem s =
    let entry = buddy_max_order - buddy_min_order in
    let linked = list_add s.memory malloc_base (bucket bsystem entry) in
    record s {
      mem_base = malloc_base;
      count = store s.count entry 1;
      memory = store linked (malloc_base + s.size entry - 1) entry;
    }

unfoldable pub malloc_init : ℕ → Cmd Pool (Unit {0})
malloc_init bsystem = do
  λ s. ok tt (record s { heap = init_buckets bsystem buddy_entries 0 s.heap })
  on_part (λ s. s.machine) (λ m s. record s { machine = m }) map_pool
  λ s. ok tt (record s { heap = add_initial bsystem s.heap })

-- A bucket whose list is empty.
pub record IsEmpty (bsystem : ℕ) (s : Heap) (e : ℕ) : Type 0 where
  pub next : next_of s.memory (bucket bsystem e) ≡ bucket bsystem e
  pub prev : prev_of s.memory (bucket bsystem e) ≡ bucket bsystem e
  pub none : s.count e ≡ 0
  pub size : s.size e ≡ block_size e

order_size : (e : ℕ) → 2 ^ (e + buddy_min_order) ≡ block_size e
unfolding block_size
order_size zero = refl
order_size (suc e) = ap (λ (n : ℕ). 2 ^ n) (move e) ∙ omega (arith, order_size e, pow-suc 2 (e + 5))
  where
    move : (e : ℕ) → suc e + buddy_min_order ≡ suc (e + 5)
    move e = omega arith

module _ (bsystem : ℕ) (placed : bsystem + 24 * buddy_entries ≤ malloc_base) where
  next-head :
      (m : Bytes) (i e : ℕ)
      → i < buddy_entries
      → e < buddy_entries
      → next_of (init_list_head m (bucket bsystem i)) (bucket bsystem e)
        ≡ (if e == i then bucket bsystem i else next_of m (bucket bsystem e))
  unfolding init_list_head
  next-head m i e hi he = elim (ℕ_discrete e i) [
    | yes same ↦ rw same (
        read64-elsewhere (write64 m (bucket bsystem i) (bucket bsystem i)) (bucket bsystem i + 8)
          (bucket bsystem i) (bucket bsystem i) (ground arith)
        ∙ read64-same m (bucket bsystem i) (bucket bsystem i) (ground arith)
        ∙ ground arith)
    | no ne ↦
        read64-elsewhere (write64 m (bucket bsystem i) (bucket bsystem i)) (bucket bsystem i + 8)
          (bucket bsystem i) (bucket bsystem e) (ground arith)
        ∙ read64-elsewhere m (bucket bsystem i) (bucket bsystem i) (bucket bsystem e) (ground arith)
        ∙ ground arith
  ]

  prev-head :
      (m : Bytes) (i e : ℕ)
      → i < buddy_entries
      → e < buddy_entries
      → prev_of (init_list_head m (bucket bsystem i)) (bucket bsystem e)
        ≡ (if e == i then bucket bsystem i else prev_of m (bucket bsystem e))
  unfolding init_list_head
  prev-head m i e hi he = elim (ℕ_discrete e i) [
    | yes same ↦ rw same (
        read64-same (write64 m (bucket bsystem i) (bucket bsystem i)) (bucket bsystem i + 8)
          (bucket bsystem i) (ground arith)
        ∙ ground arith)
    | no ne ↦
        read64-elsewhere (write64 m (bucket bsystem i) (bucket bsystem i)) (bucket bsystem i + 8)
          (bucket bsystem i) (bucket bsystem e + 8) (ground arith)
        ∙ read64-elsewhere m (bucket bsystem i) (bucket bsystem i) (bucket bsystem e + 8)
            (ground arith)
        ∙ ground arith
  ]

  init_bucket : ℕ → Heap → Heap
  init_bucket i s = record s {
    count = store s.count i 0;
    size = store s.size i (2 ^ (i + buddy_min_order));
    memory = init_list_head s.memory (bucket bsystem i);
  }

  init_bucket-same : (i : ℕ) (s : Heap) → i < buddy_entries → IsEmpty bsystem (init_bucket i s) i
  unfolding init_bucket store
  init_bucket-same i s hi = record {
    next = next-head s.memory i i hi hi ∙ ground arith;
    prev = prev-head s.memory i i hi hi ∙ ground arith;
    none = ground arith;
    size = ground (arith, order_size i);
  }

  init_bucket-other :
      (i e : ℕ) (s : Heap)
      → i < buddy_entries
      → e < i
      → IsEmpty bsystem s e
      → IsEmpty bsystem (init_bucket i s) e
  unfolding init_bucket store
  init_bucket-other i e s hi lt old = record {
    next = let o = old.next in next-head s.memory i e hi (omega arith) ∙ ground arith;
    prev = let o = old.prev in prev-head s.memory i e hi (omega arith) ∙ ground arith;
    none = let o = old.none in ground arith;
    size = let o = old.size in ground arith;
  }

  pub init_buckets_lem :
      (left i : ℕ) (s : Heap)
      → i + left ≡ buddy_entries
      → ((e : ℕ) → e < i → IsEmpty bsystem s e)
      → (e : ℕ) → e < buddy_entries
      → IsEmpty bsystem (init_buckets bsystem left i s) e
  unfolding init_buckets init_bucket
  init_buckets_lem zero i s all below e he = below e (omega arith)
  init_buckets_lem (suc left) i s all below e he =
      init_buckets_lem left (i + 1) (init_bucket i s) (omega arith)
        (λ a lt. elim (ℕ_discrete a i) [
          | yes same ↦ rw same (init_bucket-same i s (omega arith))
          | no ne ↦ init_bucket-other i a s (omega arith) (omega arith) (below a (omega arith))
        ])
        e he
