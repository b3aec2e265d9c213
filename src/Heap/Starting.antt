-- ===== src/Heap/Starting.antt =====
-- malloc_init leaves a heap that agrees with its lists.
use native.Mathlib.Decide.{ℕ_discrete}
use rtv.Base.{ℕ, suc, ◌+◌, ◌*◌, ◌≤◌, ◌<◌, ◌≡◌, ◌≢◌, ◌⊎◌, inl, inr, refl, true, arith}
use rtv.Base.Run.{Run, ok, panicked, faulted, spinning, out_of_fuel, on_part}
use rtv.Bits.{store}
use rtv.Vm.Tables.{Machine}
use rtv.Heap.{Heap, malloc_base, buddy_entries, bucket}
use rtv.Heap.Rings.{Places, with_first, put}
use rtv.Heap.Layout.{
  covered, held, taken, listed, vacant, Kinds, settled, block_size, begin, IsLayout,
}
use rtv.Heap.State.{IsHeap}
use rtv.Heap.Kinds.{set_kind, set_kind_lem}
use rtv.Heap.Linking.{list_add-IsHeap}
use rtv.Heap.Marking.{tag-IsHeap}
use rtv.Heap.Stock.{IsStock, put_lem}
use rtv.Heap.Initial.{
  Pool, init_buckets, map_pool, add_initial, malloc_init, IsEmpty, init_buckets_lem,
}

-- All blocks but the whole pool are covered.
unfoldable pub nothing : Kinds
nothing e i = covered

abbrev pub pool_held : Kinds
pool_held = set_kind nothing 17 0 held

abbrev pub pool_listed : Kinds
pool_listed = set_kind pool_held 17 0 listed

abbrev pub pool_vacant : Kinds
pool_vacant = set_kind pool_listed 17 0 vacant

pub pool_held_lem : (e i : ℕ) → pool_held e i ≡ held → (e ≡ 17) × (i ≡ 0)
unfolding nothing
pool_held_lem e i h = let s = set_kind_lem nothing 17 0 held e i in (ground arith, ground arith)

pub pool_held_cases : (e i : ℕ) → (pool_held e i ≡ held) ⊎ (pool_held e i ≡ covered)
unfolding nothing set_kind
pool_held_cases e i = ground arith

pool_held-IsLayout : IsLayout pool_held
pool_held-IsLayout = record {
  root = λ i h. elim (pool_held_cases 17 i) [
    | inl is ↦ (pool_held_lem 17 i is).1
    | inr is ↦ absurd (omega arith)
  ];
  upward = λ e i lt h. elim (pool_held_cases e i) [
    | inl is ↦ let (a, b) = pool_held_lem e i is in absurd (omega arith)
    | inr is ↦ absurd (omega arith)
  ];
  downward = λ e i j lt h at. elim (pool_held_cases (suc e) i) [
    | inl is ↦ absurd (omega arith)
    | inr is ↦ absurd (omega arith)
  ];
  bottom = λ i h. elim (pool_held_cases 0 i) [
    | inl is ↦ absurd (omega arith)
    | inr is ↦ absurd (omega arith)
  ];
}

module _ (bsystem : ℕ) (placed : bsystem + 24 * buddy_entries ≤ malloc_base) (s : Heap)
    (empty : (e : ℕ) → e < buddy_entries → IsEmpty bsystem s e) where
  abbrev pub heads : Places
  heads = λ e k. bucket bsystem e

  -- The pool as one block that is in no list yet.
  pub held-IsHeap : IsHeap bsystem s.memory pool_held heads (λ e. 0)
  held-IsHeap = record {
    placed = placed;
    rings = record {
      first = λ e he. refl;
      last = λ e he. refl;
      forward = λ e k he hk. let b = empty e he in b.next;
      backward = λ e k he hk. let b = empty e he in b.prev;
      small = λ e k he hk. omega arith;
      apart = λ e k e' k' he he' hk hk'. elim (ℕ_discrete e e') [
        | yes same ↦ inl (same, omega arith)
        | no ne ↦ inr (ground arith)
      ];
    };
    layout = pool_held-IsLayout;
    members = λ e k he hk. absurd (omega arith);
    places = λ e i he l. elim (pool_held_cases e i) [
      | inl is ↦ absurd (omega arith)
      | inr is ↦ absurd (omega arith)
    ];
    tags = λ e i he v. elim (pool_held_cases e i) [
      | inl is ↦ absurd (omega arith)
      | inr is ↦ absurd (omega arith)
    ];
    used = λ e i he t. elim (pool_held_cases e i) [
      | inl is ↦ absurd (omega arith)
      | inr is ↦ absurd (omega arith)
    ];
  }

  pub pool_held-at : pool_held 17 0 ≡ held
  pool_held-at = ground (arith, set_kind_lem nothing 17 0 held 17 0)

  pool_listed-at : pool_listed 17 0 ≡ listed
  pool_listed-at = ground (arith, set_kind_lem pool_held 17 0 listed 17 0)

  abbrev pub pool_len : ℕ → ℕ
  pool_len = put (λ e. 0) 17 1

  pool_begin : begin 17 0 ≡ malloc_base
  unfolding block_size
  pool_begin = refl

  pub add_initial-IsStock :
      IsStock bsystem
        (add_initial bsystem s)
        pool_vacant
        (with_first heads 17 (begin 17 0))
        pool_len
  unfolding add_initial block_size
  add_initial-IsStock = record {
    heap = rw (last.size) (
        rw pool_begin at (
          tag-IsHeap (list_add-IsHeap held-IsHeap 17 0 (omega arith) pool_held-at) 17 0
            (omega arith) pool_listed-at));
    ripe = ripe;
    counts = λ e he.
        let b = (empty e he).none in unfold store in ground (arith, put_lem (λ e. 0) 17 1 e);
    sizes = λ e he. (empty e he).size;
    based = refl;
  }
    where
      last : IsEmpty bsystem s 17
      last = empty 17 (omega arith)

      ripe : (e i : ℕ) → settled (pool_vacant e i) ≡ true
      ripe e i = elim (pool_held_cases e i) [
        | inl is ↦ ground (
          arith,
          pool_held_lem e i is,
          set_kind_lem pool_listed 17 0 vacant e i,
          set_kind_lem pool_held 17 0 listed e i,
        )
        | inr is ↦ ground (
          arith,
          set_kind_lem pool_listed 17 0 vacant e i,
          set_kind_lem pool_held 17 0 listed e i,
        )
      ]

-- The heap that the loop over the buckets and the initial block make.
pub add_initial-init_buckets :
    (bsystem : ℕ)
    → bsystem + 24 * buddy_entries ≤ malloc_base
    → (s : Heap)
    → IsStock bsystem
        (add_initial bsystem (init_buckets bsystem buddy_entries 0 s))
        pool_vacant
        (with_first (λ e k. bucket bsystem e) 17 (begin 17 0))
        (put (λ e. 0) 17 1)
add_initial-init_buckets bsystem placed s =
    add_initial-IsStock bsystem placed (init_buckets bsystem buddy_entries 0 s) (
      init_buckets_lem bsystem placed buddy_entries 0 s (omega arith)
        (λ e lt. absurd (omega arith)))

-- malloc_init does what its mapping of the pool does, and where that returns, the heap that it leaves
-- agrees with its lists: the whole pool is one free block of the largest entry, and no block is in use.
pub malloc_init-IsStock :
    (bsystem : ℕ) (s : Pool)
    → bsystem + 24 * buddy_entries ≤ malloc_base
    → (heap : Heap) × (malloc_init bsystem s
        ≡ on_part (λ t. t.machine) (λ m t. record { heap = heap; machine = m }) map_pool s)
      × IsStock bsystem heap pool_vacant
          (with_first (λ e k. bucket bsystem e) 17 (begin 17 0))
          (put (λ e. 0) 17 1)
      × ((e i : ℕ) → pool_vacant e i ≢ taken)
      × (heap.count 17 ≡ 1)
malloc_init-IsStock bsystem s placed = (
  add_initial bsystem ready,
  runs (map_pool s.machine) refl,
  add_initial-init_buckets bsystem placed s.heap,
  none_taken,
  one,
)
  where
    ready : Heap
    ready = init_buckets bsystem buddy_entries 0 s.heap

    runs :
        (r : Run Machine (Unit {0}))
        → map_pool s.machine ≡ r
        → malloc_init bsystem s
          ≡ on_part
              (λ t. t.machine)
              (λ m t. record { heap = add_initial bsystem ready; machine = m })
              map_pool
              s
    runs (ok a m) e = unfold malloc_init in rw (on_part, e) refl
    runs panicked e = unfold malloc_init in rw (on_part, e) refl
    runs faulted e = unfold malloc_init in rw (on_part, e) refl
    runs spinning e = unfold malloc_init in rw (on_part, e) refl
    runs out_of_fuel e = unfold malloc_init in rw (on_part, e) refl

    none_taken : (e i : ℕ) → pool_vacant e i ≢ taken
    none_taken e i same = ground (
      arith,
      pool_held_cases e i,
      set_kind_lem pool_listed 17 0 vacant e i,
      set_kind_lem pool_held 17 0 listed e i,
    )

    one : (add_initial bsystem ready).count 17 ≡ 1
    one = unfold add_initial store in refl
