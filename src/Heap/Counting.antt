-- ===== src/Heap/Counting.antt =====
-- No list of the heap is longer than the pool, so that no count of blocks wraps around.
use rtv.Base.{ℕ, ◌+◌, ◌-◌, ◌^◌, ◌≤◌, ◌<◌, ◌≡◌, refl, arith}
use rtv.Base.Pigeonhole.{pigeonhole}
use rtv.Heap.{malloc_base, buddy_entries}
use rtv.Heap.Rings.{Places, same_place}
use rtv.Heap.Layout.{Kinds, block_size, block_size_min, block_inside}
use rtv.Heap.State.{IsHeap}

pub pool_size : block_size 17 ≡ 2 ^ 22
unfolding block_size
pool_size = refl

pub len_max :
    {bsystem : ℕ} {m : ℕ → ℕ} {kind : Kinds} {pos : Places} {len : ℕ → ℕ}
    → IsHeap bsystem m kind pos len
    → (e : ℕ) → e < buddy_entries
    → len e ≤ 2 ^ 22
len_max {pos = pos} {len = len} h e he =
    pigeonhole (2 ^ 22) (len e) (λ k. pos e (k + 1) - malloc_base) below one
  where
    low :
        (k : ℕ) → k < len e → (malloc_base ≤ pos e (k + 1)) × (pos e (k + 1) < malloc_base + 2 ^ 22)
    low k lt =
        let (i, leaf, at) = h.members e k he lt in
        let inside = block_inside h.layout e i (omega arith) (omega arith) in
        let s = block_size_min e in let p = pool_size in (grind arith, omega arith)

    below : (k : ℕ) → k < len e → pos e (k + 1) - malloc_base < 2 ^ 22
    below k lt = let (a, b) = low k lt in omega arith

    one :
        (k j : ℕ)
        → k < len e
        → j < len e
        → pos e (k + 1) - malloc_base ≡ pos e (j + 1) - malloc_base
        → k ≡ j
    one k j lk lj same =
        let (a, b) = low k lk in
        let (a', b') = low j lj in
        let (ee, kk) =
          same_place h.rings e (k + 1) e (j + 1) he he (omega arith) (omega arith) (omega arith) in
        omega arith
