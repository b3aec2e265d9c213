-- ===== src/Heap/Coalescing.antt =====
-- buddy_try_merge on the heap as a whole.
use rtv.Base.{
  ℕ, zero, suc, ◌+◌, ◌-◌, ◌/◌, ◌≤◌, ◌<◌, ◌≡◌, ◌≢◌, inl, inr, refl, ◌∙◌, ◌==◌, ltb, if◌then◌else◌,
  true, false, arith,
}
use rtv.Base.Run.{ok}
use rtv.Bits.{Words, store}
use rtv.Heap.{
  Bytes, Heap, malloc_base, buddy_entries, bucket, list_add, list_del, add_count, drop_count, merge,
  buddy_of, merge_up,
}
use rtv.Heap.Rings.{Places, put}
use rtv.Heap.Layout.{
  covered, held, taken, vacant, settled, Kinds, block_size, begin, final, block_inside,
}
use rtv.Heap.State.{IsHeap}
use rtv.Heap.Kinds.{set_kind, set_kind_lem}
use rtv.Heap.Counting.{len_max, pool_size}
use rtv.Heap.Marking.{IsKept}
use rtv.Heap.Stock.{IsStock, add_count_lem, drop_count_lem, put_lem}
use rtv.Heap.Searching.{block_size_max}
use rtv.Heap.Buddy.{sibling, buddy_of_lem}
use rtv.Heap.Tagged.{final_tag}
use rtv.Heap.Merging.{
  merged_kind, merged_len, merged_pos, merged_memory, not_empty, merged-IsHeap, merged-ripe,
}

-- A block has left those in use; the others are as they were.
pub record IsFreed (kind : Kinds) (m : Bytes) (kind' : Kinds) (m' : Bytes) (e i : ℕ) : Type 0 where
  pub gone : kind' e i ≢ taken
  pub stays : (a j : ℕ) → kind a j ≡ taken → ¬ ((a ≡ e) × (j ≡ i)) → kind' a j ≡ taken
  pub adds : (a j : ℕ) → kind' a j ≡ taken → kind a j ≡ taken
  pub bytes :
      (a j q : ℕ)
      → a < buddy_entries
      → kind a j ≡ taken
      → ¬ ((a ≡ e) × (j ≡ i))
      → begin a j ≤ q
      → q < begin a j + block_size a
      → m' q ≡ m q

pub release-IsFreed :
    (kind : Kinds) (m : Bytes) (e i : ℕ) → IsFreed kind m (set_kind kind e i held) m e i
release-IsFreed kind m e i = record {
  gone = λ t. ground (arith, set_kind_lem kind e i held e i);
  stays = λ a j t ne. ground (arith, set_kind_lem kind e i held a j, ne);
  adds = λ a j t. ground (arith, set_kind_lem kind e i held a j);
  bytes = λ a j q ha t ne lo hi. refl;
}

pub IsFreed-IsKept :
    {kind kind' kind'' : Kinds} {m m' m'' : Bytes} {e i : ℕ}
    → IsFreed kind m kind' m' e i
    → IsKept kind' m' kind'' m''
    → IsFreed kind m kind'' m'' e i
IsFreed-IsKept {e = e} {i = i} f g = record {
  gone = λ t. f.gone (g.adds e i t);
  stays = λ a j t ne. g.stays a j (f.stays a j t ne);
  adds = λ a j t. f.adds a j (g.adds a j t);
  bytes = λ a j q ha t ne lo hi.
      g.bytes a j q ha (f.stays a j t ne) lo hi ∙ f.bytes a j q ha t ne lo hi;
}

plus_one : (e : ℕ) → e + 1 ≡ suc e
plus_one e = omega arith

-- `merge`, with the addresses that it works out.
pub merge_first_lem :
    (bsystem e l b p q : ℕ) (s : Heap)
    → (if ltb l b then l else b) ≡ p
    → p + s.size (suc e) - 1 ≡ q
    → merge bsystem 0 l b e s ≡ record s {
      memory = list_add (store (list_del s.memory b) q (suc e)) p (bucket bsystem (suc e));
      count = add_count (drop_count s.count e) (suc e) 1;
    }
unfolding merge
merge_first_lem bsystem e l b p q s lower tag = rw (plus_one e, lower, tag) refl

pub merge_next_lem :
    (bsystem n e l b p q : ℕ) (s : Heap)
    → (if ltb l b then l else b) ≡ p
    → p + s.size (suc e) - 1 ≡ q
    → merge bsystem (n + 1) l b e s ≡ record s {
      memory =
          list_add (store (list_del (list_del s.memory l) b) q (suc e)) p (bucket bsystem (suc e));
      count = add_count (drop_count (drop_count s.count e) e) (suc e) 1;
    }
unfolding merge
merge_next_lem bsystem n e l b p q s lower tag = rw (plus_one e, later, lower, tag) refl
  where
    later : ltb 0 (n + 1) ≡ true
    later = ground arith

-- A round of the loop.
pub merge_up_ends :
    (bsystem left n l e b : ℕ) (s : Heap)
    → buddy_of bsystem s l e ≡ b
    → s.memory (b + s.size e - 1) ≢ e
    → merge_up bsystem left n l e s ≡ ok n s
unfolding merge_up
merge_up_ends bsystem zero n l e b s buddy other = refl
merge_up_ends bsystem (suc left) n l e b s buddy other = rw (buddy, test) refl
  where
    test : s.memory (b + s.size e - 1) == e ≡ false
    test = ground arith

pub merge_up_goes :
    (bsystem left n l e b p : ℕ) (s t : Heap)
    → buddy_of bsystem s l e ≡ b
    → s.memory (b + s.size e - 1) ≡ e
    → (if ltb l b then l else b) ≡ p
    → merge bsystem n l b e s ≡ t
    → merge_up bsystem (suc left) n l e s ≡ merge_up bsystem left (n + 1) p (suc e) t
unfolding merge_up
merge_up_goes bsystem left n l e b p s t buddy tag lower merged =
    rw (buddy, test, lower, merged, plus_one e) refl
  where
    test : s.memory (b + s.size e - 1) == e ≡ true
    test = ground arith

module _ {bsystem : ℕ} {s : Heap} {kind : Kinds} {pos : Places} {len : ℕ → ℕ}
    (st : IsStock bsystem s kind pos len) (e i : ℕ) (in_use : covered < kind e i) where
  pub at_buddy : e < buddy_entries → buddy_of bsystem s (begin e i) e ≡ begin e (sibling i)
  at_buddy he =
      let b = block_inside st.heap.layout e i (omega arith) in_use in
      let p = pool_size in
      let m = block_size_max e (omega arith) in
      buddy_of_lem bsystem s e i st.based (st.sizes e he) (omega arith)

  -- The tag of the buddy is its entry only if it is free as a whole.
  pub buddy_vacant : e < 17 → s.memory (final e (sibling i)) ≡ e → kind e (sibling i) ≡ vacant
  buddy_vacant top tag =
      let above = st.heap.layout.upward e i top in_use in
      let there = st.heap.layout.downward e (i / 2) (sibling i) top above (ground arith) in
      elim (final_tag st.heap (λ a j k. let r = st.ripe a j in ground arith)
        (λ a j k. let r = st.ripe a j in ground arith) (λ a j. let r = st.ripe a j in ground arith)
        e (sibling i) (omega arith) there) [
          | inl u ↦ absurd (omega arith)
          | inr (inl lt) ↦ absurd (omega arith)
          | inr (inr (eq, v)) ↦ v
        ]

-- The heap after a merge, from one where the block is held, and the counts that fit its lists.
module _ {bsystem : ℕ} {m : Bytes} {kind : Kinds} {pos : Places} {len : ℕ → ℕ}
    (h : IsHeap bsystem m kind pos len) (e i : ℕ) (top : e < 17) (is_held : kind e i ≡ held)
    (free : kind e (sibling i) ≡ vacant) where
  pub merged-IsStock :
      (s : Heap) (count : Words)
      → ((a j : ℕ) → ¬ ((a ≡ e) × (j ≡ i)) → settled (kind a j) ≡ true)
      → ((a : ℕ) → a < buddy_entries → count a ≡ len a)
      → ((a : ℕ) → a < buddy_entries → s.size a ≡ block_size a)
      → s.mem_base ≡ malloc_base
      → IsStock bsystem
          (record s {
            memory = merged_memory h e i top is_held free;
            count = add_count (drop_count count e) (suc e) 1;
          })
          (merged_kind h e i top is_held free)
          (merged_pos h e i top is_held free)
          (merged_len h e i top is_held free)
  merged-IsStock s count ripe counts sizes based = record {
    heap = merged-IsHeap h e i top is_held free;
    ripe = merged-ripe h e i top is_held free ripe;
    counts = λ a ha.
        let l0 = put len e (len e - 1) in
        let some = not_empty h e i top is_held free in
        let c = counts a ha in
        let c0 = counts e (omega arith) in
        let c1 = counts (suc e) (omega arith) in
        let m0 = len_max h e (omega arith) in
        let m1 = len_max h (suc e) (omega arith) in
        ground (
          arith,
          add_count_lem (drop_count count e) (suc e) 1 a,
          drop_count_lem count e a,
          drop_count_lem count e (suc e),
          put_lem l0 (suc e) (l0 (suc e) + 1) a,
          put_lem len e (len e - 1) a,
          put_lem len e (len e - 1) (suc e),
        );
    sizes = sizes;
    based = based;
  }
