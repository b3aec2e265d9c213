-- ===== src/Heap/Freeing.antt =====
-- free: the block leaves those in use, merged with its buddies as far as they are free.
use native.Mathlib.Decide.{ℕ_discrete}
use rtv.Base.{
  ℕ, zero, suc, ◌+◌, ◌-◌, ◌/◌, ◌<◌, ◌≡◌, ◌≢◌, ◌⊎◌, inl, inr, refl, ◌∙◌, ◌==◌, true, false, arith,
}
use rtv.Base.Run.{ok}
use rtv.Bits.{store}
use rtv.Heap.{
  Heap, buddy_entries, bucket, list_add, drop_count, add_count, merge_up, buddy_try_merge, put_back,
}
use rtv.Heap.Rings.{Places, with_first, put}
use rtv.Heap.Layout.{held, taken, listed, vacant, settled, Kinds, begin, final}
use rtv.Heap.State.{IsHeap}
use rtv.Heap.Kinds.{set_kind, set_kind_lem}
use rtv.Heap.Counting.{len_max}
use rtv.Heap.Marking.{IsKept_trans}
use rtv.Heap.Stock.{IsStock, add_count_lem, put_lem}
use rtv.Heap.Buddy.{sibling}
use rtv.Heap.Releasing.{release-IsHeap, listed_kind, listed-IsHeap, listed-IsKept}
use rtv.Heap.Merging.{
  lower_half, merged_kind, merged_len, merged_pos, merged_memory, merged-IsKept, merged_vacant,
}
use rtv.Heap.Coalescing.{
  IsFreed, release-IsFreed, IsFreed-IsKept, merge_first_lem, merge_up_ends, merge_up_goes, at_buddy,
  buddy_vacant, merged-IsStock,
}
use rtv.Heap.Climbing.{sibling_other, merge_up_lem}

-- The heap when a block that was in use has left those in use.
pub record IsReturn (bsystem : ℕ) (s s' : Heap) (kind : Kinds) (e i : ℕ) : Type 0 where
  pub kind' : Kinds
  pub pos' : Places
  pub len' : ℕ → ℕ
  pub stock : IsStock bsystem s' kind' pos' len'
  pub freed : IsFreed kind s.memory kind' s'.memory e i
  pub lock : s'.mm_lock ≡ s.mm_lock

module _ {bsystem : ℕ} {s : Heap} {kind : Kinds} {pos : Places} {len : ℕ → ℕ}
    (st : IsStock bsystem s kind pos len) (e i : ℕ) (he : e < buddy_entries)
    (is_taken : kind e i ≡ taken) where
  out : IsHeap bsystem s.memory (set_kind kind e i held) pos len
  out = release-IsHeap st.heap e i is_taken

  is_held : set_kind kind e i held e i ≡ held
  is_held = ground (arith, set_kind_lem kind e i held e i)

  out-ripe : (a j : ℕ) → ¬ ((a ≡ e) × (j ≡ i)) → settled (set_kind kind e i held a j) ≡ true
  out-ripe a j ne = let r = st.ripe a j in ground (arith, ne, set_kind_lem kind e i held a j)

  -- The first merge, and those that follow.
  merge_up_first :
      (left : ℕ)
      → e + suc left ≡ 17
      → s.memory (final e (sibling i)) ≡ e
      → (c : ℕ) × (s' : Heap) × (merge_up bsystem (suc left) 0 (begin e i) e s ≡ ok c s')
        × (c ≢ 0)
        × IsReturn bsystem s s' kind e i
  merge_up_first left level tag =
      let top : e < 17 = omega arith in
      let v = buddy_vacant st e i (omega arith) top tag in
      let v' : set_kind kind e i held e (sibling i) ≡ vacant =
        ground (arith, v, sibling_other i, set_kind_lem kind e i held e (sibling i)) in
      let t : Heap = record s {
        memory = merged_memory out e i top is_held v';
        count = add_count (drop_count s.count e) (suc e) 1;
      } in
      let (c, u, runs, some, step) =
        merge_up_lem bsystem left 0 (suc e) (i / 2) t (merged_kind out e i top is_held v')
          (merged_pos out e i top is_held v') (merged_len out e i top is_held v')
          (merged-IsStock out e i top is_held v' s s.count out-ripe st.counts st.sizes st.based)
          (omega arith) (merged_vacant out e i top is_held v') in
      (
        c,
        u,
        merge_up_goes bsystem left 0 (begin e i) e (begin e (sibling i)) (begin (suc e) (i / 2)) s t
              (at_buddy st e i (omega arith) he) (rw (st.sizes e he) tag) (lower_half e i)
              (merge_first_lem bsystem e (begin e i) (begin e (sibling i)) (begin (suc e) (i / 2))
                (final (suc e) (i / 2)) s (lower_half e i)
                (rw (st.sizes (suc e) (omega arith)) refl))
            ∙ runs,
        some,
        record {
          kind' = step.kind';
          pos' = step.pos';
          len' = step.len';
          stock = step.stock;
          freed =
              IsFreed-IsKept (release-IsFreed kind s.memory e i)
                (IsKept_trans (merged-IsKept out e i top is_held v') step.kept);
          lock = step.lock;
        },
      )

  merge_up_once :
      (left : ℕ)
      → e + left ≡ 17
      → (merge_up bsystem left 0 (begin e i) e s ≡ ok 0 s)
        ⊎ (c : ℕ) × (s' : Heap) × (merge_up bsystem left 0 (begin e i) e s ≡ ok c s')
          × (c ≢ 0)
          × IsReturn bsystem s s' kind e i
  merge_up_once zero level = inl (unfold merge_up in refl)
  merge_up_once (suc left) level = elim (ℕ_discrete (s.memory (final e (sibling i))) e) [
    | yes tag ↦ inr (merge_up_first left level tag)
    | no other ↦ inl (
        merge_up_ends bsystem (suc left) 0 (begin e i) e (begin e (sibling i)) s
          (at_buddy st e i (omega arith) he) (rw (st.sizes e he) other))
  ]

  pub buddy_try_merge_lem :
      (buddy_try_merge bsystem (begin e i) e s ≡ ok 0 s)
      ⊎ (c : ℕ) × (s' : Heap) × (buddy_try_merge bsystem (begin e i) e s ≡ ok c s')
        × (c ≢ 0)
        × IsReturn bsystem s s' kind e i
  unfolding buddy_try_merge
  buddy_try_merge_lem = elim (ℕ_discrete (s.count e) 0) [
    | yes none ↦ inl (rw (empty none) refl)
    | no some ↦ rw (full some) (merge_up_once (17 - e) (omega arith))
  ]
    where
      empty : s.count e ≡ 0 → s.count e == 0 ≡ true
      empty none = ground arith

      full : s.count e ≢ 0 → s.count e == 0 ≡ false
      full some = ground arith

  pub put_back_lem :
      (s' : Heap) × (put_back bsystem (begin e i) e s ≡ ok tt s') × IsReturn bsystem s s' kind e i
  unfolding put_back
  put_back_lem = (
    record s {
      memory = list_add (store s.memory (final e i) e) (begin e i) (bucket bsystem e);
      count = add_count s.count e 1;
    },
    rw (st.sizes e he) refl,
    record {
      kind' = listed_kind (set_kind kind e i held) e i;
      pos' = with_first pos e (begin e i);
      len' = put len e (len e + 1);
      stock = record {
        heap = listed-IsHeap out e i he is_held;
        ripe = ripe;
        counts = λ a ha.
            let c = st.counts a ha in
            let c0 = st.counts e he in
            let m = len_max st.heap e he in
            ground (arith, add_count_lem s.count e 1 a, put_lem len e (len e + 1) a);
        sizes = st.sizes;
        based = st.based;
      };
      freed = IsFreed-IsKept (release-IsFreed kind s.memory e i) (listed-IsKept out e i he is_held);
      lock = refl;
    },
  )
    where
      ripe : (a j : ℕ) → settled (listed_kind (set_kind kind e i held) e i a j) ≡ true
      ripe a j =
          let r = st.ripe a j in
          ground (
            arith,
            set_kind_lem (set_kind (set_kind kind e i held) e i listed) e i vacant a j,
            set_kind_lem (set_kind kind e i held) e i listed a j,
            set_kind_lem kind e i held a j,
          )
