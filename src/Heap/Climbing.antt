-- ===== src/Heap/Climbing.antt =====
-- The loop of buddy_try_merge from a block that is in its list: it merges as long as the buddy is free.
use native.Mathlib.Decide.{ℕ_discrete}
use rtv.Base.{ℕ, zero, suc, ◌+◌, ◌-◌, ◌/◌, ◌<◌, ◌≡◌, ◌≢◌, refl, ◌∙◌, arith}
use rtv.Base.Run.{ok}
use rtv.Heap.{Heap, drop_count, add_count, merge_up, free}
use rtv.Heap.Rings.{Places}
use rtv.Heap.Layout.{held, vacant, Kinds, begin, final}
use rtv.Heap.Kinds.{set_kind, set_kind_lem}
use rtv.Heap.Unlinking.{list_del-IsHeap}
use rtv.Heap.Counting.{len_max}
use rtv.Heap.Marking.{IsKept_trans}
use rtv.Heap.Halving.{list_del-IsKept}
use rtv.Heap.Stock.{IsStock, IsStep, drop_count_lem, put_lem}
use rtv.Heap.Searching.{IsStep-refl}
use rtv.Heap.Buddy.{sibling}
use rtv.Heap.Merging.{
  lower_half, merged_kind, merged_len, merged_pos, merged_memory, merged-IsKept, merged_vacant,
}
use rtv.Heap.Coalescing.{
  merge_next_lem, merge_up_ends, merge_up_goes, at_buddy, buddy_vacant, merged-IsStock,
}

pub sibling_other : (i : ℕ) → ◌≢◌ {A = ℕ} (sibling i) i
sibling_other i same = ground arith

-- The loop goes on from a block that is in its list.
pub merge_up_lem :
    (bsystem left n e i : ℕ) (s : Heap) (kind : Kinds) (pos : Places) (len : ℕ → ℕ)
    → IsStock bsystem s kind pos len
    → e + left ≡ 17
    → kind e i ≡ vacant
    → (c : ℕ) × (s' : Heap) × (merge_up bsystem left (n + 1) (begin e i) e s ≡ ok c s')
      × (c ≢ 0)
      × IsStep bsystem s s' kind
merge_up_lem bsystem zero n e i s kind pos len st top free =
    (n + 1, s, unfold merge_up in refl, λ z. omega arith, IsStep-refl st)
merge_up_lem bsystem (suc left) n e i s kind pos len st top free =
    elim (ℕ_discrete (s.memory (final e (sibling i))) e) [
      | no other ↦ (
        n + 1,
        s,
        merge_up_ends bsystem (suc left) (n + 1) (begin e i) e (begin e (sibling i)) s
            (at_buddy st e i (omega arith) (omega arith)) (rw (st.sizes e (omega arith)) other),
        λ z. omega arith,
        IsStep-refl st,
      )
      | yes tag ↦
          let v = buddy_vacant st e i (omega arith) (omega arith) tag in
          let (k, lt, at) = st.heap.places e i (omega arith) (omega arith) in
          let out = list_del-IsHeap st.heap e i (omega arith) (omega arith) k lt at in
          let is_held : set_kind kind e i held e i ≡ held =
            ground (arith, set_kind_lem kind e i held e i) in
          let v' : set_kind kind e i held e (sibling i) ≡ vacant =
            ground (arith, v, sibling_other i, set_kind_lem kind e i held e (sibling i)) in
          let top' : e < 17 = omega arith in
          let st' =
            merged-IsStock out e i top' is_held v' s (drop_count s.count e)
              (λ a j ne. let r = st.ripe a j in ground (arith, set_kind_lem kind e i held a j))
              (λ a ha.
                let c = st.counts a ha in
                let c0 = st.counts e (omega arith) in
                let m0 = len_max st.heap e (omega arith) in
                ground (arith, drop_count_lem s.count e a, put_lem len e (len e - 1) a))
              st.sizes st.based in
          let t : Heap = record s {
            memory = merged_memory out e i top' is_held v';
            count = add_count (drop_count (drop_count s.count e) e) (suc e) 1;
          } in
          let (c, u, runs, some, step) =
            merge_up_lem bsystem left (n + 1) (suc e) (i / 2) t
              (merged_kind out e i top' is_held v') (merged_pos out e i top' is_held v')
              (merged_len out e i top' is_held v') st' (omega arith)
              (merged_vacant out e i top' is_held v') in
          (
            c,
            u,
            merge_up_goes bsystem left (n + 1) (begin e i) e (begin e (sibling i))
                  (begin (suc e) (i / 2)) s t (at_buddy st e i (omega arith) (omega arith))
                  (rw (st.sizes e (omega arith)) tag) (lower_half e i)
                  (merge_next_lem bsystem n e (begin e i) (begin e (sibling i))
                    (begin (suc e) (i / 2)) (final (suc e) (i / 2)) s (lower_half e i)
                    (rw (st.sizes (suc e) (omega arith)) refl))
                ∙ runs,
            some,
            record {
              kind' = step.kind';
              pos' = step.pos';
              len' = step.len';
              stock = step.stock;
              kept =
                  IsKept_trans (list_del-IsKept st.heap e i k (omega arith) (omega arith) lt at)
                    (IsKept_trans (merged-IsKept out e i top' is_held v') step.kept);
              lock = step.lock;
            },
          )
    ]
