-- ===== src/Heap/Stock.antt =====
-- The heap as a whole: its memory, the counts and the sizes of its buckets. buddy_split on it.
use rtv.Base.{
  ℕ, suc, ◌+◌, ◌-◌, ◌*◌, ◌%◌, ◌^◌, ◌≤◌, ◌<◌, ◌≡◌, ◌≢◌, refl, sym, ap, ◌∙◌, ◌==◌, leb, if◌then◌else◌,
  false, true, arith,
}
use rtv.Base.Run.{ok}
use rtv.Bits.{Words, store}
use rtv.Heap.{
  Heap, malloc_base, buddy_entries, bucket, next_of, list_del, list_add, add_count, drop_count,
  buddy_split,
}
use rtv.Heap.Rings.{Places, put}
use rtv.Heap.Layout.{listed, settled, Kinds, block_size, begin, final, block_size_min}
use rtv.Heap.State.{IsHeap}
use rtv.Heap.Counting.{len_max}
use rtv.Heap.Marking.{IsKept}
use rtv.Heap.Halving.{
  left_begin, right_begin, split_kind, split_kind-ripe, split_memory, split_pos, split_len,
  split-IsHeap, split-IsKept,
}

-- The state agrees with the kinds of the blocks and with the lists; no block of a list lacks its tag,
-- and none is outside the lists without being in use.
pub record IsStock (bsystem : ℕ) (s : Heap) (kind : Kinds) (pos : Places) (len : ℕ → ℕ)
    : Type 0 where
  pub heap : IsHeap bsystem s.memory kind pos len
  pub ripe : (e i : ℕ) → settled (kind e i) ≡ true
  pub counts : (e : ℕ) → e < buddy_entries → s.count e ≡ len e
  pub sizes : (e : ℕ) → e < buddy_entries → s.size e ≡ block_size e
  pub based : s.mem_base ≡ malloc_base

pub drop_count_lem :
    (count : Words) (e a : ℕ)
    → drop_count count e a ≡ (if a == e then (count e + 2 ^ 32 - 1) % 2 ^ 32 else count a)
unfolding drop_count store
drop_count_lem count e a = ground arith

pub add_count_lem :
    (count : Words) (e n a : ℕ)
    → add_count count e n a ≡ (if a == e then (count e + n) % 2 ^ 32 else count a)
unfolding add_count store
add_count_lem count e n a = ground arith

pub put_lem : (len : ℕ → ℕ) (e n a : ℕ) → put len e n a ≡ (if a == e then n else len a)
unfolding put
put_lem len e n a = refl

-- buddy_split, with the addresses that it works out.
pub buddy_split_lem :
    (bsystem : ℕ) (s : Heap) (e l r p q : ℕ)
    → e < 17
    → next_of s.memory (bucket bsystem (suc e)) ≡ l
    → l + s.size e ≡ r
    → r - 1 ≡ p
    → p + s.size e ≡ q
    → buddy_split bsystem (suc e) s
      ≡ ok tt (record s {
        memory =
            store
              (store
                (list_add
                  (list_add (list_del s.memory l) r (bucket bsystem e))
                  l
                  (bucket bsystem e))
                p
                e)
              q
              e;
        count = add_count (drop_count s.count (suc e)) e 2;
      })
unfolding buddy_split
buddy_split_lem bsystem s e l r p q top first right post behind =
    rw (inside, first, right, post, behind) refl
  where
    inside : leb buddy_entries (suc e) ≡ false
    inside = ground arith

-- What a step leaves: a heap that keeps the blocks in use and the lock.
pub record IsStep (bsystem : ℕ) (s s' : Heap) (kind : Kinds) : Type 0 where
  pub kind' : Kinds
  pub pos' : Places
  pub len' : ℕ → ℕ
  pub stock : IsStock bsystem s' kind' pos' len'
  pub kept : IsKept kind s.memory kind' s'.memory
  pub lock : s'.mm_lock ≡ s.mm_lock

module _ {bsystem : ℕ} {s : Heap} {kind : Kinds} {pos : Places} {len : ℕ → ℕ}
    (st : IsStock bsystem s kind pos len) where
  -- The first block of a list that is not empty.
  pub first_block :
      (e : ℕ)
      → e < buddy_entries
      → s.count e ≢ 0
      → (i : ℕ) × (listed ≤ kind e i)
        × (0 < len e)
        × (pos e (0 + 1) ≡ begin e i)
        × (next_of s.memory (bucket bsystem e) ≡ begin e i)
  first_block e he some =
      let c = st.counts e he in
      let lt : 0 < len e = omega arith in
      let (i, leaf, at) = st.heap.members e 0 he lt in
      (
        i,
        leaf,
        lt,
        at,
        rw (sym (st.heap.rings.first e he)) (st.heap.rings.forward e 0 he (omega arith) ∙ at),
      )

  -- A list that is not empty gives a block to be split; the list below has two blocks more.
  pub buddy_split-IsStep :
      (e : ℕ)
      → e < 17
      → s.count (suc e) ≢ 0
      → (s' : Heap) × (buddy_split bsystem (suc e) s ≡ ok tt s')
        × IsStep bsystem s s' kind
        × (s'.count e ≡ s.count e + 2)
        × ((a : ℕ) → a < e → s'.count a ≡ s.count a)
  buddy_split-IsStep e top some =
      let (i, leaf, lt, at, next) = first_block (suc e) (omega arith) some in
      split_block i leaf lt at next
    where
      room : s.count e + 2 < 2 ^ 32
      room =
          let c = st.counts e (omega arith) in
          let m = len_max st.heap e (omega arith) in omega arith

      fits : s.count (suc e) < 2 ^ 32
      fits =
          let c = st.counts (suc e) (omega arith) in
          let m = len_max st.heap (suc e) (omega arith) in omega arith

      new_counts : Words
      new_counts = add_count (drop_count s.count (suc e)) e 2

      new_counts_lem :
          (a : ℕ)
          → new_counts a ≡ (
              if a == e
              then s.count e + 2
              else if a == suc e
              then s.count (suc e) - 1
              else s.count a)
      new_counts_lem a = ground (
        arith,
        add_count_lem (drop_count s.count (suc e)) e 2 a,
        drop_count_lem s.count (suc e) a,
        drop_count_lem s.count (suc e) e,
        room,
        fits,
        some,
      )

      split_block :
          (i : ℕ)
          → listed ≤ kind (suc e) i
          → 0 < len (suc e)
          → pos (suc e) (0 + 1) ≡ begin (suc e) i
          → next_of s.memory (bucket bsystem (suc e)) ≡ begin (suc e) i
          → (s' : Heap) × (buddy_split bsystem (suc e) s ≡ ok tt s')
            × IsStep bsystem s s' kind
            × (s'.count e ≡ s.count e + 2)
            × ((a : ℕ) → a < e → s'.count a ≡ s.count a)
      split_block i leaf lt at next = (
        record s { memory = split_memory st.heap e i top leaf lt at; count = new_counts },
        runs,
        record {
          kind' = split_kind kind e i;
          pos' = split_pos st.heap e i top leaf lt at;
          len' = split_len st.heap e i top leaf lt at;
          stock = record {
            heap = split-IsHeap st.heap e i top leaf lt at;
            ripe = split_kind-ripe kind e i st.ripe;
            counts = counts;
            sizes = st.sizes;
            based = st.based;
          };
          kept = split-IsKept st.heap e i top leaf lt at;
          lock = refl;
        },
        ground (arith, new_counts_lem e),
        λ a below. ground (arith, new_counts_lem a),
      )
        where
          size : s.size e ≡ block_size e
          size = st.sizes e (omega arith)

          runs :
              buddy_split bsystem (suc e) s
              ≡ ok tt (record s {
                memory = split_memory st.heap e i top leaf lt at;
                count = new_counts;
              })
          runs =
              buddy_split_lem bsystem s e (begin (suc e) i) (begin e (i * 2 + 1)) (final e (i * 2))
                (final e (i * 2 + 1)) top next (rw (left_begin e i, size) (right_begin e i))
                (ap (λ (n : ℕ). n - 1) (sym (right_begin e i)))
                (rw size (let b = block_size_min e in let r = right_begin e i in omega arith))
              ∙ ap
                  (λ (n : ℕ). ok tt (record s {
                    memory =
                        store
                          (store
                            (list_add
                              (list_add (list_del s.memory (begin (suc e) i)) (begin e (i * 2 + 1))
                                (bucket bsystem e))
                              n (bucket bsystem e))
                            (final e (i * 2)) e)
                          (final e (i * 2 + 1)) e;
                    count = new_counts;
                  }))
                  (left_begin e i)

          counts :
              (a : ℕ) → a < buddy_entries → new_counts a ≡ split_len st.heap e i top leaf lt at a
          counts a ha =
              let c = st.counts a ha in
              let c0 = st.counts e (omega arith) in
              let c1 = st.counts (suc e) (omega arith) in
              let l0 = put len (suc e) (len (suc e) - 1) in
              let l1 = put l0 e (l0 e + 1) in
              ground (
                arith,
                new_counts_lem a,
                put_lem l1 e (l1 e + 1) a,
                put_lem l0 e (l0 e + 1) a,
                put_lem l0 e (l0 e + 1) e,
                put_lem len (suc e) (len (suc e) - 1) a,
                put_lem len (suc e) (len (suc e) - 1) e,
              )
