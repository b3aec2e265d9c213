-- ===== src/Heap/Taking.antt =====
-- The end of malloc: the first block of a list is taken.
use native.Mathlib.Decide.{ℕ_discrete}
use rtv.Base.{ℕ, ◌+◌, ◌-◌, ◌≤◌, ◌<◌, ◌≡◌, ◌≢◌, ◌⊎◌, inl, inr, refl, ◌∙◌, true, arith}
use rtv.Base.Run.{ok}
use rtv.Bits.{store}
use rtv.Spinlock.{Spinlock}
use rtv.Heap.{
  Bytes, Heap, buddy_entries, used_tag, bucket, next_of, list_del, drop_count, take_first,
}
use rtv.Heap.Rings.{Places, without, put}
use rtv.Heap.Layout.{
  held, taken, listed, settled, Kinds, block_size, begin, final, block_size_min, leaves-Disjoint,
}
use rtv.Heap.State.{IsHeap}
use rtv.Heap.Kinds.{set_kind, set_kind_lem}
use rtv.Heap.Unlinking.{list_del-IsHeap}
use rtv.Heap.Links.{store-other}
use rtv.Heap.Counting.{len_max}
use rtv.Heap.Marking.{take-IsHeap}
use rtv.Heap.Halving.{list_del-IsKept}
use rtv.Heap.Stock.{IsStock, first_block, drop_count_lem, put_lem}

-- Block `i` of entry `e` has come to those in use, which share no byte with it and keep theirs.
pub record IsTaken (kind : Kinds) (m : Bytes) (kind' : Kinds) (m' : Bytes) (e i : ℕ) : Type 0 where
  pub mine : kind' e i ≡ taken
  pub stays : (a j : ℕ) → kind a j ≡ taken → kind' a j ≡ taken
  pub adds : (a j : ℕ) → kind' a j ≡ taken → (kind a j ≡ taken) ⊎ ((a ≡ e) × (j ≡ i))
  pub apart :
      (a j : ℕ)
      → a < buddy_entries
      → kind a j ≡ taken
      → (begin e i + block_size e ≤ begin a j) ⊎ (begin a j + block_size a ≤ begin e i)
  pub bytes :
      (a j q : ℕ)
      → a < buddy_entries
      → kind a j ≡ taken
      → begin a j ≤ q
      → q < begin a j + block_size a
      → m' q ≡ m q

take_first_runs :
    (bsystem : ℕ) (s : Heap) (e l : ℕ)
    → next_of s.memory (bucket bsystem e) ≡ l
    → s.size e ≡ block_size e
    → take_first bsystem e s
      ≡ ok (l + 8) (record s {
        memory = store (store (list_del s.memory l) l e) (l + block_size e - 1) used_tag;
        count = drop_count s.count e;
      })
unfolding take_first
take_first_runs bsystem s e l first size = rw (first, size) refl

module _ {bsystem : ℕ} {s : Heap} {kind : Kinds} {pos : Places} {len : ℕ → ℕ}
    (st : IsStock bsystem s kind pos len) where
  pub set_lock-IsStock : (l : Spinlock) → IsStock bsystem (record s { mm_lock = l }) kind pos len
  set_lock-IsStock l = record {
    heap = st.heap;
    ripe = st.ripe;
    counts = st.counts;
    sizes = st.sizes;
    based = st.based;
  }

  module _ (e : ℕ) (he : e < buddy_entries) (some : s.count e ≢ 0) where
    found :
        (i : ℕ) × (listed ≤ kind e i)
        × (0 < len e)
        × (pos e (0 + 1) ≡ begin e i)
        × (next_of s.memory (bucket bsystem e) ≡ begin e i)
    found = first_block st e he some

    abbrev number : ℕ
    number = found.0

    abbrev taken_kind : Kinds
    taken_kind = set_kind (set_kind kind e number held) e number taken

    abbrev taken_state : Heap
    taken_state = record s {
      memory =
          store (store (list_del s.memory (begin e number)) (begin e number) e) (final e number)
            used_tag;
      count = drop_count s.count e;
    }

    now_held : set_kind kind e number held e number ≡ held
    now_held = ground (arith, set_kind_lem kind e number held e number)

    out :
        IsHeap bsystem
          (list_del s.memory (begin e number))
          (set_kind kind e number held)
          (without pos e 0)
          (put len e (len e - 1))
    out = list_del-IsHeap st.heap e number he found.1 0 found.2 found.3

    pub take_first_lem :
        (i : ℕ) × (s' : Heap) × (kind' : Kinds) × (take_first bsystem e s ≡ ok (begin e i + 8) s')
        × IsStock bsystem s' kind' (without pos e 0) (put len e (len e - 1))
        × IsTaken kind s.memory kind' s'.memory e i
        × (s'.mm_lock ≡ s.mm_lock)
    take_first_lem = (
      number,
      taken_state,
      taken_kind,
      runs,
      record {
        heap = take-IsHeap out e number he now_held;
        ripe = ripe;
        counts = counts;
        sizes = st.sizes;
        based = st.based;
      },
      record {
        mine = ground (arith, set_kind_lem (set_kind kind e number held) e number taken e number);
        stays = λ a j t. ground (
          arith,
          set_kind_lem (set_kind kind e number held) e number taken a j,
          set_kind_lem kind e number held a j,
        );
        adds = adds;
        apart = apart;
        bytes = bytes;
      },
      refl,
    )
      where
        runs : take_first bsystem e s ≡ ok (begin e number + 8) taken_state
        runs = take_first_runs bsystem s e (begin e number) found.4 (st.sizes e he)

        ripe : (a j : ℕ) → settled (taken_kind a j) ≡ true
        ripe a j = ground (
          arith,
          st.ripe a j,
          set_kind_lem (set_kind kind e number held) e number taken a j,
          set_kind_lem kind e number held a j,
        )

        counts : (a : ℕ) → a < buddy_entries → drop_count s.count e a ≡ put len e (len e - 1) a
        counts a ha =
            let c = st.counts a ha in
            let c0 = st.counts e he in
            let m = len_max st.heap e he in
            ground (arith, drop_count_lem s.count e a, put_lem len e (len e - 1) a)

        adds : (a j : ℕ) → taken_kind a j ≡ taken → (kind a j ≡ taken) ⊎ ((a ≡ e) × (j ≡ number))
        adds a j t = elim (ℕ_discrete a e) [
          | yes ae ↦ elim (ℕ_discrete j number) [
            | yes ji ↦ inr (ae, ji)
            | no ne ↦ inl (old (λ (x, y). ne y))
          ]
          | no ne ↦ inl (old (λ (x, y). ne x))
        ]
          where
            old : ¬ ((a ≡ e) × (j ≡ number)) → kind a j ≡ taken
            old ne = ground (
              arith,
              ne,
              set_kind_lem (set_kind kind e number held) e number taken a j,
              set_kind_lem kind e number held a j,
            )

        apart :
            (a j : ℕ)
            → a < buddy_entries
            → kind a j ≡ taken
            → (begin e number + block_size e ≤ begin a j)
              ⊎ (begin a j + block_size a ≤ begin e number)
        apart a j ha t =
            elim (leaves-Disjoint st.heap.layout e number a j (omega arith) (omega arith)
              (let l = found.1 in omega arith) (omega arith)) [
                | inl (ea, ij) ↦
                    let k : kind e number ≡ kind a j = rw (ea, ij) refl in
                    let l = found.1 in absurd (omega arith)
                | inr d ↦ d
              ]

        bytes :
            (a j q : ℕ)
            → a < buddy_entries
            → kind a j ≡ taken
            → begin a j ≤ q
            → q < begin a j + block_size a
            → taken_state.memory q ≡ s.memory q
        bytes a j q ha t lo hi =
            let d = apart a j ha t in
            let z = block_size_min e in
            let unlinked = list_del-IsKept st.heap e number 0 he found.1 found.2 found.3 in
            store-other (store (list_del s.memory (begin e number)) (begin e number) e)
              (final e number) used_tag q (λ same. ground (arith, d))
            ∙ store-other (list_del s.memory (begin e number)) (begin e number) e q
                (λ same. ground (arith, d))
            ∙ unlinked.bytes a j q ha t lo hi
