-- ===== src/Heap/Marking.antt =====
-- Tags: a listed block gets the tag of its entry, a held one is taken, a taken one is held again; and
-- a block is cut in half. What each of these leaves of the blocks in use.
use native.Mathlib.Decide.{ℕ_discrete}
use rtv.Base.{ℕ, ◌+◌, ◌≤◌, ◌<◌, ◌≡◌, ◌≢◌, inl, inr, refl, ◌∙◌, arith}
use rtv.Bits.{store}
use rtv.Heap.{Bytes, buddy_entries, used_tag}
use rtv.Heap.Links.{store-other, store-same}
use rtv.Heap.Rings.{Places}
use rtv.Heap.Layout.{
  held, taken, listed, vacant, Kinds, block_size, begin, final, block_size_min, leaves-Disjoint,
}
use rtv.Heap.State.{IsHeap, IsQuiet, final-IsQuiet, begin-IsQuiet}
use rtv.Heap.Storing.{store-IsHeap, recolor}
use rtv.Heap.Kinds.{set_kind, set_kind_lem, set_kind-IsLayout}

-- The blocks in use are the same, and so are their bytes.
pub record IsKept (kind : Kinds) (m : Bytes) (kind' : Kinds) (m' : Bytes) : Type 0 where
  pub stays : (a j : ℕ) → kind a j ≡ taken → kind' a j ≡ taken
  pub adds : (a j : ℕ) → kind' a j ≡ taken → kind a j ≡ taken
  pub bytes :
      (a j q : ℕ)
      → a < buddy_entries
      → kind a j ≡ taken
      → begin a j ≤ q
      → q < begin a j + block_size a
      → m' q ≡ m q

pub IsKept_trans :
    {kind kind' kind'' : Kinds} {m m' m'' : Bytes}
    → IsKept kind m kind' m'
    → IsKept kind' m' kind'' m''
    → IsKept kind m kind'' m''
IsKept_trans f g = record {
  stays = λ a j t. g.stays a j (f.stays a j t);
  adds = λ a j t. f.adds a j (g.adds a j t);
  bytes = λ a j q ha t lo hi. g.bytes a j q ha (f.stays a j t) lo hi ∙ f.bytes a j q ha t lo hi;
}

-- A change of a block that neither was in use nor is, where all bytes but links are as they were.
pub set_kind-IsKept :
    (kind : Kinds) (m m' : Bytes) (e i v : ℕ)
    → kind e i ≢ taken
    → v ≢ taken
    → ((a j q : ℕ)
        → a < buddy_entries
        → kind a j ≡ taken
        → begin a j ≤ q
        → q < begin a j + block_size a
        → m' q ≡ m q)
    → IsKept kind m (set_kind kind e i v) m'
set_kind-IsKept kind m m' e i v was is same = record {
  stays = λ a j t. ground (arith, set_kind_lem kind e i v a j, at a j);
  adds = λ a j t. ground (arith, set_kind_lem kind e i v a j);
  bytes = same;
}
  where
    at : (a j : ℕ) → a ≡ e → j ≡ i → kind a j ≡ kind e i
    at a j ae ji = rw (ae, ji) refl

pub taken-IsQuiet :
    (kind : Kinds) (a j q : ℕ)
    → a < buddy_entries
    → kind a j ≡ taken
    → begin a j ≤ q
    → q < begin a j + block_size a
    → IsQuiet kind a j q
taken-IsQuiet kind a j q ha t lo hi = record {
  level = ha;
  leaf = omega arith;
  from = lo;
  to = hi;
  behind = inl (omega arith);
}

module _ {bsystem : ℕ} {m : Bytes} {kind : Kinds} {pos : Places} {len : ℕ → ℕ}
    (h : IsHeap bsystem m kind pos len) (e i : ℕ) (he : e < buddy_entries) where
  at_block : (a j : ℕ) → a ≡ e → j ≡ i → kind a j ≡ kind e i
  at_block a j ae ji = rw (ae, ji) refl

  -- A byte of the block is in no other one.
  pub outside_block :
      (a j p q : ℕ)
      → a < buddy_entries
      → held ≤ kind e i
      → held ≤ kind a j
      → kind a j ≢ kind e i
      → begin e i ≤ q
      → q < begin e i + block_size e
      → begin a j ≤ p
      → p < begin a j + block_size a
      → ◌≢◌ {A = ℕ} p q
  outside_block a j p q ha leaf leaf' ne lo hi lo' hi' same =
      elim (leaves-Disjoint h.layout a j e i (omega arith) (omega arith) leaf' leaf) [
        | inl (ae, ji) ↦ ne (at_block a j ae ji)
        | inr apart ↦ omega arith
      ]

  -- The tag of a block that has come to its list.
  pub tag-IsHeap :
      kind e i ≡ listed → IsHeap bsystem (store m (final e i) e) (set_kind kind e i vacant) pos len
  tag-IsHeap is_listed =
      let stored =
        store-IsHeap h e i (final e i) e (final-IsQuiet kind e i he (omega arith))
          (inr is_listed) in
      recolor stored (set_kind kind e i vacant)
        (set_kind-IsLayout kind e i h.layout vacant (omega arith) (omega arith))
        (λ a j l. ground (arith, set_kind_lem kind e i vacant a j))
        (λ a j l. ground (arith, set_kind_lem kind e i vacant a j, at_block a j)) tags
        (λ a j ha t. stored.used a j ha (ground (arith, set_kind_lem kind e i vacant a j)))
    where
      tags :
          (a j : ℕ)
          → a < buddy_entries
          → set_kind kind e i vacant a j ≡ vacant
          → store m (final e i) e (final a j) ≡ a
      tags a j ha is_vacant = elim (ℕ_discrete a e) [
        | yes ae ↦ elim (ℕ_discrete j i) [
          | yes ji ↦ rw (ae, ji) (store-same m (final e i) e)
          | no ne ↦ old (ground (arith, set_kind_lem kind e i vacant a j))
        ]
        | no ne ↦ old (ground (arith, set_kind_lem kind e i vacant a j))
      ]
        where
          old : kind a j ≡ vacant → store m (final e i) e (final a j) ≡ a
          old v =
              let s = block_size_min e in
              let s' = block_size_min a in
              store-other m (final e i) e (final a j) (
                outside_block a j (final a j) (final e i) ha (omega arith) (omega arith)
                  (λ same. omega arith) (omega arith) (omega arith) (omega arith) (omega arith))
              ∙ h.tags a j ha v

  pub tag-IsKept :
      kind e i ≡ listed → IsKept kind m (set_kind kind e i vacant) (store m (final e i) e)
  tag-IsKept is_listed =
      set_kind-IsKept kind m (store m (final e i) e) e i vacant (λ t. omega arith)
        (λ t. omega arith)
        (λ a j q ha t lo hi.
          let s = block_size_min e in
          store-other m (final e i) e q (
            outside_block a j q (final e i) ha (omega arith) (omega arith) (λ same. omega arith)
              (omega arith) (omega arith) lo hi))

  -- The block that malloc returns gets the byte of its entry, and the tag USED.
  pub take-IsHeap :
      kind e i ≡ held
      → IsHeap bsystem
          (store (store m (begin e i) e) (final e i) used_tag)
          (set_kind kind e i taken)
          pos
          len
  take-IsHeap is_held =
      let s = block_size_min e in
      let first =
        store-IsHeap h e i (begin e i) e (begin-IsQuiet kind e i he (omega arith) (omega arith))
          (inl is_held) in
      let both =
        store-IsHeap first e i (final e i) used_tag (final-IsQuiet kind e i he (omega arith))
          (inl is_held) in
      recolor both (set_kind kind e i taken)
        (set_kind-IsLayout kind e i h.layout taken (omega arith) (omega arith))
        (λ a j l. ground (arith, set_kind_lem kind e i taken a j, at_block a j))
        (λ a j l. ground (arith, set_kind_lem kind e i taken a j))
        (λ a j ha v. both.tags a j ha (ground (arith, set_kind_lem kind e i taken a j))) used
    where
      used :
          (a j : ℕ)
          → a < buddy_entries
          → set_kind kind e i taken a j ≡ taken
          → (store (store m (begin e i) e) (final e i) used_tag (final a j) ≡ used_tag)
            × (store (store m (begin e i) e) (final e i) used_tag (begin a j) ≡ a)
      used a j ha is_taken = elim (ℕ_discrete a e) [
        | yes ae ↦ elim (ℕ_discrete j i) [
          | yes ji ↦ rw (ae, ji) mine
          | no ne ↦ old (ground (arith, set_kind_lem kind e i taken a j))
        ]
        | no ne ↦ old (ground (arith, set_kind_lem kind e i taken a j))
      ]
        where
          mine :
              (store (store m (begin e i) e) (final e i) used_tag (final e i) ≡ used_tag)
              × (store (store m (begin e i) e) (final e i) used_tag (begin e i) ≡ e)
          mine =
              let s = block_size_min e in
              (
                store-same (store m (begin e i) e) (final e i) used_tag,
                store-other (store m (begin e i) e) (final e i) used_tag (begin e i) (omega arith)
                    ∙ store-same m (begin e i) e,
              )

          kept :
              (q : ℕ)
              → kind a j ≡ taken
              → begin a j ≤ q
              → q < begin a j + block_size a
              → store (store m (begin e i) e) (final e i) used_tag q ≡ m q
          kept q t lo hi =
              let s = block_size_min e in
              store-other (store m (begin e i) e) (final e i) used_tag q (
                outside_block a j q (final e i) ha (omega arith) (omega arith) (λ same. omega arith)
                  (omega arith) (omega arith) lo hi)
              ∙ store-other m (begin e i) e q (
                  outside_block a j q (begin e i) ha (omega arith) (omega arith)
                    (λ same. omega arith) (omega arith) (omega arith) lo hi)

          old :
              kind a j ≡ taken
              → (store (store m (begin e i) e) (final e i) used_tag (final a j) ≡ used_tag)
                × (store (store m (begin e i) e) (final e i) used_tag (begin a j) ≡ a)
          old t =
              let s = block_size_min a in
              let (u, b) = h.used a j ha t in
              (
                kept (final a j) t (omega arith) (omega arith) ∙ u,
                kept (begin a j) t (omega arith) (omega arith) ∙ b,
              )
