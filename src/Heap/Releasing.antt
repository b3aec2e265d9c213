-- ===== src/Heap/Releasing.antt =====
-- Steps of free on the heap's memory: a block leaves those in use, two halves are joined, and a block
-- comes to its list with its tag.
use native.Mathlib.Decide.{ℕ_discrete}
use rtv.Base.{
  ℕ, suc, ◌+◌, ◌*◌, ◌/◌, ◌%◌, ◌<◌, ◌≡◌, ◌≢◌, inl, refl, ◌∙◌, ◌==◌, ◌&&◌, if◌then◌else◌, arith,
}
use rtv.Bits.{store}
use rtv.Heap.{Bytes, buddy_entries, bucket, list_add}
use rtv.Heap.Links.{store-other, store-same}
use rtv.Heap.Rings.{Places, with_first, put}
use rtv.Heap.Layout.{
  covered, divided, held, taken, listed, vacant, Kinds, begin, final, block_size_min,
}
use rtv.Heap.State.{IsHeap, final-IsQuiet}
use rtv.Heap.Storing.{recolor, store-IsHeap}
use rtv.Heap.Kinds.{set_kind, set_kind_lem, set_kind-IsLayout, join, join-IsLayout}
use rtv.Heap.Linking.{list_add-IsHeap, list_add-SameBytes}
use rtv.Heap.Marking.{IsKept, IsKept_trans, set_kind-IsKept, outside_block}
use rtv.Heap.Halving.{list_add-IsKept}

pub join_lem :
    (kind : Kinds) (e i a j : ℕ)
    → join kind e i a j
      ≡ (if a == suc e && j == i then held else if a == e && j / 2 == i then covered else kind a j)
unfolding join
join_lem kind e i a j = refl

-- The kinds when a block that is held has come to its list.
abbrev pub listed_kind : Kinds → (e i : ℕ) → Kinds
listed_kind kind e i = set_kind (set_kind kind e i listed) e i vacant

module _ {bsystem : ℕ} {m : Bytes} {kind : Kinds} {pos : Places} {len : ℕ → ℕ}
    (h : IsHeap bsystem m kind pos len) (e i : ℕ) where
  at_kind : (v a j : ℕ) → kind e i ≡ v → a ≡ e → j ≡ i → kind a j ≡ v
  at_kind v a j is ae ji = rw (ae, ji) is

  pub release-IsHeap : kind e i ≡ taken → IsHeap bsystem m (set_kind kind e i held) pos len
  release-IsHeap is =
      recolor h (set_kind kind e i held)
        (set_kind-IsLayout kind e i h.layout held (omega arith) (omega arith))
        (λ a j l. ground (arith, set_kind_lem kind e i held a j, at_kind taken a j is))
        (λ a j l. ground (arith, set_kind_lem kind e i held a j))
        (λ a j ha v. h.tags a j ha (ground (arith, set_kind_lem kind e i held a j)))
        (λ a j ha t. h.used a j ha (ground (arith, set_kind_lem kind e i held a j)))

  -- A listed block whose tag is there already.
  mature-IsHeap :
      kind e i ≡ listed → m (final e i) ≡ e → IsHeap bsystem m (set_kind kind e i vacant) pos len
  mature-IsHeap is tag =
      recolor h (set_kind kind e i vacant)
        (set_kind-IsLayout kind e i h.layout vacant (omega arith) (omega arith))
        (λ a j l. ground (arith, set_kind_lem kind e i vacant a j))
        (λ a j l. ground (arith, set_kind_lem kind e i vacant a j, at_kind listed a j is)) tags
        (λ a j ha t. h.used a j ha (ground (arith, set_kind_lem kind e i vacant a j)))
    where
      tags :
          (a j : ℕ) → a < buddy_entries → set_kind kind e i vacant a j ≡ vacant → m (final a j) ≡ a
      tags a j ha v = elim (ℕ_discrete a e) [
        | yes ae ↦ elim (ℕ_discrete j i) [
          | yes ji ↦ rw (ae, ji) tag
          | no ne ↦ h.tags a j ha (ground (arith, set_kind_lem kind e i vacant a j))
        ]
        | no ne ↦ h.tags a j ha (ground (arith, set_kind_lem kind e i vacant a j))
      ]

  module _ (top : e < 17) (whole : kind (suc e) i ≡ divided) (left : kind e (i * 2) ≡ held)
      (right : kind e (i * 2 + 1) ≡ held) where
    at_whole : (a j : ℕ) → a ≡ suc e → j ≡ i → kind a j ≡ divided
    at_whole a j ae ji = rw (ae, ji) whole

    at_half : (a j : ℕ) → a ≡ e → j / 2 ≡ i → kind a j ≡ held
    at_half a j ae ji = rw ae (elim (ℕ_discrete (j % 2) 0) [
      | yes even ↦ rw (two even) left
      | no odd ↦ rw (two_one odd) right
    ])
      where
        two : j % 2 ≡ 0 → j ≡ i * 2
        two even = omega arith

        two_one : ◌≢◌ {A = ℕ} (j % 2) 0 → j ≡ i * 2 + 1
        two_one odd = omega arith

    pub join-IsHeap : IsHeap bsystem m (join kind e i) pos len
    join-IsHeap =
        recolor h (join kind e i)
          (join-IsLayout kind e i h.layout top whole (omega arith) (omega arith))
          (λ a j l. ground (arith, join_lem kind e i a j, at_whole a j, at_half a j))
          (λ a j l. ground (arith, join_lem kind e i a j))
          (λ a j ha v. h.tags a j ha (ground (arith, join_lem kind e i a j)))
          (λ a j ha t. h.used a j ha (ground (arith, join_lem kind e i a j)))

    pub join-IsKept : IsKept kind m (join kind e i) m
    join-IsKept = record {
      stays = λ a j t. ground (arith, join_lem kind e i a j, at_whole a j, at_half a j);
      adds = λ a j t. ground (arith, join_lem kind e i a j);
      bytes = λ a j q ha t lo hi. refl;
    }

-- A block that is held gets its tag and comes to its list.
module _ {bsystem : ℕ} {m : Bytes} {kind : Kinds} {pos : Places} {len : ℕ → ℕ}
    (h : IsHeap bsystem m kind pos len) (e i : ℕ) (he : e < buddy_entries)
    (is_held : kind e i ≡ held) where
  abbrev tagged : Bytes
  tagged = store m (final e i) e

  tagged-IsHeap : IsHeap bsystem tagged kind pos len
  tagged-IsHeap =
      store-IsHeap h e i (final e i) e (final-IsQuiet kind e i he (omega arith)) (inl is_held)

  pub listed-IsHeap :
      IsHeap bsystem
        (list_add (store m (final e i) e) (begin e i) (bucket bsystem e))
        (listed_kind kind e i)
        (with_first pos e (begin e i))
        (put len e (len e + 1))
  listed-IsHeap = mature-IsHeap (list_add-IsHeap tagged-IsHeap e i he is_held) e i now (
      list_add-SameBytes tagged-IsHeap e i he is_held e i (final e i)
        (final-IsQuiet (set_kind kind e i listed) e i he (omega (arith, now)))
      ∙ store-same m (final e i) e)
    where
      now : set_kind kind e i listed e i ≡ listed
      now = ground (arith, set_kind_lem kind e i listed e i)

  pub listed-IsKept :
      IsKept kind m
        (listed_kind kind e i)
        (list_add (store m (final e i) e) (begin e i) (bucket bsystem e))
  listed-IsKept =
      IsKept_trans tag_kept (IsKept_trans (list_add-IsKept tagged-IsHeap e i he is_held) recolored)
    where
      tag_kept : IsKept kind m kind tagged
      tag_kept = record {
        stays = λ a j t. t;
        adds = λ a j t. t;
        bytes = λ a j q ha t lo hi.
            let s = block_size_min e in
            store-other m (final e i) e q (
              outside_block h e i he a j q (final e i) ha (omega arith) (omega arith)
                (λ same. omega arith) (omega arith) (omega arith) lo hi);
      }

      recolored :
          IsKept
            (set_kind kind e i listed)
            (list_add tagged (begin e i) (bucket bsystem e))
            (listed_kind kind e i)
            (list_add tagged (begin e i) (bucket bsystem e))
      recolored =
          set_kind-IsKept (set_kind kind e i listed)
            (list_add tagged (begin e i) (bucket bsystem e))
            (list_add tagged (begin e i) (bucket bsystem e)) e i vacant
            (λ t. ground (arith, set_kind_lem kind e i listed e i)) (λ t. omega arith)
            (λ a j q ha t lo hi. refl)
