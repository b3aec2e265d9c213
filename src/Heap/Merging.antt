-- ===== src/Heap/Merging.antt =====
-- A merge of buddy_try_merge on the heap's memory: the buddy of a block that is held leaves its list,
-- and the block above, which the two make, comes to its own.
use native.Mathlib.Decide.{ℕ_discrete}
use rtv.Base.{
  ℕ, suc, ◌+◌, ◌-◌, ◌*◌, ◌/◌, ◌%◌, ◌≤◌, ◌<◌, ◌≡◌, ◌≢◌, ◌⊎◌, inl, inr, ltb, if◌then◌else◌, true,
  arith,
}
use rtv.Bits.{store}
use rtv.Heap.{Bytes, bucket, list_add, list_del}
use rtv.Heap.Rings.{Places, without, with_first, put}
use rtv.Heap.Layout.{
  divided, held, listed, vacant, settled, Kinds, block_size, begin, final, block_size_min,
}
use rtv.Heap.State.{IsHeap}
use rtv.Heap.Kinds.{set_kind, set_kind_lem, join}
use rtv.Heap.Unlinking.{list_del-IsHeap}
use rtv.Heap.Marking.{IsKept, IsKept_trans}
use rtv.Heap.Halving.{list_del-IsKept, left_begin}
use rtv.Heap.Releasing.{
  join_lem, join-IsHeap, join-IsKept, listed_kind, listed-IsHeap, listed-IsKept,
}
use rtv.Heap.Buddy.{sibling}

-- The lower one of two buddies begins where the block above does.
pub lower_half :
    (e i : ℕ)
    → (if ltb (begin e i) (begin e (sibling i)) then begin e i else begin e (sibling i))
      ≡ begin (suc e) (i / 2)
lower_half e i = elim (ℕ_discrete (i % 2) 0) [
  | yes even ↦
      let s = block_size_min e in
      rw (left_begin e (i / 2), next even, twice even) (lower i (block_size e) s)
  | no odd ↦
      let s = block_size_min e in
      rw (left_begin e (i / 2), before odd, twice_one odd)
        (upper (i - 1) (block_size e) s (same odd))
]
  where
    next : i % 2 ≡ 0 → sibling i ≡ i + 1
    next even = ground arith

    twice : i % 2 ≡ 0 → i / 2 * 2 ≡ i
    twice even = omega arith

    before : ◌≢◌ {A = ℕ} (i % 2) 0 → sibling i ≡ i - 1
    before odd = ground arith

    twice_one : ◌≢◌ {A = ℕ} (i % 2) 0 → i / 2 * 2 ≡ i - 1
    twice_one odd = omega arith

    same : ◌≢◌ {A = ℕ} (i % 2) 0 → i ≡ i - 1 + 1
    same odd = omega arith

    lower :
        (i b : ℕ)
        → 32 ≤ b
        → (if ltb (0x600000 + i * b) (0x600000 + (i + 1) * b)
            then 0x600000 + i * b
            else 0x600000 + (i + 1) * b)
          ≡ 0x600000 + i * b
    lower i b pos_b = let d : (i + 1) * b ≡ i * b + b = grind arith in ground arith

    upper :
        (n b : ℕ)
        → 32 ≤ b
        → i ≡ n + 1
        → (if ltb (0x600000 + i * b) (0x600000 + n * b) then 0x600000 + i * b else 0x600000 + n * b)
          ≡ 0x600000 + n * b
    upper n b pos_b is = let d : i * b ≡ n * b + b = rw is (grind arith) in ground arith

module _ {bsystem : ℕ} {m : Bytes} {kind : Kinds} {pos : Places} {len : ℕ → ℕ}
    (h : IsHeap bsystem m kind pos len) (e i : ℕ) (top : e < 17) (is_held : kind e i ≡ held)
    (free : kind e (sibling i) ≡ vacant) where
  abbrev pub apart_kind : Kinds
  apart_kind = set_kind kind e (sibling i) held

  abbrev pub joined_kind : Kinds
  joined_kind = join apart_kind e (i / 2)

  abbrev pub merged_kind : Kinds
  merged_kind = listed_kind joined_kind (suc e) (i / 2)

  pub place : (k : ℕ) × (k < len e) × (pos e (k + 1) ≡ begin e (sibling i))
  place = h.places e (sibling i) (omega arith) (omega arith)

  pub not_empty : 0 < len e
  not_empty = let lt = place.1 in omega arith

  abbrev pub fewer : ℕ → ℕ
  fewer = put len e (len e - 1)

  abbrev pub merged_len : ℕ → ℕ
  merged_len = put fewer (suc e) (fewer (suc e) + 1)

  abbrev pub merged_pos : Places
  merged_pos = with_first (without pos e place.0) (suc e) (begin (suc e) (i / 2))

  abbrev pub merged_memory : Bytes
  merged_memory =
      list_add (store (list_del m (begin e (sibling i))) (final (suc e) (i / 2)) (suc e))
        (begin (suc e) (i / 2)) (bucket bsystem (suc e))

  differ : ◌≢◌ {A = ℕ} (sibling i) i
  differ same = ground arith

  buddy_out :
      IsHeap bsystem (list_del m (begin e (sibling i))) apart_kind (without pos e place.0) fewer
  buddy_out = list_del-IsHeap h e (sibling i) (omega arith) (omega arith) place.0 place.1 place.2

  both_held : (j : ℕ) → (j ≡ i) ⊎ (j ≡ sibling i) → apart_kind e j ≡ held
  both_held j (inl same) =
      rw same (let d = differ in ground (arith, set_kind_lem kind e (sibling i) held e i))
  both_held j (inr same) =
      rw same (ground (arith, set_kind_lem kind e (sibling i) held e (sibling i)))

  left_held : apart_kind e (i / 2 * 2) ≡ held
  left_held =
      both_held (i / 2 * 2)
        (elim (ℕ_discrete (i % 2) 0) [ yes even ↦ inl (omega arith) | no odd ↦ inr (ground arith) ])

  right_held : apart_kind e (i / 2 * 2 + 1) ≡ held
  right_held =
      both_held (i / 2 * 2 + 1)
        (elim (ℕ_discrete (i % 2) 0) [ yes even ↦ inr (ground arith) | no odd ↦ inl (omega arith) ])

  above : apart_kind (suc e) (i / 2) ≡ divided
  above =
      let u = h.layout.upward e i top (omega arith) in
      ground (arith, set_kind_lem kind e (sibling i) held (suc e) (i / 2))

  joined :
      IsHeap bsystem (list_del m (begin e (sibling i))) joined_kind (without pos e place.0) fewer
  joined = join-IsHeap buddy_out e (i / 2) top above left_held right_held

  joined_held : joined_kind (suc e) (i / 2) ≡ held
  joined_held = ground (arith, join_lem apart_kind e (i / 2) (suc e) (i / 2))

  pub merged-IsHeap : IsHeap bsystem merged_memory merged_kind merged_pos merged_len
  merged-IsHeap = listed-IsHeap joined (suc e) (i / 2) (omega arith) joined_held

  pub merged-IsKept : IsKept kind m merged_kind merged_memory
  merged-IsKept =
      IsKept_trans
        (list_del-IsKept h e (sibling i) place.0 (omega arith) (omega arith) place.1 place.2)
        (IsKept_trans (join-IsKept buddy_out e (i / 2) top above left_held right_held)
          (listed-IsKept joined (suc e) (i / 2) (omega arith) joined_held))

  pub merged_vacant : merged_kind (suc e) (i / 2) ≡ vacant
  merged_vacant = ground (
    arith,
    set_kind_lem (set_kind joined_kind (suc e) (i / 2) listed) (suc e) (i / 2) vacant (suc e)
        (i / 2),
  )

  pub merged-ripe :
      ((a j : ℕ) → ¬ ((a ≡ e) × (j ≡ i)) → settled (kind a j) ≡ true)
      → (a j : ℕ) → settled (merged_kind a j) ≡ true
  merged-ripe ripe a j = elim (ℕ_discrete a e) [
    | yes ae ↦ elim (ℕ_discrete j i) [
      | yes ji ↦ ground (
        arith,
        set_kind_lem (set_kind joined_kind (suc e) (i / 2) listed) (suc e) (i / 2) vacant a j,
        set_kind_lem joined_kind (suc e) (i / 2) listed a j,
        join_lem apart_kind e (i / 2) a j,
      )
      | no ne ↦ other (λ (x, y). ne y)
    ]
    | no ne ↦ other (λ (x, y). ne x)
  ]
    where
      other : ¬ ((a ≡ e) × (j ≡ i)) → settled (merged_kind a j) ≡ true
      other ne =
          let r = ripe a j ne in
          ground (
            arith,
            set_kind_lem (set_kind joined_kind (suc e) (i / 2) listed) (suc e) (i / 2) vacant a j,
            set_kind_lem joined_kind (suc e) (i / 2) listed a j,
            join_lem apart_kind e (i / 2) a j,
            set_kind_lem kind e (sibling i) held a j,
            left_or_right,
          )
        where
          left_or_right : a ≡ e → j ≡ sibling i → j / 2 ≡ i / 2
          left_or_right ae js = ground arith
