-- ===== src/Heap/Halving.antt =====
-- buddy_split on the heap's memory: a block leaves its list, and its halves come to theirs, tagged.
use native.Mathlib.Decide.{ℕ_discrete}
use rtv.Base.{
  ℕ, suc, ◌+◌, ◌-◌, ◌*◌, ◌/◌, ◌≤◌, ◌<◌, ◌≡◌, refl, ◌==◌, ◌&&◌, if◌then◌else◌, true, arith,
}
use rtv.Bits.{store}
use rtv.Heap.{Bytes, buddy_entries, bucket, list_del, list_add}
use rtv.Heap.Rings.{Places, without, with_first, put}
use rtv.Heap.Layout.{
  covered, divided, held, taken, listed, vacant, settled, Kinds, block_size, block_size-suc, begin,
  final,
}
use rtv.Heap.State.{IsHeap}
use rtv.Heap.Storing.{recolor}
use rtv.Heap.Kinds.{set_kind, set_kind_lem, halve, halve-IsLayout}
use rtv.Heap.Unlinking.{list_del-IsHeap, list_del-SameBytes}
use rtv.Heap.Linking.{list_add-IsHeap, list_add-SameBytes}
use rtv.Heap.Marking.{IsKept, IsKept_trans, set_kind-IsKept, taken-IsQuiet, tag-IsHeap, tag-IsKept}

pub halve_lem :
    (kind : Kinds) (e i a j : ℕ)
    → halve kind e i a j
      ≡ (if a == suc e && j == i then divided else if a == e && j / 2 == i then held else kind a j)
unfolding halve
halve_lem kind e i a j = refl

module _ {bsystem : ℕ} {m : Bytes} {kind : Kinds} {pos : Places} {len : ℕ → ℕ}
    (h : IsHeap bsystem m kind pos len) where
  -- A block that is taken out of its list, or put in.
  pub list_del-IsKept :
      (e i k : ℕ)
      → e < buddy_entries
      → listed ≤ kind e i
      → k < len e
      → pos e (k + 1) ≡ begin e i
      → IsKept kind m (set_kind kind e i held) (list_del m (begin e i))
  list_del-IsKept e i k he leaf lt at =
      set_kind-IsKept kind m (list_del m (begin e i)) e i held (λ t. omega arith) (λ t. omega arith)
        (λ a j q ha t lo hi.
          list_del-SameBytes h e i he leaf k lt at a j q (taken-IsQuiet kind a j q ha t lo hi))

  pub list_add-IsKept :
      (e i : ℕ)
      → e < buddy_entries
      → kind e i ≡ held
      → IsKept kind m (set_kind kind e i listed) (list_add m (begin e i) (bucket bsystem e))
  list_add-IsKept e i he is_held =
      set_kind-IsKept kind m (list_add m (begin e i) (bucket bsystem e)) e i listed
        (λ t. omega arith) (λ t. omega arith)
        (λ a j q ha t lo hi.
          list_add-SameBytes h e i he is_held a j q
            (taken-IsQuiet (set_kind kind e i listed) a j q ha (new_kind a j t) lo hi))
    where
      at : (a j : ℕ) → a ≡ e → j ≡ i → kind a j ≡ kind e i
      at a j ae ji = rw (ae, ji) refl

      new_kind : (a j : ℕ) → kind a j ≡ taken → set_kind kind e i listed a j ≡ taken
      new_kind a j t = ground (arith, set_kind_lem kind e i listed a j, at a j)

  module _ (e i : ℕ) (top : e < 17) (whole : kind (suc e) i ≡ held) where
    at_whole : (a j : ℕ) → a ≡ suc e → j ≡ i → kind a j ≡ held
    at_whole a j ae ji = rw (ae, ji) whole

    -- The halves of a block that is not divided are covered.
    half_covered : (a j : ℕ) → a ≡ e → j / 2 ≡ i → kind a j ≡ covered
    half_covered a j ae ji = elim (ℕ_discrete (kind a j) covered) [
      | yes c ↦ c
      | no ne ↦
          let u = h.layout.upward a j (omega arith) (omega arith) in
          let w = at_whole (suc a) (j / 2) (omega arith) ji in absurd (omega arith)
    ]

    pub halve-IsHeap : IsHeap bsystem m (halve kind e i) pos len
    halve-IsHeap =
        recolor h (halve kind e i) (halve-IsLayout kind e i h.layout top (omega arith))
          (λ a j l. ground (arith, halve_lem kind e i a j, at_whole a j, half_covered a j))
          (λ a j l. ground (arith, halve_lem kind e i a j))
          (λ a j ha v. h.tags a j ha (ground (arith, halve_lem kind e i a j)))
          (λ a j ha t. h.used a j ha (ground (arith, halve_lem kind e i a j)))

    pub halve-IsKept : IsKept kind m (halve kind e i) m
    halve-IsKept = record {
      stays = λ a j t. ground (arith, halve_lem kind e i a j, at_whole a j, half_covered a j);
      adds = λ a j t. ground (arith, halve_lem kind e i a j);
      bytes = λ a j q ha t lo hi. refl;
    }

-- The kinds while a block of `suc e` is split.
module _ (kind : Kinds) (e i : ℕ) where
  abbrev pub cut_kind : Kinds
  cut_kind = halve (set_kind kind (suc e) i held) e i

  abbrev pub right_kind : Kinds
  right_kind = set_kind cut_kind e (i * 2 + 1) listed

  abbrev pub left_kind : Kinds
  left_kind = set_kind right_kind e (i * 2) listed

  abbrev pub tag_kind : Kinds
  tag_kind = set_kind left_kind e (i * 2) vacant

  abbrev pub split_kind : Kinds
  split_kind = set_kind tag_kind e (i * 2 + 1) vacant

  cut_kind-whole : set_kind kind (suc e) i held (suc e) i ≡ held
  cut_kind-whole = ground (arith, set_kind_lem kind (suc e) i held (suc e) i)

  cut_kind-right : cut_kind e (i * 2 + 1) ≡ held
  cut_kind-right = ground (arith, halve_lem (set_kind kind (suc e) i held) e i e (i * 2 + 1))

  right_kind-left : right_kind e (i * 2) ≡ held
  right_kind-left = ground (
    arith,
    halve_lem (set_kind kind (suc e) i held) e i e (i * 2),
    set_kind_lem cut_kind e (i * 2 + 1) listed e (i * 2),
  )

  left_kind-left : left_kind e (i * 2) ≡ listed
  left_kind-left = ground (arith, set_kind_lem right_kind e (i * 2) listed e (i * 2))

  tag_kind-right : tag_kind e (i * 2 + 1) ≡ listed
  tag_kind-right = ground (
    arith,
    set_kind_lem left_kind e (i * 2) vacant e (i * 2 + 1),
    set_kind_lem right_kind e (i * 2) listed e (i * 2 + 1),
    set_kind_lem cut_kind e (i * 2 + 1) listed e (i * 2 + 1),
  )

  -- No block is left in a list without its tag.
  pub split_kind-ripe :
      ((a j : ℕ) → settled (kind a j) ≡ true) → (a j : ℕ) → settled (split_kind a j) ≡ true
  split_kind-ripe ripe a j = ground (
    arith,
    ripe a j,
    set_kind_lem tag_kind e (i * 2 + 1) vacant a j,
    set_kind_lem left_kind e (i * 2) vacant a j,
    set_kind_lem right_kind e (i * 2) listed a j,
    set_kind_lem cut_kind e (i * 2 + 1) listed a j,
    halve_lem (set_kind kind (suc e) i held) e i a j,
    set_kind_lem kind (suc e) i held a j,
  )

-- The left half begins where the whole does, and the right one behind it.
pub left_begin : (e i : ℕ) → begin (suc e) i ≡ begin e (i * 2)
left_begin e i = rw (block_size-suc e) (grind arith)

pub right_begin : (e i : ℕ) → begin e (i * 2) + block_size e ≡ begin e (i * 2 + 1)
right_begin e i = grind arith

module _ {bsystem : ℕ} {m : Bytes} {kind : Kinds} {pos : Places} {len : ℕ → ℕ}
    (h : IsHeap bsystem m kind pos len) (e i : ℕ) (top : e < 17) (leaf : listed ≤ kind (suc e) i)
    (lt : 0 < len (suc e)) (at : pos (suc e) (0 + 1) ≡ begin (suc e) i) where
  abbrev taken_out : Bytes
  taken_out = list_del m (begin (suc e) i)

  abbrev right_in : Bytes
  right_in = list_add taken_out (begin e (i * 2 + 1)) (bucket bsystem e)

  abbrev left_in : Bytes
  left_in = list_add right_in (begin e (i * 2)) (bucket bsystem e)

  abbrev left_tagged : Bytes
  left_tagged = store left_in (final e (i * 2)) e

  abbrev pub split_memory : Bytes
  split_memory = store left_tagged (final e (i * 2 + 1)) e

  abbrev pub shorter : ℕ → ℕ
  shorter = put len (suc e) (len (suc e) - 1)

  abbrev pub longer : ℕ → ℕ
  longer = put shorter e (shorter e + 1)

  abbrev pub split_len : ℕ → ℕ
  split_len = put longer e (longer e + 1)

  abbrev pub split_pos : Places
  split_pos =
      with_first (with_first (without pos (suc e) 0) e (begin e (i * 2 + 1))) e (begin e (i * 2))

  out : IsHeap bsystem taken_out (set_kind kind (suc e) i held) (without pos (suc e) 0) shorter
  out = list_del-IsHeap h (suc e) i (omega arith) leaf 0 lt at

  cut : IsHeap bsystem taken_out (cut_kind kind e i) (without pos (suc e) 0) shorter
  cut = halve-IsHeap out e i top (cut_kind-whole kind e i)

  right :
      IsHeap bsystem right_in
        (right_kind kind e i)
        (with_first (without pos (suc e) 0) e (begin e (i * 2 + 1)))
        longer
  right = list_add-IsHeap cut e (i * 2 + 1) (omega arith) (cut_kind-right kind e i)

  left : IsHeap bsystem left_in (left_kind kind e i) split_pos split_len
  left = list_add-IsHeap right e (i * 2) (omega arith) (right_kind-left kind e i)

  left_tag : IsHeap bsystem left_tagged (tag_kind kind e i) split_pos split_len
  left_tag = tag-IsHeap left e (i * 2) (omega arith) (left_kind-left kind e i)

  pub split-IsHeap : IsHeap bsystem split_memory (split_kind kind e i) split_pos split_len
  split-IsHeap = tag-IsHeap left_tag e (i * 2 + 1) (omega arith) (tag_kind-right kind e i)

  pub split-IsKept : IsKept kind m (split_kind kind e i) split_memory
  split-IsKept = IsKept_trans (list_del-IsKept h (suc e) i 0 (omega arith) leaf lt at) (
      IsKept_trans (halve-IsKept out e i top (cut_kind-whole kind e i)) (
        IsKept_trans (list_add-IsKept cut e (i * 2 + 1) (omega arith) (cut_kind-right kind e i)) (
          IsKept_trans (list_add-IsKept right e (i * 2) (omega arith) (right_kind-left kind e i)) (
            IsKept_trans (tag-IsKept left e (i * 2) (omega arith) (left_kind-left kind e i))
              (tag-IsKept left_tag e (i * 2 + 1) (omega arith) (tag_kind-right kind e i))))))
