-- ===== src/Heap/Linking.antt =====
-- list_add on the heap: a block that is held comes first in its list.
use native.Mathlib.Decide.{ℕ_discrete}
use rtv.Base.{
  ℕ, ◌+◌, ◌-◌, ◌^◌, ◌≤◌, ◌<◌, ◌≡◌, ◌≢◌, ◌⊎◌, inl, inr, refl, sym, ap, ◌∙◌, ◌==◌, if◌then◌else◌,
  arith,
}
use rtv.Heap.{Bytes, buddy_entries, bucket, list_add}
use rtv.Heap.Links.{Apart, link-outside}
use rtv.Heap.Rings.{Places, with_first, put, small_follow, follow_lem, follow}
use rtv.Heap.Adding.{list_add-Rings, list_add_lem}
use rtv.Heap.Layout.{
  held, taken, listed, vacant, Kinds, block_size, begin, final, block_size_min, leaves-Disjoint,
  block_inside,
}
use rtv.Heap.State.{
  IsHeap, IsQuiet, SameBytes, quiet-Apart, held-Apart, final-IsQuiet, begin-IsQuiet,
}
use rtv.Heap.Kinds.{set_kind, set_kind_lem, set_kind-IsLayout}

module _ {bsystem : ℕ} {m : Bytes} {kind : Kinds} {pos : Places} {len : ℕ → ℕ}
    (h : IsHeap bsystem m kind pos len) (e i : ℕ) (he : e < buddy_entries)
    (is_held : kind e i ≡ held) where
  abbrev kind' : Kinds
  kind' = set_kind kind e i listed

  small_begin : begin e i < 2 ^ 64
  small_begin =
      let b = block_inside h.layout e i (omega arith) (omega arith) in
      let s = pool_size in omega arith
    where
      pool_size : block_size 17 ≡ 2 ^ 22
      pool_size = unfold block_size in refl

  far : (e' k : ℕ) → e' < buddy_entries → k ≤ len e' → Apart (begin e i) 16 (pos e' k) 16
  far e' k he' hk = held-Apart h e i he is_held e' k he' hk

  kind'-at : kind' e i ≡ listed
  kind'-at = ground (arith, set_kind_lem kind e i listed e i)

  kind'-other : (a j : ℕ) → ¬ ((a ≡ e) × (j ≡ i)) → kind' a j ≡ kind a j
  kind'-other a j other = elim (ℕ_discrete a e) [
    | yes ae ↦ elim (ℕ_discrete j i) [
      | yes ji ↦ absurd (other (ae, ji))
      | no ne ↦ ground (arith, set_kind_lem kind e i listed a j)
    ]
    | no ne ↦ ground (arith, set_kind_lem kind e i listed a j)
  ]

  -- The block is the one, or its kind is the old one.
  which : (a j : ℕ) → ((a ≡ e) × (j ≡ i)) ⊎ ((¬ ((a ≡ e) × (j ≡ i))) × (kind' a j ≡ kind a j))
  which a j = elim (ℕ_discrete a e) [
    | yes ae ↦ elim (ℕ_discrete j i) [
      | yes ji ↦ inl (ae, ji)
      | no ne ↦ inr (λ (x, y). ne y, kind'-other a j (λ (x, y). ne y))
    ]
    | no ne ↦ inr (λ (x, y). ne x, kind'-other a j (λ (x, y). ne x))
  ]

  -- The bytes of the new kinds that are not links.
  pub list_add-SameBytes : SameBytes kind' m (list_add m (begin e i) (bucket bsystem e))
  list_add-SameBytes a j q quiet =
      ap (λ (f : Bytes). f q) (list_add_lem h.rings e (begin e i) he small_begin far)
      ∙ link-outside m (begin e i) (pos e 0) (pos e (0 + 1)) small_begin
          (h.rings.small e 0 he (omega arith)) (small_follow h.rings e 0 he (omega arith)) q
          (own (which a j)) (place 0 (omega arith)) follows
    where
      -- For a block other than the new one, the byte is one that is no link of the old lists.
      own :
          ((a ≡ e) × (j ≡ i)) ⊎ ((¬ ((a ≡ e) × (j ≡ i))) × (kind' a j ≡ kind a j))
          → Apart (begin e i) 16 q 1
      own (inl (ae, ji)) =
          let k = kind'-at in
          let same : kind' a j ≡ kind' e i = rw (ae, ji) refl in
          let first : begin a j ≡ begin e i = rw (ae, ji) refl in
          elim quiet.behind [ inl low ↦ absurd (omega arith) | inr behind ↦ inl (omega arith) ]
      own (inr (other, same)) =
          let l = quiet.leaf in
          let from = quiet.from in
          let to = quiet.to in
          let s = block_size_min e in
          elim (leaves-Disjoint h.layout e i a j (omega arith) (let v = quiet.level in omega arith)
            (omega arith) (omega arith)) [
              | inl (ea, ij) ↦ absurd (other (sym ea, sym ij))
              | inr (inl before) ↦ inl (omega arith)
              | inr (inr behind) ↦ inr (omega arith)
            ]

      old : IsQuiet kind a j q
      old = record {
        level = quiet.level;
        leaf = elim (which a j) [
          | inl (ae, ji) ↦ let same : kind a j ≡ kind e i = rw (ae, ji) refl in omega arith
          | inr (other, same) ↦ let l = quiet.leaf in omega arith
        ];
        from = quiet.from;
        to = quiet.to;
        behind = elim (which a j) [
          | inl (ae, ji) ↦ let same : kind a j ≡ kind e i = rw (ae, ji) refl in inl (omega arith)
          | inr (other, same) ↦ elim quiet.behind [ inl low ↦ inl (omega arith) | inr b ↦ inr b ]
        ];
      }

      place : (k : ℕ) → k ≤ len e → Apart (pos e k) 16 q 1
      place k hk = quiet-Apart h a j q old e k he hk

      follows : Apart (pos e (0 + 1)) 16 q 1
      follows =
          let (f, b) = follow_lem h.rings e 0 he (omega arith) in
          rw f (place (follow h.rings e 0) b)

  longer_lem : (a : ℕ) → put len e (len e + 1) a ≡ (if a == e then len e + 1 else len a)
  unfolding put
  longer_lem a = refl

  members' :
      (a n : ℕ)
      → a < buddy_entries
      → n < put len e (len e + 1) a
      → (j : ℕ) × (listed ≤ kind' a j) × (with_first pos e (begin e i) a (n + 1) ≡ begin a j)
  members' a n ha hn = elim (ℕ_discrete a e) [
    | yes ae ↦ elim (ℕ_discrete n 0) [
      | yes z ↦ (
        i,
        rw ae (let k = kind'-at in omega arith),
        rw (ae, z) (unfold with_first in ground arith),
      )
      | no nz ↦
          let l = ap len ae in
          let (j, leaf, at) = h.members a (n - 1) ha (ground (arith, longer_lem a)) in
          (j, new_kind a j leaf, shifted ae nz ∙ at)
    ]
    | no ne ↦
        let (j, leaf, at) = h.members a n ha (ground (arith, longer_lem a)) in
        (j, new_kind a j leaf, elsewhere ne ∙ at)
  ]
    where
      new_kind : (a j : ℕ) → listed ≤ kind a j → listed ≤ kind' a j
      new_kind a j leaf = ground (arith, set_kind_lem kind e i listed a j)

      shifted : a ≡ e → ◌≢◌ {A = ℕ} n 0 → with_first pos e (begin e i) a (n + 1) ≡ pos a (n - 1 + 1)
      shifted ae nz = unfold with_first in ground arith

      elsewhere : ◌≢◌ {A = ℕ} a e → with_first pos e (begin e i) a (n + 1) ≡ pos a (n + 1)
      elsewhere ne = unfold with_first in ground arith

  places' :
      (a j : ℕ)
      → a < buddy_entries
      → listed ≤ kind' a j
      → (n : ℕ) × (n < put len e (len e + 1) a)
        × (with_first pos e (begin e i) a (n + 1) ≡ begin a j)
  places' a j ha l = elim (which a j) [
    | inl (ae, ji) ↦
        (0, ground (arith, longer_lem a), rw (ae, ji) (unfold with_first in ground arith))
    | inr (other, same) ↦
        let (n, hn, at) = h.places a j ha (omega arith) in
        (if a == e then n + 1 else n, bound n hn, moved n ∙ at)
  ]
    where
      bound : (n : ℕ) → n < len a → (if a == e then n + 1 else n) < put len e (len e + 1) a
      bound n hn = elim (ℕ_discrete a e) [
        | yes ae ↦ let l = ap len ae in ground (arith, longer_lem a)
        | no ne ↦ ground (arith, longer_lem a)
      ]

      moved :
          (n : ℕ)
          → with_first pos e (begin e i) a ((if a == e then n + 1 else n) + 1) ≡ pos a (n + 1)
      moved n = unfold with_first in ground arith

  pub list_add-IsHeap :
      IsHeap bsystem
        (list_add m (begin e i) (bucket bsystem e))
        kind'
        (with_first pos e (begin e i))
        (put len e (len e + 1))
  list_add-IsHeap = record {
    placed = h.placed;
    rings = list_add-Rings h.rings e (begin e i) he small_begin far;
    layout = set_kind-IsLayout kind e i h.layout listed (omega arith) (omega arith);
    members = members';
    places = places';
    tags = λ a j ha is_vacant.
        let v : kind a j ≡ vacant = ground (arith, set_kind_lem kind e i listed a j) in
        list_add-SameBytes a j (final a j) (final-IsQuiet kind' a j ha (omega arith))
        ∙ h.tags a j ha v;
    used = λ a j ha is_taken.
        let t : kind a j ≡ taken = ground (arith, set_kind_lem kind e i listed a j) in
        let (u, b) = h.used a j ha t in
        (
          list_add-SameBytes a j (final a j) (final-IsQuiet kind' a j ha (omega arith)) ∙ u,
          list_add-SameBytes a j (begin a j)
                (begin-IsQuiet kind' a j ha (omega arith) (omega arith))
              ∙ b,
        );
  }
