-- ===== src/Heap/Unlinking.antt =====
-- list_del on the heap: the block leaves its list and is held.
use native.Mathlib.Decide.{ℕ_discrete}
use rtv.Base.{
  ℕ, ◌+◌, ◌-◌, ◌≤◌, ◌<◌, ◌≡◌, refl, sym, ap, ◌∙◌, ◌==◌, ◌&&◌, leb, if◌then◌else◌, not, arith,
}
use rtv.Heap.{Bytes, buddy_entries, list_del}
use rtv.Heap.Links.{Apart, unlink-outside}
use rtv.Heap.Rings.{Places, without, put, same_place, small_follow, follow_lem, follow}
use rtv.Heap.Removing.{list_del-Rings, list_del_lem}
use rtv.Heap.Layout.{held, taken, listed, vacant, Kinds, begin, final}
use rtv.Heap.State.{IsHeap, SameBytes, quiet-Apart, final-IsQuiet, begin-IsQuiet, same_begin}
use rtv.Heap.Kinds.{set_kind, set_kind_lem, set_kind-IsLayout}

module _ {bsystem : ℕ} {m : Bytes} {kind : Kinds} {pos : Places} {len : ℕ → ℕ}
    (h : IsHeap bsystem m kind pos len) (e i : ℕ) (he : e < buddy_entries)
    (leaf : listed ≤ kind e i) (k : ℕ) (lt : k < len e) (at : pos e (k + 1) ≡ begin e i) where
  abbrev kind' : Kinds
  kind' = set_kind kind e i held

  pub list_del-SameBytes : SameBytes kind m (list_del m (begin e i))
  list_del-SameBytes a j q quiet = rw (sym at) (
      ap (λ (f : Bytes). f q) (list_del_lem h.rings e k he lt)
      ∙ unlink-outside m (pos e k) (pos e (k + 1 + 1)) (h.rings.small e k he (omega arith))
          (small_follow h.rings e (k + 1) he (omega arith)) q
          (quiet-Apart h a j q quiet e k he (omega arith)) (behind (k + 1) (omega arith)))
    where
      behind : (n : ℕ) → n ≤ len e → Apart (pos e (n + 1)) 16 q 1
      behind n le =
          let (f, b) = follow_lem h.rings e n he le in
          rw f (quiet-Apart h a j q quiet e (follow h.rings e n) he b)

  -- The kinds of the blocks of the lists, which are all but the one that is taken out.
  kind'-listed : (a j : ℕ) → listed ≤ kind' a j → (listed ≤ kind a j) × ¬ ((a ≡ e) × (j ≡ i))
  kind'-listed a j l =
      let c = set_kind_lem kind e i held a j in (ground arith, λ (ae, ji). ground arith)

  kind'-other : (a j : ℕ) → ¬ ((a ≡ e) × (j ≡ i)) → kind' a j ≡ kind a j
  kind'-other a j other = elim (ℕ_discrete a e) [
    | yes ae ↦ elim (ℕ_discrete j i) [
      | yes ji ↦ absurd (other (ae, ji))
      | no ne ↦ ground (arith, set_kind_lem kind e i held a j)
    ]
    | no ne ↦ ground (arith, set_kind_lem kind e i held a j)
  ]

  -- The block at another place of the lists is another block.
  other_block :
      (a o j : ℕ)
      → a < buddy_entries
      → o < len a
      → pos a (o + 1) ≡ begin a j
      → ¬ ((a ≡ e) × (o ≡ k))
      → ¬ ((a ≡ e) × (j ≡ i))
  other_block a o j ha ho at' ne (ae, ji) =
      let there : pos a (o + 1) ≡ pos e (k + 1) = at' ∙ rw (ae, ji) refl ∙ sym at in
      let (ee, oo) =
        same_place h.rings a (o + 1) e (k + 1) ha he (omega arith) (omega arith) there in
      ne (ae, omega arith)

  shorter_lem : (a : ℕ) → put len e (len e - 1) a ≡ (if a == e then len e - 1 else len a)
  unfolding put
  shorter_lem a = refl

  shorter_bound :
      (a n : ℕ)
      → n < put len e (len e - 1) a
      → (if a == e && not (leb (n + 1) k) then n + 1 else n) < len a
  shorter_bound a n hn = elim (ℕ_discrete a e) [
    | yes ae ↦ let l = ap len ae in ground (arith, shorter_lem a)
    | no ne ↦ ground (arith, shorter_lem a)
  ]

  members' :
      (a n : ℕ)
      → a < buddy_entries
      → n < put len e (len e - 1) a
      → (j : ℕ) × (listed ≤ kind' a j) × (without pos e k a (n + 1) ≡ begin a j)
  members' a n ha hn =
      let o = if a == e && not (leb (n + 1) k) then n + 1 else n in
      let ho = shorter_bound a n hn in
      let (j, l, at') = h.members a o ha ho in
      let other = other_block a o j ha ho at' (λ (ae, ok). ground arith) in
      (j, rw (kind'-other a j other) l, without_at ∙ at')
    where
      without_at :
          without pos e k a (n + 1)
          ≡ pos a ((if a == e && not (leb (n + 1) k) then n + 1 else n) + 1)
      without_at = unfold without in ground arith

  places' :
      (a j : ℕ)
      → a < buddy_entries
      → listed ≤ kind' a j
      → (n : ℕ) × (n < put len e (len e - 1) a) × (without pos e k a (n + 1) ≡ begin a j)
  places' a j ha l' =
      let (l, other) = kind'-listed a j l' in
      let (o, ho, at') = h.places a j ha l in
      let apart = another o at' other in
      (if a == e && leb k o then o - 1 else o, bound o ho apart, without_at o apart ∙ at')
    where
      another : (o : ℕ) → pos a (o + 1) ≡ begin a j → ¬ ((a ≡ e) × (j ≡ i)) → ¬ ((a ≡ e) × (o ≡ k))
      another o at' other (ae, ok) = other (ae, same_begin e j i (rw ae at (sym at') ∙ rw ok at))

      bound :
          (o : ℕ)
          → o < len a
          → ¬ ((a ≡ e) × (o ≡ k))
          → (if a == e && leb k o then o - 1 else o) < put len e (len e - 1) a
      bound o ho apart = elim (ℕ_discrete a e) [
        | yes ae ↦ elim (ℕ_discrete o k) [
          | yes ok ↦ absurd (apart (ae, ok))
          | no ne ↦ let l = ap len ae in ground (arith, shorter_lem a)
        ]
        | no ne ↦ ground (arith, shorter_lem a)
      ]

      without_at :
          (o : ℕ)
          → ¬ ((a ≡ e) × (o ≡ k))
          → without pos e k a ((if a == e && leb k o then o - 1 else o) + 1) ≡ pos a (o + 1)
      without_at o apart = elim (ℕ_discrete a e) [
        | yes ae ↦ elim (ℕ_discrete o k) [
          | yes ok ↦ absurd (apart (ae, ok))
          | no ne ↦ unfold without in ground arith
        ]
        | no ne ↦ unfold without in ground arith
      ]

  pub list_del-IsHeap :
      IsHeap bsystem (list_del m (begin e i)) kind' (without pos e k) (put len e (len e - 1))
  list_del-IsHeap = record {
    placed = h.placed;
    rings = rw (sym at) (list_del-Rings h.rings e k he lt);
    layout = set_kind-IsLayout kind e i h.layout held (omega arith) (omega arith);
    members = members';
    places = places';
    tags = λ a j ha is_vacant.
        let v : kind a j ≡ vacant = ground (arith, set_kind_lem kind e i held a j) in
        list_del-SameBytes a j (final a j) (final-IsQuiet kind a j ha (omega arith))
        ∙ h.tags a j ha v;
    used = λ a j ha is_taken.
        let t : kind a j ≡ taken = ground (arith, set_kind_lem kind e i held a j) in
        let (u, b) = h.used a j ha t in
        (
          list_del-SameBytes a j (final a j) (final-IsQuiet kind a j ha (omega arith)) ∙ u,
          list_del-SameBytes a j (begin a j) (begin-IsQuiet kind a j ha (omega arith) (omega arith))
              ∙ b,
        );
  }
