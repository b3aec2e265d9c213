-- ===== src/Heap/Storing.antt =====
-- A change of a byte of a block, and of the kinds.
use rtv.Base.{ℕ, ◌+◌, ◌≤◌, ◌<◌, ◌≡◌, ◌≢◌, ◌⊎◌, inl, inr, ap, ◌∙◌, arith}
use rtv.Bits.{store}
use rtv.Heap.{Bytes, buddy_entries, used_tag}
use rtv.Heap.Links.{Apart, store-other, read64-store}
use rtv.Heap.Rings.{Places, Rings, follow_lem, follow}
use rtv.Heap.Layout.{
  held, taken, listed, vacant, Kinds, block_size, begin, final, IsLayout, block_size_min,
  leaves-Disjoint,
}
use rtv.Heap.State.{IsHeap, IsQuiet, quiet-Apart}

module _ {bsystem : ℕ} {m : Bytes} {kind : Kinds} {pos : Places} {len : ℕ → ℕ}
    (h : IsHeap bsystem m kind pos len) where
  Rings-store :
      (q b : ℕ)
      → ((e k : ℕ) → e < buddy_entries → k ≤ len e → Apart (pos e k) 16 q 1)
      → Rings bsystem (store m q b) pos len
  Rings-store q b outside = record {
    first = h.rings.first;
    last = h.rings.last;
    forward = λ e k he hk.
        let o = outside e k he hk in
        read64-store m q b (pos e k) (ground arith) ∙ h.rings.forward e k he hk;
    backward = λ e k he hk.
        read64-store m q b (pos e (k + 1) + 8) (behind e k he hk) ∙ h.rings.backward e k he hk;
    small = h.rings.small;
    apart = h.rings.apart;
  }
    where
      behind : (e k : ℕ) → e < buddy_entries → k ≤ len e → Apart (pos e (k + 1) + 8) 8 q 1
      behind e k he hk =
          let (f, b) = follow_lem h.rings e k he hk in
          rw f (let o = outside e (follow h.rings e k) he b in ground arith)

  -- A byte of a block that is held may change.
  pub store-IsHeap :
      (e i q b : ℕ)
      → IsQuiet kind e i q
      → (kind e i ≡ held) ⊎ (kind e i ≡ listed)
      → IsHeap bsystem (store m q b) kind pos len
  store-IsHeap e i q b quiet loose = record {
    placed = h.placed;
    rings = Rings-store q b (quiet-Apart h e i q quiet);
    layout = h.layout;
    members = h.members;
    places = h.places;
    tags = λ e' i' he' is_vacant.
        let s = block_size_min e' in
        store-other m q b (final e' i')
          (clear e' i' (final e' i') he' (omega arith) (inr is_vacant) (omega arith) (omega arith))
        ∙ h.tags e' i' he' is_vacant;
    used = λ e' i' he' is_taken.
        let s = block_size_min e' in
        let (t, u) = h.used e' i' he' is_taken in
        (
          store-other m q b (final e' i') (
                clear e' i' (final e' i') he' (omega arith) (inl is_taken) (omega arith)
                  (omega arith))
              ∙ t,
          store-other m q b (begin e' i') (
                clear e' i' (begin e' i') he' (omega arith) (inl is_taken) (omega arith)
                  (omega arith))
              ∙ u,
        );
  }
    where
      clear :
          (e' i' p : ℕ)
          → e' < buddy_entries
          → held ≤ kind e' i'
          → (kind e' i' ≡ taken) ⊎ (kind e' i' ≡ vacant)
          → begin e' i' ≤ p
          → p < begin e' i' + block_size e'
          → ◌≢◌ {A = ℕ} p q
      clear e' i' p he' leaf firm lo hi same =
          let from = quiet.from in
          let to = quiet.to in
          elim (leaves-Disjoint h.layout e' i' e i (omega arith)
            (let l = quiet.level in omega arith) leaf quiet.leaf) [
              | inl (ee, ii) ↦
                  let k = ap (λ (n : ℕ). kind n i') ee in let k' = ap (kind e) ii in omega arith
              | inr apart ↦ omega arith
            ]

  -- Kinds may change where the lists and the tags allow it.
  pub recolor :
      (kind' : Kinds)
      → IsLayout kind'
      → ((e i : ℕ) → listed ≤ kind e i → listed ≤ kind' e i)
      → ((e i : ℕ) → listed ≤ kind' e i → listed ≤ kind e i)
      → ((e i : ℕ) → e < buddy_entries → kind' e i ≡ vacant → m (final e i) ≡ e)
      → ((e i : ℕ)
          → e < buddy_entries
          → kind' e i ≡ taken
          → (m (final e i) ≡ used_tag) × (m (begin e i) ≡ e))
      → IsHeap bsystem m kind' pos len
  recolor kind' lay keeps adds tags used = record {
    placed = h.placed;
    rings = h.rings;
    layout = lay;
    members = λ e k he hk. let (i, l, at) = h.members e k he hk in (i, keeps e i l, at);
    places = λ e i he l. h.places e i he (adds e i l);
    tags = tags;
    used = used;
  }
