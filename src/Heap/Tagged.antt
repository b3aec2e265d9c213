-- ===== src/Heap/Tagged.antt =====
-- What the last byte of a block says of it.
use native.Mathlib.Decide.{ℕ_discrete}
use rtv.Base.{ℕ, zero, suc, ◌+◌, ◌*◌, ◌≤◌, ◌<◌, ◌≡◌, ◌≢◌, ◌⊎◌, inl, inr, ap, ◌∙◌, arith}
use rtv.Heap.{Bytes, buddy_entries, used_tag}
use rtv.Heap.Rings.{Places}
use rtv.Heap.Layout.{covered, divided, held, taken, listed, vacant, Kinds, block_size-suc, final}
use rtv.Heap.State.{IsHeap}

module _ {bsystem : ℕ} {m : Bytes} {kind : Kinds} {pos : Places} {len : ℕ → ℕ}
    (h : IsHeap bsystem m kind pos len) (no_held : (a j : ℕ) → kind a j ≢ held)
    (no_listed : (a j : ℕ) → kind a j ≢ listed) (most : (a j : ℕ) → kind a j ≤ vacant) where
  -- The byte is USED, or the entry of a smaller block, or the block's own entry if it is in its list.
  abbrev Telling : (e j : ℕ) → Type 0
  Telling e j =
      (m (final e j) ≡ used_tag)
      ⊎ ((m (final e j) < e) ⊎ ((m (final e j) ≡ e) × (kind e j ≡ vacant)))

  whole_tag : (e j : ℕ) → e < buddy_entries → covered < kind e j → kind e j ≢ divided → Telling e j
  whole_tag e j he in_use whole = elim (ℕ_discrete (kind e j) taken) [
    | yes t ↦ let (u, b) = h.used e j he t in inl u
    | no nt ↦
        let nh = no_held e j in
        let nl = no_listed e j in
        let le = most e j in
        let v : kind e j ≡ vacant = omega arith in inr (inr (h.tags e j he v, v))
  ]

  last_half : (e j : ℕ) → final (suc e) j ≡ final e (j * 2 + 1)
  last_half e j = rw (block_size-suc e) (grind arith)

  pub final_tag : (e j : ℕ) → e < buddy_entries → covered < kind e j → Telling e j
  final_tag zero j he in_use = whole_tag 0 j he in_use (h.layout.bottom j)
  final_tag (suc e) j he in_use = elim (ℕ_discrete (kind (suc e) j) divided) [
    | no whole ↦ whole_tag (suc e) j he in_use whole
    | yes d ↦
        let here : m (final (suc e) j) ≡ m (final e (j * 2 + 1)) = ap m (last_half e j) in
        elim (final_tag e (j * 2 + 1) (omega arith)
          (h.layout.downward e j (j * 2 + 1) (omega arith) d (omega arith))) [
            | inl u ↦ inl (here ∙ u)
            | inr (inl lt) ↦ inr (inl (omega arith))
            | inr (inr (eq, v)) ↦ inr (inl (omega arith))
          ]
  ]
