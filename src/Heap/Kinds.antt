-- ===== src/Heap/Kinds.antt =====
-- Changes of kinds: of one block, of a block that is cut in half, and of two halves that are joined.
use native.Mathlib.Decide.{ℕ_discrete}
use rtv.Base.{
  ℕ, suc, ◌+◌, ◌*◌, ◌/◌, ◌%◌, ◌≤◌, ◌<◌, ◌≡◌, ◌≢◌, refl, ◌==◌, ◌&&◌, if◌then◌else◌, arith,
}
use rtv.Heap.Layout.{covered, divided, held, Kinds, IsLayout}

unfoldable pub set_kind : Kinds → (e i v : ℕ) → Kinds
set_kind kind e i v e' i' = if e' == e && i' == i then v else kind e' i'

pub set_kind_lem :
    (kind : Kinds) (e i v e' i' : ℕ)
    → set_kind kind e i v e' i' ≡ (if e' == e && i' == i then v else kind e' i')
unfolding set_kind
set_kind_lem kind e i v e' i' = refl

-- The halves of a block that is cut, which are held, and the block that two halves make.
unfoldable pub halve : Kinds → (e i : ℕ) → Kinds
halve kind e i e' i' =
    if e' == suc e && i' == i then divided else if e' == e && i' / 2 == i then held else kind e' i'

unfoldable pub join : Kinds → (e i : ℕ) → Kinds
join kind e i e' i' =
    if e' == suc e && i' == i then held else if e' == e && i' / 2 == i then covered else kind e' i'

module _ (kind : Kinds) (e i : ℕ) (lay : IsLayout kind) where
  -- What a change at the block leaves of a block's kind.
  same_kind : (a j : ℕ) → a ≡ e → j ≡ i → kind a j ≡ kind e i
  same_kind a j ae ji = rw (ae, ji) refl

  pub set_kind-IsLayout : (v : ℕ) → held ≤ kind e i → held ≤ v → IsLayout (set_kind kind e i v)
  unfolding set_kind
  set_kind-IsLayout v leaf leaf' = record {
    root = λ j h. let s = same_kind 17 j in lay.root j (ground (arith, s));
    upward = λ a j lt h.
        let u = lay.upward a j lt in ground (arith, u, same_kind a j, same_kind (suc a) (j / 2));
    downward =
        λ a j k lt h at. ground (arith, lay.downward a j k lt, same_kind (suc a) j, same_kind a k);
    bottom = λ j h. let s = same_kind 0 j in ground (arith, lay.bottom j);
  }

  pub halve-IsLayout : e < 17 → held ≤ kind (suc e) i → IsLayout (halve kind e i)
  unfolding halve
  halve-IsLayout top leaf = record {
    root = λ j h. ground (arith, lay.root j, same (17) j);
    upward = λ a j lt h. ground (
      arith,
      lay.upward a j lt,
      same a j,
      same (suc a) (j / 2),
      lay.upward (suc a) (j / 2),
      same (suc (suc a)) (j / 2 / 2),
    );
    downward = λ a j k lt h at. ground (arith, lay.downward a j k lt, same (suc a) j, same a k);
    bottom = λ j h. ground (arith, lay.bottom j);
  }
    where
      same : (a j : ℕ) → a ≡ suc e → j ≡ i → kind a j ≡ kind (suc e) i
      same a j ae ji = rw (ae, ji) refl

  pub join-IsLayout :
      e < 17
      → kind (suc e) i ≡ divided
      → held ≤ kind e (i * 2)
      → held ≤ kind e (i * 2 + 1)
      → IsLayout (join kind e i)
  unfolding join
  join-IsLayout top whole left right = record {
    root = λ j h. ground (arith, lay.root j, same 17 j);
    upward = λ a j lt h.
        ground (arith, lay.upward a j lt, same a j, same (suc a) (j / 2), half (suc a) (j / 2));
    downward = λ a j k lt h at.
        ground (arith, lay.downward a j k lt, same (suc a) j, same a k, lay.upward a k lt);
    bottom = λ j h. ground (arith, lay.bottom j);
  }
    where
      same : (a j : ℕ) → a ≡ suc e → j ≡ i → kind a j ≡ kind (suc e) i
      same a j ae ji = rw (ae, ji) refl

      two : (j : ℕ) → j % 2 ≡ 0 → j / 2 ≡ i → j ≡ i * 2
      two j even ji = omega arith

      two_one : (j : ℕ) → ◌≢◌ {A = ℕ} (j % 2) 0 → j / 2 ≡ i → j ≡ i * 2 + 1
      two_one j odd ji = omega arith

      half : (a j : ℕ) → a ≡ e → j / 2 ≡ i → held ≤ kind a j
      half a j ae ji = rw ae (elim (ℕ_discrete (j % 2) 0) [
        | yes even ↦ rw (two j even ji) left
        | no odd ↦ rw (two_one j odd ji) right
      ])
