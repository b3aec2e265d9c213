-- ===== src/Heap/Layout.antt =====
-- The blocks of the pool: block `i` of entry `e` is the `i`-th one of its size. Each has a kind, and
-- a block that is divided has two halves of the next size below.
use native.Mathlib.Decide.{dec_lt, ℕ_discrete}
use native.Mathlib.Nat.{mul-le-mul_right}
use rtv.Base.{
  ℕ, zero, suc, ◌+◌, ◌-◌, ◌*◌, ◌/◌, ◌≤◌, ◌<◌, ◌≡◌, ◌≢◌, ◌⊎◌, inl, inr, refl, ap, Bool, ◌==◌, ◌&&◌,
  not, leb, arith,
}
use rtv.Heap.{malloc_base}

-- Part of a larger block; cut into its halves; outside the lists and not in use; in use; in its list,
-- without or with its tag.
abbrev pub covered : ℕ
covered = 0

abbrev pub divided : ℕ
divided = 1

abbrev pub held : ℕ
held = 2

abbrev pub taken : ℕ
taken = 3

abbrev pub listed : ℕ
listed = 4

abbrev pub vacant : ℕ
vacant = 5

abbrev pub Kinds : Type 0
Kinds = ℕ → ℕ → ℕ

-- The kinds that blocks have between two calls.
abbrev pub settled : ℕ → Bool
settled k = leb k vacant && not (k == held) && not (k == listed)

unfoldable pub block_size : ℕ → ℕ
block_size zero = 32
block_size (suc e) = block_size e * 2

-- The first byte of a block.
abbrev pub begin : ℕ → ℕ → ℕ
begin e i = malloc_base + i * block_size e

-- The last one.
abbrev pub final : ℕ → ℕ → ℕ
final e i = begin e i + block_size e - 1

pub record IsLayout (kind : Kinds) : Type 0 where
  pub root : (i : ℕ) → covered < kind 17 i → i ≡ 0
  pub upward : (e i : ℕ) → e < 17 → covered < kind e i → kind (suc e) (i / 2) ≡ divided
  pub downward : (e i j : ℕ) → e < 17 → kind (suc e) i ≡ divided → j / 2 ≡ i → covered < kind e j
  pub bottom : (i : ℕ) → kind 0 i ≢ divided

pub block_size-suc : (e : ℕ) → block_size (suc e) ≡ block_size e * 2
unfolding block_size
block_size-suc e = refl

pub block_size_min : (e : ℕ) → 32 ≤ block_size e
unfolding block_size
block_size_min zero = omega arith
block_size_min (suc e) = omega (arith, block_size_min e)

-- The block of the entry `d` above that holds block `i`.
up : ℕ → ℕ → ℕ
up zero i = i
up (suc d) i = up d (i / 2)

up-contains :
    (d e l i : ℕ)
    → l ≡ e + d
    → (up d i * block_size l ≤ i * block_size e)
      × ((i + 1) * block_size e ≤ (up d i + 1) * block_size l)
unfolding up
up-contains zero e l i h = rw same (omega arith, omega arith)
  where
    same : l ≡ e
    same = omega arith
up-contains (suc d) e l i h =
    let (lo, hi) = up-contains d (suc e) l (i / 2) (omega arith) in
    let s = block_size-suc e in
    (
      lower (block_size e) (up d (i / 2) * block_size l) (rw s at lo),
      upper (block_size e) ((up d (i / 2) + 1) * block_size l) (rw s at hi),
    )
  where
    lower : (b c : ℕ) → c ≤ i / 2 * (b * 2) → c ≤ i * b
    lower b c h = let m = mul-le-mul_right {m = i / 2 * 2} {n = i} b (omega arith) in grind arith

    upper : (b c : ℕ) → (i / 2 + 1) * (b * 2) ≤ c → (i + 1) * b ≤ c
    upper b c h =
        let m = mul-le-mul_right {m = i + 1} {n = (i / 2 + 1) * 2} b (omega arith) in grind arith

module _ {kind : Kinds} (lay : IsLayout kind) where
  up-divided :
      (d e l i : ℕ) → l ≡ e + suc d → l ≤ 17 → covered < kind e i → kind l (up (suc d) i) ≡ divided
  unfolding up
  up-divided zero e l i h top in_use = rw same (lay.upward e i (omega arith) in_use)
    where
      same : l ≡ suc e
      same = omega arith
  up-divided (suc d) e l i h top in_use =
      let u = lay.upward e i (omega arith) in_use in
      up-divided d (suc e) l (i / 2) (omega arith) top (omega arith)

  -- Two blocks of one size.
  side_by_side : (b i j : ℕ) → ◌≢◌ {A = ℕ} i j → ((i + 1) * b ≤ j * b) ⊎ ((j + 1) * b ≤ i * b)
  side_by_side b i j ne = elim (dec_lt i j) [
    | yes lt ↦ inl (mul-le-mul_right {m = i + 1} {n = j} b (omega arith))
    | no ge ↦ inr (mul-le-mul_right {m = j + 1} {n = i} b (omega arith))
  ]

  -- The bytes of two blocks have none in common.
  abbrev pub Disjoint : (e i e' i' : ℕ) → Type 0
  Disjoint e i e' i' =
      (begin e i + block_size e ≤ begin e' i') ⊎ (begin e' i' + block_size e' ≤ begin e i)

  smaller-Disjoint :
      (e i e' i' : ℕ)
      → e < e'
      → e' ≤ 17
      → covered < kind e i
      → held ≤ kind e' i'
      → Disjoint e i e' i'
  smaller-Disjoint e i e' i' lt top in_use leaf =
      let d = e' - e - 1 in
      let above = up-divided d e e' i (omega arith) top in_use in
      let (lo, hi) = up-contains (suc d) e e' i (omega arith) in
      elim (side_by_side (block_size e') (up (suc d) i) i'
        (λ same. differ (up (suc d) i) same above)) [
          | inl h ↦ inl (grind arith)
          | inr h ↦ inr (grind arith)
        ]
    where
      differ : (j : ℕ) → j ≡ i' → kind e' j ≡ divided → ⊥
      differ j same above = let k = ap (kind e') same in omega arith

  pub leaves-Disjoint :
      (e i e' i' : ℕ)
      → e ≤ 17
      → e' ≤ 17
      → held ≤ kind e i
      → held ≤ kind e' i'
      → ((e ≡ e') × (i ≡ i')) ⊎ Disjoint e i e' i'
  leaves-Disjoint e i e' i' he he' leaf leaf' = elim (dec_lt e e') [
    | yes lt ↦ inr (smaller-Disjoint e i e' i' lt he' (omega arith) leaf')
    | no ge ↦ elim (dec_lt e' e) [
      | yes gt ↦ elim (smaller-Disjoint e' i' e i gt he (omega arith) leaf) [
        | inl h ↦ inr (inr h)
        | inr h ↦ inr (inl h)
      ]
      | no le ↦ elim (ℕ_discrete i i') [
        | yes same ↦ inl (omega arith, same)
        | no ne ↦ inr (equal_size (omega arith) ne)
      ]
    ]
  ]
    where
      equal_size : e ≡ e' → ◌≢◌ {A = ℕ} i i' → Disjoint e i e' i'
      equal_size same ne = rw same (elim (side_by_side (block_size e') i i' ne) [
        | inl h ↦ inl (grind arith)
        | inr h ↦ inr (grind arith)
      ])

  -- A block that is not covered lies in the pool.
  pub block_inside :
      (e i : ℕ)
      → e ≤ 17
      → covered < kind e i
      → begin e i + block_size e ≤ malloc_base + block_size 17
  block_inside e i top in_use = elim (dec_lt e 17) [
    | yes lt ↦
        let d = 16 - e in
        let above = up-divided d e 17 i (omega arith) (omega arith) in_use in
        let (lo, hi) = up-contains (suc d) e 17 i (omega arith) in
        at_root (up (suc d) i) (lay.root (up (suc d) i) (omega arith)) hi
    | no ge ↦ whole (omega arith)
  ]
    where
      at_root :
          (j : ℕ)
          → j ≡ 0
          → (i + 1) * block_size e ≤ (j + 1) * block_size 17
          → begin e i + block_size e ≤ malloc_base + block_size 17
      at_root j z h = grind arith

      whole : e ≡ 17 → begin e i + block_size e ≤ malloc_base + block_size 17
      whole same = let z = lay.root i (rw same at in_use) in rw (same, z) (grind arith)
