-- ===== src/Heap/Searching.antt =====
-- The loops of malloc: the entry of a size, the bucket to split, and the splits.
use native.Mathlib.Decide.{dec_lt, ℕ_discrete}
use rtv.Base.{
  ℕ, zero, suc, ◌+◌, ◌-◌, ◌*◌, ◌%◌, ◌^◌, ◌≤◌, ◌<◌, ◌≡◌, ◌≢◌, ◌⊎◌, inl, inr, refl, sym, ap, ◌∙◌,
  ◌==◌, ltb, leb, false, true, arith,
}
use rtv.Base.Run.{ok, panicked}
use rtv.Heap.{
  Heap, buddy_entries, buddy_min_order, next_power2, double_up, buddy_split, climb, split_down,
}
use rtv.Heap.Rings.{Places}
use rtv.Heap.Layout.{Kinds, block_size, block_size-suc, block_size_min}
use rtv.Heap.Counting.{pool_size}
use rtv.Heap.Marking.{IsKept_trans}
use rtv.Heap.Stock.{IsStock, IsStep, buddy_split-IsStep}

pub block_size_mono : (d e l : ℕ) → l ≡ d + e → block_size e ≤ block_size l
block_size_mono zero e l same = let b = ap block_size (drop same) in omega arith
  where
    drop : l ≡ 0 + e → l ≡ e
    drop h = omega arith
block_size_mono (suc d) e l same =
    let m = block_size_mono d e (d + e) refl in
    let s = block_size-suc (d + e) in let b = ap block_size (drop same) in omega arith
  where
    drop : l ≡ suc d + e → l ≡ suc (d + e)
    drop h = omega arith

pub block_size_max : (e : ℕ) → e ≤ 17 → block_size e ≤ 2 ^ 22
block_size_max e le = rw (sym pool_size) (block_size_mono (17 - e) e 17 (omega arith))

-- The entry whose blocks have room for `v` bytes, the ones below it being too small.
pub record IsEntry (v e : ℕ) : Type 0 where
  pub inside : e < buddy_entries
  pub fits : v ≤ block_size e
  pub tight : (d : ℕ) → suc d ≡ e → block_size d < v

double_up_lem :
    (fuel e cnt v : ℕ) (s : Heap)
    → cnt ≡ e + buddy_min_order
    → e < buddy_entries
    → buddy_entries ≤ e + fuel
    → v ≤ 2 ^ 22
    → ((d : ℕ) → suc d ≡ e → block_size d < v)
    → (o : ℕ) × (double_up fuel (block_size e) cnt v s ≡ ok (o + buddy_min_order) s) × IsEntry v o
unfolding double_up
double_up_lem zero e cnt v s is he enough fit below = absurd (omega arith)
double_up_lem (suc fuel) e cnt v s is he enough fit below = elim (dec_lt (block_size e) v) [
  | no le ↦ (e, rw (small le, is) refl, record { inside = he; fits = omega arith; tight = below })
  | yes lt ↦
      let not_top : e < 17 = not_last lt in
      let (o, runs, entry) =
        double_up_lem fuel (suc e) (cnt + 1) v s (omega arith) (omega arith) (omega arith) fit
          (λ d same. rw (last d same) lt) in
      (o, rw (big lt, doubled not_top) runs, entry)
]
  where
    small : (block_size e < v → ⊥) → ltb (block_size e) v ≡ false
    small le = ground arith

    big : block_size e < v → ltb (block_size e) v ≡ true
    big lt = ground arith

    last : (d : ℕ) → suc d ≡ suc e → d ≡ e
    last d same = omega arith

    not_last : block_size e < v → e < 17
    not_last lt = elim (ℕ_discrete e 17) [
      | yes t ↦ let p = pool_size in let b = ap block_size t in absurd (omega arith)
      | no ne ↦ omega arith
    ]

    doubled : e < 17 → block_size e * 2 % 2 ^ 32 ≡ block_size (suc e)
    doubled lt = let s = block_size-suc e in let m = block_size_max e (omega arith) in omega arith

pub next_power2_lem :
    (v : ℕ) (s : Heap)
    → v ≤ 2 ^ 22
    → (e : ℕ) × (next_power2 v s ≡ ok (e + buddy_min_order) s) × IsEntry v e
unfolding next_power2
next_power2_lem v s fit = elim (dec_lt v 32) [
  | yes lt ↦ (
    0,
    rw (low lt) refl,
    record {
      inside = omega arith;
      fits = let b = block_size_min 0 in omega arith;
      tight = λ d same. absurd (omega arith);
    },
  )
  | no ge ↦
      let (o, runs, entry) =
        double_up_lem 28 0 5 v s (omega arith) (omega arith) (omega arith) fit
          (λ d same. absurd (omega arith)) in
      (o, rw (high ge) (unfold block_size in runs), entry)
]
  where
    low : v < 32 → ltb v (2 ^ buddy_min_order) ≡ true
    low lt = ground arith

    high : (v < 32 → ⊥) → ltb v (2 ^ buddy_min_order) ≡ false
    high ge = ground arith

module _ (bsystem : ℕ) where
  -- The search ends at the first bucket that has a block, or there is none.
  pub climb_lem :
      (fuel e : ℕ) (s : Heap)
      → e < buddy_entries
      → buddy_entries ≤ e + fuel
      → ((climb bsystem fuel e s ≡ panicked)
          × ((a : ℕ) → e ≤ a → a < buddy_entries → s.count a ≡ 0))
        ⊎ (l : ℕ) × (climb bsystem fuel e s ≡ ok l s)
          × (e ≤ l)
          × (l < buddy_entries)
          × (s.count l ≢ 0)
          × ((a : ℕ) → e ≤ a → a < l → s.count a ≡ 0)
  unfolding climb
  climb_lem zero e s he enough = absurd (omega arith)
  climb_lem (suc fuel) e s he enough = elim (ℕ_discrete (s.count e) 0) [
    | no some ↦
        inr
          (e, rw (inside, found some) refl, omega arith, he, some, λ a lo hi. absurd (omega arith))
    | yes none ↦ elim (dec_lt (e + 1) buddy_entries) [
      | no top ↦ inl (
        rw (inside, empty none, last top) refl,
        λ a lo hi. let same = ap s.count (at_top a top lo hi) in omega arith,
      )
      | yes more ↦ elim (climb_lem fuel (e + 1) s more (omega arith)) [
        | inl (stops, all) ↦ inl (
          rw (inside, empty none, next more) stops,
          λ a lo hi. elim (ℕ_discrete a e) [
            | yes same ↦ let c = ap s.count same in omega arith
            | no ne ↦ all a (omega arith) hi
          ],
        )
        | inr (l, runs, lo, hi, some, below) ↦ inr (
          l,
          rw (inside, empty none, next more) runs,
          omega arith,
          hi,
          some,
          λ a lo' hi'. elim (ℕ_discrete a e) [
            | yes same ↦ let c = ap s.count same in omega arith
            | no ne ↦ below a (omega arith) hi'
          ],
        )
      ]
    ]
  ]
    where
      inside : leb buddy_entries e ≡ false
      inside = ground arith

      found : s.count e ≢ 0 → s.count e == 0 ≡ false
      found some = ground arith

      empty : s.count e ≡ 0 → s.count e == 0 ≡ true
      empty none = ground arith

      last : (e + 1 < buddy_entries → ⊥) → leb buddy_entries (e + 1) ≡ true
      last top = ground arith

      next : e + 1 < buddy_entries → leb buddy_entries (e + 1) ≡ false
      next more = ground arith

      at_top : (a : ℕ) → (e + 1 < buddy_entries → ⊥) → e ≤ a → a < buddy_entries → a ≡ e
      at_top a top lo hi = omega arith

pub IsStep-refl :
    {bsystem : ℕ} {s : Heap} {kind : Kinds} {pos : Places} {len : ℕ → ℕ}
    → IsStock bsystem s kind pos len
    → IsStep bsystem s s kind
IsStep-refl {kind = kind} {pos = pos} {len = len} st = record {
  kind' = kind;
  pos' = pos;
  len' = len;
  stock = st;
  kept = record { stays = λ a j t. t; adds = λ a j t. t; bytes = λ a j q ha t lo hi. refl };
  lock = refl;
}

split_round :
    (bsystem n lo entry : ℕ) (s t u : Heap)
    → entry ≡ suc (lo + n)
    → buddy_split bsystem (suc (lo + n)) s ≡ ok tt t
    → split_down bsystem n (lo + n) t ≡ ok tt u
    → split_down bsystem (suc n) entry s ≡ ok tt u
unfolding split_down
split_round bsystem n lo entry s t u same runs rest = rw (same, runs, back (lo + n)) rest
  where
    back : (m : ℕ) → suc m - 1 ≡ m
    back m = omega arith

-- The splits from the bucket `lo + n` down to `lo`, which then has a block.
pub split_down_lem :
    (bsystem n lo entry : ℕ) (s : Heap) (kind : Kinds) (pos : Places) (len : ℕ → ℕ)
    → IsStock bsystem s kind pos len
    → entry ≡ lo + n
    → entry < buddy_entries
    → s.count entry ≢ 0
    → (s' : Heap) × (split_down bsystem n entry s ≡ ok tt s')
      × IsStep bsystem s s' kind
      × (s'.count lo ≢ 0)
unfolding split_down
split_down_lem bsystem zero lo entry s kind pos len st is inside some =
    (s, refl, IsStep-refl st, let c = ap s.count (same is) in λ none. omega arith)
  where
    same : entry ≡ lo + 0 → entry ≡ lo
    same h = omega arith
split_down_lem bsystem (suc n) lo entry s kind pos len st is inside some =
    let at = ap s.count (same is) in
    let (t, runs, step, more, below) =
      buddy_split-IsStep st (lo + n) (omega arith) (λ none. omega arith) in
    let (u, rest, step', some') =
      split_down_lem bsystem n lo (lo + n) t step.kind' step.pos' step.len' step.stock refl
        (omega arith) (λ none. let m = more in omega arith) in
    (
      u,
      split_round bsystem n lo entry s t u (same is) runs rest,
      record {
        kind' = step'.kind';
        pos' = step'.pos';
        len' = step'.len';
        stock = step'.stock;
        kept = IsKept_trans step.kept step'.kept;
        lock = step'.lock ∙ step.lock;
      },
      some',
    )
  where
    same : entry ≡ lo + suc n → entry ≡ suc (lo + n)
    same h = omega arith
