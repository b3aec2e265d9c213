-- ===== src/Physical/Blocks/Aligned.antt =====
-- The inner loops of alloc_phys_frames_aligned, where the alignment `inc` is a number of whole words
-- of the table: the positions are the multiples of `inc`.
use native.Mathlib.Decide.{dec_lt, ℕ_discrete}
use native.Mathlib.Nat.{div-add-mod', mod-lt}
use rtv.Base.{
  ℕ, zero, suc, ◌+◌, ◌*◌, ◌/◌, ◌%◌, ◌≤◌, ◌<◌, ◌≡◌, ◌⊎◌, inl, inr, refl, ap, true, false, arith, ltb,
  ◌==◌, if◌then◌else◌, Bool-cases,
}
use rtv.Base.Run.{Run, ok}
use rtv.Physical.Defs.{Phys}
use rtv.Physical.State.{free_at, get_bit_lem}
use rtv.Physical.Blocks.{skip_aligned, count_below, align_up}
use rtv.Physical.Blocks.Scan.{table_bits, AllFree, AllFree-cons}

pub mul_mono : (a b c : ℕ) → a ≤ b → a * c ≤ b * c
mul_mono a b c h = grind arith

-- The search from multiple `k` on ends at multiple `k'`: none in between is free, and there the
-- frame is free or the limit is reached.
pub data Landed (s : Phys) (inc k : ℕ) : Run Phys ℕ → Type 0 where
  landed :
      (k' : ℕ)
      → k ≤ k'
      → ((j : ℕ) → k ≤ j → j < k' → free_at s (j * inc) ≡ false)
      → Landed s inc k (ok (k' * inc) s)

module _ (s : Phys) (limit : s.mm_limit ≤ table_bits) where
  skip_aligned-next :
      (fuel inc pos : ℕ)
      → pos < s.mm_limit
      → skip_aligned (suc fuel) inc pos s
        ≡ (if free_at s pos then ok pos s else skip_aligned fuel inc (pos + inc) s)
  unfolding skip_aligned
  skip_aligned-next fuel inc pos h = elim (Bool-cases (free_at s pos)) [
    | inl e ↦ rw (below, get_bit_lem s pos (omega arith), e)
    | inr e ↦ rw (below, get_bit_lem s pos (omega arith), e)
  ]
    where
      below : ltb pos s.mm_limit ≡ true
      below = ground arith

  skip_aligned-stop :
      (fuel inc pos : ℕ) → s.mm_limit ≤ pos → skip_aligned (suc fuel) inc pos s ≡ ok pos s
  unfolding skip_aligned
  skip_aligned-stop fuel inc pos h = rw above
    where
      above : ltb pos s.mm_limit ≡ false
      above = ground arith

  Landed-next :
      (inc k : ℕ) (r : Run Phys ℕ)
      → free_at s (k * inc) ≡ false
      → Landed s inc (k + 1) r
      → Landed s inc k r
  Landed-next inc k _ e (landed k' le none) =
      landed k' (omega arith) (λ j lo hi. elim (dec_lt k j) [
        | yes p ↦ none j (omega arith) hi
        | no p ↦ rw (same j lo p) e
      ])
    where
      same : (j : ℕ) → k ≤ j → (k < j → ⊥) → j ≡ k
      same j le nlt = omega arith

  pub skip_aligned-Landed :
      (fuel inc k : ℕ)
      → 0 < inc
      → 0 < fuel
      → s.mm_limit < k * inc + fuel
      → Landed s inc k (skip_aligned fuel inc (k * inc) s)
  skip_aligned-Landed zero inc k pos some_fuel enough = absurd (omega arith)
  skip_aligned-Landed (suc fuel) inc k pos some_fuel enough = elim (dec_lt (k * inc) s.mm_limit) [
    | no out ↦
        rw (skip_aligned-stop fuel inc (k * inc) (omega arith))
          (landed k (omega arith) (λ j lo hi. absurd (omega arith)))
    | yes p ↦ elim (Bool-cases (free_at s (k * inc))) [
      | inl e ↦
          rw (skip_aligned-next fuel inc (k * inc) p, e)
            (landed k (omega arith) (λ j lo hi. absurd (omega arith)))
      | inr e ↦
          rw (skip_aligned-next fuel inc (k * inc) p, e, next)
            (Landed-next inc k _ e
              (skip_aligned-Landed fuel inc (k + 1) pos (omega arith) (omega arith)))
    ]
  ]
    where
      next : k * inc + inc ≡ (k + 1) * inc
      next = omega arith

-- The count of free frames ends at `num`, at the limit, or at a frame that is not free.
pub data Stretch (s : Phys) (left cur count : ℕ) : Run Phys (ℕ × ℕ) → Type 0 where
  stretch :
      (end total : ℕ)
      → cur ≤ end
      → end ≤ cur + left
      → total + cur ≡ count + end
      → AllFree s cur end
      → (end ≤ s.mm_limit) ⊎ (end ≡ cur)
      → (end ≡ cur + left) ⊎ ((s.mm_limit ≤ end) ⊎ ((end < s.mm_limit) × (free_at s end ≡ false)))
      → Stretch s left cur count (ok (end, total) s)

module _ (s : Phys) (limit : s.mm_limit ≤ table_bits) where
  count_below-next :
      (left cur count : ℕ)
      → cur < s.mm_limit
      → count_below (suc left) cur count s
        ≡ (if free_at s cur then count_below left (cur + 1) (count + 1) s else ok (cur, count) s)
  unfolding count_below
  count_below-next left cur count h = elim (Bool-cases (free_at s cur)) [
    | inl e ↦ rw (below, get_bit_lem s cur (omega arith), e)
    | inr e ↦ rw (below, get_bit_lem s cur (omega arith), e)
  ]
    where
      below : ltb cur s.mm_limit ≡ true
      below = ground arith

  count_below-stop :
      (left cur count : ℕ)
      → s.mm_limit ≤ cur
      → count_below (suc left) cur count s ≡ ok (cur, count) s
  unfolding count_below
  count_below-stop left cur count h = rw above
    where
      above : ltb cur s.mm_limit ≡ false
      above = ground arith

  Stretch-next :
      (left cur count : ℕ) (r : Run Phys (ℕ × ℕ))
      → free_at s cur ≡ true
      → cur < s.mm_limit
      → Stretch s left (cur + 1) (count + 1) r
      → Stretch s (suc left) cur count r
  Stretch-next left cur count _ e lt (stretch end total lo hi sum free fits stop) =
      stretch end total (omega arith) (omega arith) (omega arith) (AllFree-cons s cur end e free)
        (ground arith) (ground arith)

  pub count_below-Stretch :
      (left cur count : ℕ) → Stretch s left cur count (count_below left cur count s)
  count_below-Stretch zero cur count =
      unfold count_below in
      stretch cur count (omega arith) (omega arith) (omega arith) (λ m lo hi. absurd (omega arith))
        (inr refl) (inl (omega arith))
  count_below-Stretch (suc left) cur count = elim (dec_lt cur s.mm_limit) [
    | no out ↦ rw (count_below-stop left cur count (omega arith)) (
        stretch cur count (omega arith) (omega arith) (omega arith)
          (λ m lo hi. absurd (omega arith)) (inr refl) (inr (inl (omega arith))))
    | yes p ↦ elim (Bool-cases (free_at s cur)) [
      | inl e ↦
          rw (count_below-next left cur count p, e)
            (Stretch-next left cur count _ e p (count_below-Stretch left (cur + 1) (count + 1)))
      | inr e ↦
          rw (count_below-next left cur count p, e)
            (stretch cur count (omega arith) (omega arith) (omega arith)
              (λ m lo hi. absurd (omega arith)) (inr refl) (inr (inr (p, e))))
    ]
  ]

-- Rounding up to a multiple.
pub align_up_lem :
    (pos inc : ℕ) (s : Phys)
    → 0 < inc
    → (k : ℕ) × (align_up pos inc s ≡ ok (k * inc) s) × (pos ≤ k * inc) × (k * inc < pos + inc)
unfolding align_up
align_up_lem pos inc s h = elim (ℕ_discrete (pos % inc) 0) [
  | yes e ↦ (
    pos / inc,
    rw (nonzero, test e) (ap (λ t. ok t s) (omega (arith, div-add-mod' pos inc))),
    omega (arith, div-add-mod' pos inc),
    omega (arith, div-add-mod' pos inc),
  )
  | no ne ↦ (
    pos / inc + 1,
    rw (nonzero, test_not ne)
        (ap (λ t. ok t s) (omega (arith, div-add-mod' pos inc, mod-lt pos h))),
    omega (arith, div-add-mod' pos inc, mod-lt pos h),
    omega (arith, div-add-mod' pos inc, mod-lt pos h),
  )
]
  where
    nonzero : (inc == 0) ≡ false
    nonzero = ground arith

    test : pos % inc ≡ 0 → (pos % inc == 0) ≡ true
    test e = ground arith

    test_not : (pos % inc ≡ 0 → ⊥) → (pos % inc == 0) ≡ false
    test_not ne = ground arith
