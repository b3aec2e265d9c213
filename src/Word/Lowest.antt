-- ===== src/Word/Lowest.antt =====
-- The lowest digit that is set: `x & -x` keeps it alone.
use native.Mathlib.Nat.{pow-suc}
use native.Mathlib.Decide.{ℕ_discrete}
use rtv.Base.{ℕ, zero, suc, ◌-◌, ◌/◌, ◌%◌, ◌^◌, ◌<◌, bit_and, ◌≡◌, ap, true, false, arith}
use rtv.Word.{bit}
use rtv.Word.Step.{bit_and_step}
use rtv.Word.Laws.{bit-and, bit-complement, bit_above, bit_ext, bit-zero, two_pow_pos}

-- `p` is the index of the lowest digit of `w` that is set.
pub record IsLowest (w p : ℕ) : Type 0 where
  pub set : bit w p ≡ true
  pub below : (j : ℕ) → j < p → bit w j ≡ false

and_complement : (k w : ℕ) → w < 2 ^ k → bit_and w (2 ^ k - 1 - w) ≡ 0
and_complement k w h = bit_ext (bit_and w (2 ^ k - 1 - w)) _ _ (omega arith) (omega arith) digit
  where
    digit : (i : ℕ) → bit (bit_and w (2 ^ k - 1 - w)) i ≡ bit 0 i
    digit i =
        ground
          (arith, bit-and w (2 ^ k - 1 - w) i, bit-complement k w i, bit_above k w i, bit-zero i)

pub IsLowest-exists :
    (k w : ℕ)
    → w < 2 ^ k
    → 0 < w
    → (p : ℕ) × (p < k) × IsLowest w p × (bit_and w (2 ^ k - w) ≡ 2 ^ p)
unfolding bit
IsLowest-exists zero w h pos = absurd (omega arith)
IsLowest-exists (suc k) w h pos = elim (ℕ_discrete (w % 2) 1) [
  | yes odd ↦ (
    0,
    omega arith,
    record { set = ground arith; below = λ j lt. absurd (omega arith) },
    ground (
      arith,
      bit_and_step w (2 ^ suc k - w),
      pow-suc 2 k,
      and_complement k (w / 2),
      two_pow_pos k,
      ap (bit_and (w / 2)) (half_odd odd),
    ),
  )
  | no even ↦
      let (p, lt, low, eq) = IsLowest-exists k (w / 2) (omega (arith, pow-suc 2 k)) (omega arith) in
      (
        suc p,
        omega arith,
        record { set = low.set; below = below p low even },
        ground (
          arith,
          bit_and_step w (2 ^ suc k - w),
          pow-suc 2 k,
          pow-suc 2 p,
          ap (bit_and (w / 2)) (half_even even),
        ),
      )
]
  where
    half_odd : w % 2 ≡ 1 → (2 ^ suc k - w) / 2 ≡ 2 ^ k - 1 - w / 2
    half_odd e = omega (arith, pow-suc 2 k)

    half_even : (w % 2 ≡ 1 → ⊥) → (2 ^ suc k - w) / 2 ≡ 2 ^ k - w / 2
    half_even e = omega (arith, pow-suc 2 k)

    below : (p : ℕ) → IsLowest (w / 2) p → (w % 2 ≡ 1 → ⊥) → (j : ℕ) → j < suc p → bit w j ≡ false
    below p low e zero lt = ground arith
    below p low e (suc j) lt = low.below j (omega arith)
