-- ===== src/Word/Step.antt =====
-- The native bit operations recur on a bound for the digits to go. One round of them, with the bound
-- out of the way.
use Prim.Native.Nat.{digits, bitwise, differ, bit_and-bitwise, bit_or-bitwise, bit_xor-bitwise}
use native.Mathlib.Decide.{dec_le}
use rtv.Base.{
  ℕ, zero, suc, ◌+◌, ◌*◌, ◌/◌, ◌%◌, ◌≤◌, min, max, bit_and, bit_or, bit_xor, ◌≡◌, refl, ap, ◌∙◌,
  arith,
}

module _ (last : ℕ → ℕ) (on_digits : ℕ → ℕ → ℕ) where
  -- A bound may be raised by one, and so by any amount.
  raise_bound :
      (bound x y : ℕ)
      → x ≤ bound
      → digits last on_digits (suc bound) x y ≡ digits last on_digits bound x y
  raise_bound bound zero y le =
      elim bound as (λ t. digits last on_digits (suc t) zero y ≡ digits last on_digits t zero y) [
        | zero ↦ refl
        | suc _ ↦ refl
      ]
  raise_bound zero (suc x) y le = absurd (omega arith)
  raise_bound (suc bound) (suc x) y le =
      ap (λ (t : ℕ). t * 2 + on_digits (suc x % 2) (y % 2))
        (raise_bound bound (suc x / 2) (y / 2) (omega arith))

  any_bound :
      (bound x y : ℕ) → x ≤ bound → digits last on_digits bound x y ≡ bitwise last on_digits x y
  any_bound zero x y le = rw none
    where
      none : x ≡ 0
      none = omega arith
  any_bound (suc bound) x y le = elim (dec_le x bound) [
    | yes low ↦ raise_bound bound x y low ∙ any_bound bound x y low
    | no high ↦ rw (exact high)
  ]
    where
      exact : (x ≤ bound → ⊥) → suc bound ≡ x
      exact high = omega arith

  lowest_digit :
      (x y : ℕ)
      → bitwise last on_digits (suc x) y
        ≡ bitwise last on_digits (suc x / 2) (y / 2) * 2 + on_digits (suc x % 2) (y % 2)
  lowest_digit x y =
      ap (λ (t : ℕ). t * 2 + on_digits (suc x % 2) (y % 2))
        (any_bound x (suc x / 2) (y / 2) (omega arith))

-- `&` takes the smaller of the two lowest digits, and goes on with the halves.
pub bit_and_step : (x y : ℕ) → bit_and x y ≡ bit_and (x / 2) (y / 2) * 2 + min (x % 2) (y % 2)
bit_and_step zero y = omega (arith, bit_and-bitwise 0 y, bit_and-bitwise 0 (y / 2))
bit_and_step (suc x) y = simp bit_and-bitwise (lowest_digit (λ _. 0) min x y)

-- `|` takes the larger.
pub bit_or_step : (x y : ℕ) → bit_or x y ≡ bit_or (x / 2) (y / 2) * 2 + max (x % 2) (y % 2)
bit_or_step zero y = omega (arith, bit_or-bitwise 0 y, bit_or-bitwise 0 (y / 2))
bit_or_step (suc x) y = simp bit_or-bitwise (lowest_digit (λ t. t) max x y)

-- `^` compares them.
pub bit_xor_step : (x y : ℕ) → bit_xor x y ≡ bit_xor (x / 2) (y / 2) * 2 + differ (x % 2) (y % 2)
bit_xor_step zero y = omega (arith, bit_xor-bitwise 0 y, bit_xor-bitwise 0 (y / 2))
bit_xor_step (suc x) y = simp bit_xor-bitwise (lowest_digit (λ t. t) differ x y)
