-- ===== src/Utils/Rounding.antt =====
-- include/utils/math.h: rounding up to a multiple.
use native.Mathlib.Nat.{div-add-mod', mod-lt}
use rtv.Base.{
  ℕ, ◌+◌, ◌-◌, ◌*◌, ◌/◌, ◌^◌, ◌≤◌, ◌<◌, ◌≡◌, arith, Option, none, some, ◌==◌, if◌then◌else◌,
}
use rtv.Word.{u64, sub64}

-- A division by zero traps.
unfoldable pub ceiling64 : ℕ → ℕ → Option ℕ
ceiling64 n base = if base == 0 then none else some (u64 (sub64 (u64 (n + base)) 1 / base * base))

-- Where `n + base` fits 64 bits and `base` is not 0, `ceiling64` returns a multiple of `base` that is
-- not less than `n` and less than `n + base`.
pub ceiling64_lem :
    (n base : ℕ)
    → 0 < base
    → n + base < 2 ^ 64
    → (q : ℕ) × (ceiling64 n base ≡ some (q * base)) × (n ≤ q * base) × (q * base < n + base)
unfolding ceiling64
ceiling64_lem n base pos fits =
    let q = (n + base - 1) / base in
    let whole = div-add-mod' (n + base - 1) base in
    let less = mod-lt (n + base - 1) pos in
    (q, rw sum (ground (arith, value)), omega arith, omega arith)
  where
    sum : sub64 (u64 (n + base)) 1 ≡ n + base - 1
    sum = omega arith

    value : u64 ((n + base - 1) / base * base) ≡ (n + base - 1) / base * base
    value = let whole = div-add-mod' (n + base - 1) base in omega arith
