-- ===== src/Screen/Digits.antt =====
-- The digits of a number, as the loops of vprintf take them off.
use native.Mathlib.Nat.{
  pow-suc, mod-lt, one-le-pow, div-lt_iff_lt-mul, div-add-mod', div-div-eq-div-mul,
}
use rtv.Base.{ℕ, zero, suc, ◌+◌, ◌*◌, ◌/◌, ◌%◌, ◌^◌, ◌<◌, ◌≡◌, refl, ap, ◌∙◌, List, [], ◌∷◌, arith}
use rtv.Screen.Format.{hex_digits, decimal_digits}

unfoldable pub value : (base acc : ℕ) → List ℕ → ℕ
value base acc [] = acc
value base acc (q ∷ qs) = value base (acc * base + q) qs

abbrev pub Below : ℕ → List ℕ → Type 0
Below n [] = Unit
Below n (q ∷ qs) = (q < n) × Below n qs

abbrev pub length : List ℕ → ℕ
length [] = 0
length (q ∷ qs) = suc (length qs)

-- A remainder, one digit further.
mod_step : (b p x : ℕ) → x / p % b * p + x % p ≡ x % (p * b)
mod_step b p x = omega (
  arith,
  div-add-mod' x p,
  ap (λ (t : ℕ). t * p) (div-add-mod' (x / p) b),
  div-add-mod' x (p * b),
  ap (λ (t : ℕ). t * (p * b)) (div-div-eq-div-mul x p b),
)

-- One digit more at the end of `acc`.
next_digit : (b p acc d r t : ℕ) → d * p + r ≡ t → (acc * b + d) * p + r ≡ acc * (p * b) + t
next_digit b p acc d r t e = omega arith

-- The digits of `x` by powers of 16.
next_power : (w : ℕ) → 2 ^ (suc w * 4) ≡ 2 ^ (w * 4) * 16
next_power w = rw four (
    omega (
      arith,
      pow-suc 2 (w * 4),
      pow-suc 2 (suc (w * 4)),
      pow-suc 2 (suc (suc (w * 4))),
      pow-suc 2 (suc (suc (suc (w * 4)))),
    ))
  where
    four : suc w * 4 ≡ suc (suc (suc (suc (w * 4))))
    four = omega arith

pub hex_digits-value :
    (w acc x : ℕ)
    → Below 16 (hex_digits w x)
      × (value 16 acc (hex_digits w x) ≡ acc * 2 ^ (w * 4) + x % 2 ^ (w * 4))
      × (length (hex_digits w x) ≡ w)
unfolding hex_digits value
hex_digits-value zero acc x = (tt, omega arith, refl)
hex_digits-value (suc w) acc x =
    let (b, v, l) = hex_digits-value w (acc * 16 + x / 2 ^ (w * 4) % 2 ^ 4) x in
    (
      (omega arith, b),
      v
          ∙ rw (next_power w) (
              next_digit 16 (2 ^ (w * 4)) acc (x / 2 ^ (w * 4) % 2 ^ 4) (x % 2 ^ (w * 4))
                (x % (2 ^ (w * 4) * 16)) (mod_step 16 (2 ^ (w * 4)) x)),
      ap suc l,
    )

-- The powers of ten below `10 ^ n`.
abbrev pub divisors : ℕ → List ℕ
divisors zero = []
divisors (suc n) = 10 ^ n ∷ divisors n

pub decimal_digits-value :
    (n acc x : ℕ)
    → x < 10 ^ n
    → Below 10 (decimal_digits (divisors n) x)
      × (value 10 acc (decimal_digits (divisors n) x) ≡ acc * 10 ^ n + x)
unfolding decimal_digits value
decimal_digits-value zero acc x lt = (tt, omega arith)
decimal_digits-value (suc n) acc x lt =
    let (b, v) =
      decimal_digits-value n (acc * 10 + x / 10 ^ n) (x % 10 ^ n)
        (mod-lt x (one-le-pow n 10 (omega arith))) in
    (
      (small, b),
      v
          ∙ rw (pow-suc 10 n)
              (next_digit 10 (10 ^ n) acc (x / 10 ^ n) (x % 10 ^ n) x (div-add-mod' x (10 ^ n))),
    )
  where
    small : x / 10 ^ n < 10
    small =
        (div-lt_iff_lt-mul {k = 10 ^ n} {x = x} {y = 10} (one-le-pow n 10 (omega arith))).1
          (omega (arith, pow-suc 10 n))
