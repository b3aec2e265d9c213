-- ===== src/Word/Laws.antt =====
-- The digits of what the operators of C compute.
use Prim.Native.Nat.{bit_and-bitwise}
use native.Mathlib.Nat.{pow-suc, one-le-pow, add-zero, div-add-mod', mod-lt}
use native.Mathlib.Decide.{dec_lt}
use rtv.Base.{
  ℕ, zero, suc, ◌+◌, ◌-◌, ◌*◌, ◌/◌, ◌%◌, ◌^◌, ◌≤◌, ◌<◌, bit_and, bit_or, ◌≡◌, refl, sym, ap, ◌∙◌,
  true, false, not, ◌&&◌, ◌||◌, arith, ltb, leb, ◌==◌, if◌then◌else◌,
}
use rtv.Word.{bit}
use rtv.Word.Step.{bit_and_step, bit_or_step}

pub bit-or : (a b i : ℕ) → bit (bit_or a b) i ≡ (bit a i || bit b i)
unfolding bit
bit-or a b zero = ground (arith, bit_or_step a b)
bit-or a b (suc i) = rw (halved) (bit-or (a / 2) (b / 2) i)
  where
    halved : bit_or a b / 2 ≡ bit_or (a / 2) (b / 2)
    halved = omega (arith, bit_or_step a b)

pub bit-and : (a b i : ℕ) → bit (bit_and a b) i ≡ (bit a i && bit b i)
unfolding bit
bit-and a b zero = ground (arith, bit_and_step a b)
bit-and a b (suc i) = rw (halved) (bit-and (a / 2) (b / 2) i)
  where
    halved : bit_and a b / 2 ≡ bit_and (a / 2) (b / 2)
    halved = omega (arith, bit_and_step a b)

pub bit-zero : (i : ℕ) → bit 0 i ≡ false
unfolding bit
bit-zero zero = refl
bit-zero (suc i) = bit-zero i

-- Beyond the width there are no digits.
pub bit_above : (k w i : ℕ) → w < 2 ^ k → k ≤ i → bit w i ≡ false
unfolding bit
bit_above zero w i h le = rw (small) (bit-zero i)
  where
    small : w ≡ 0
    small = omega arith
bit_above (suc k) w zero h le = absurd (omega arith)
bit_above (suc k) w (suc i) h le = bit_above k (w / 2) i (omega (arith, pow-suc 2 k)) (omega arith)

-- The complement within `k` digits.
pub bit-complement : (k w i : ℕ) → w < 2 ^ k → i < k → bit (2 ^ k - 1 - w) i ≡ not (bit w i)
unfolding bit
bit-complement zero w i h lt = absurd (omega arith)
bit-complement (suc k) w zero h lt = ground (arith, pow-suc 2 k)
bit-complement (suc k) w (suc i) h lt =
    rw (halved) (bit-complement k (w / 2) i (omega (arith, pow-suc 2 k)) (omega arith))
  where
    halved : (2 ^ suc k - 1 - w) / 2 ≡ 2 ^ k - 1 - w / 2
    halved = omega (arith, pow-suc 2 k, one-le-pow k 2 (omega arith))

pub bit_ones : (k i : ℕ) → bit (2 ^ k - 1) i ≡ ltb i k
bit_ones k i =
    ground (arith, bit-complement k 0 i, bit_above k (2 ^ k - 1) i, bit-zero i, one-le-pow k 2)

-- The digits of a number in two fields, the upper one from digit `k` on.
pub bit_fields :
    (k q r i : ℕ) → r < 2 ^ k → bit (q * 2 ^ k + r) i ≡ (if ltb i k then bit r i else bit q (i - k))
unfolding bit
bit_fields zero q r i h = ground (arith, same)
  where
    same : q * 2 ^ 0 + r ≡ q
    same = omega arith
bit_fields (suc k) q r zero h = ground (arith, ap (λ (t : ℕ). q * t) (pow-suc 2 k))
bit_fields (suc k) q r (suc i) h =
    rw halved (bit_fields k q (r / 2) i (omega (arith, pow-suc 2 k)) ∙ shifted)
  where
    halved : (q * 2 ^ suc k + r) / 2 ≡ q * 2 ^ k + r / 2
    halved = omega (arith, ap (λ (t : ℕ). q * t) (pow-suc 2 k))

    shifted :
        (if ltb i k then bit (r / 2) i else bit q (i - k))
        ≡ (if ltb (suc i) (suc k) then bit (r / 2) i else bit q (suc i - suc k))
    shifted = ground arith

pub two_pow_pos : (k : ℕ) → 0 < 2 ^ k
two_pow_pos k = one-le-pow k 2 (omega arith)

pub bit-shl : (k w i : ℕ) → bit (w * 2 ^ k) i ≡ (if leb k i then bit w (i - k) else false)
bit-shl k w i =
    rw (← add-zero (w * 2 ^ k)) (bit_fields k w 0 i (two_pow_pos k) ∙ ground (arith, bit-zero i))

-- The two fields of `w`.
bit_split : (k w i : ℕ) → bit w i ≡ (if ltb i k then bit (w % 2 ^ k) i else bit (w / 2 ^ k) (i - k))
bit_split k w i =
    ap (λ t. bit t i) (sym (div-add-mod' w (2 ^ k)))
    ∙ bit_fields k (w / 2 ^ k) (w % 2 ^ k) i (mod-lt w (two_pow_pos k))

pub bit-shr : (k w i : ℕ) → bit (w / 2 ^ k) i ≡ bit w (i + k)
bit-shr k w i = ground (arith, bit_split k w (i + k), ap (bit (w / 2 ^ k)) same)
  where
    same : i + k - k ≡ i
    same = omega arith

pub bit-mod : (k w i : ℕ) → bit (w % 2 ^ k) i ≡ (if ltb i k then bit w i else false)
bit-mod k w i = ground (arith, bit_split k w i, bit_above k (w % 2 ^ k) i, mod-lt w (two_pow_pos k))

-- Two numbers with the same digits are equal.
pub bit_ext : (n a b : ℕ) → a ≤ n → b ≤ n → ((i : ℕ) → bit a i ≡ bit b i) → a ≡ b
unfolding bit
bit_ext zero a b ha hb same = omega arith
bit_ext (suc n) a b ha hb same =
    ground
      (arith, same 0, bit_ext n (a / 2) (b / 2) (omega arith) (omega arith) (λ i. same (suc i)))

-- A number below `2 ^ k` that is not zero has a digit set.
pub bit_of_pos : (k w : ℕ) → w < 2 ^ k → 0 < w → (i : ℕ) × (i < k) × (bit w i ≡ true)
unfolding bit
bit_of_pos zero w h pos = absurd (omega arith)
bit_of_pos (suc k) w h pos = elim (dec_lt 0 (w / 2)) [
  | yes half ↦
      let (i, lt, set) = bit_of_pos k (w / 2) (omega (arith, pow-suc 2 k)) half in
      (suc i, omega arith, set)
  | no none_above ↦ (0, omega arith, ground arith)
]

pub pos_of_bit : (w i : ℕ) → bit w i ≡ true → 0 < w
pos_of_bit zero i h = cc (bit-zero i)
pos_of_bit (suc w) i h = omega arith

pub bit-one : (i : ℕ) → bit 1 i ≡ (0 == i)
unfolding bit
bit-one zero = refl
bit-one (suc i) = ground (arith, bit-zero i)

-- A mask of `k` low digits is the remainder by `2 ^ k`.
pub bit_and_mask : (k a : ℕ) → bit_and a (2 ^ k - 1) ≡ a % 2 ^ k
bit_and_mask k a = bit_ext (bit_and a (2 ^ k - 1) + a % 2 ^ k) _ _ (omega arith) (omega arith) same
  where
    same : (i : ℕ) → bit (bit_and a (2 ^ k - 1)) i ≡ bit (a % 2 ^ k) i
    same i = ground (arith, bit-and a (2 ^ k - 1) i, bit-mod k a i, bit_ones k i)

pub bit_or-lt : (k a b : ℕ) → a < 2 ^ k → b < 2 ^ k → bit_or a b < 2 ^ k
bit_or-lt zero a b ha hb = rw (zero_of_lt a ha, zero_of_lt b hb) (omega arith)
  where
    zero_of_lt : (n : ℕ) → n < 2 ^ 0 → n ≡ 0
    zero_of_lt n h = omega arith
bit_or-lt (suc k) a b ha hb =
    ground (arith, bit_or_step a b, pow-suc 2 k, bit_or-lt k (a / 2) (b / 2))

pub bit_and-lt : (k a b : ℕ) → a < 2 ^ k → bit_and a b < 2 ^ k
bit_and-lt zero a b ha = rw (zero_of_lt a ha) (rw (bit_and-bitwise 0 b) (omega arith))
  where
    zero_of_lt : (n : ℕ) → n < 2 ^ 0 → n ≡ 0
    zero_of_lt n h = omega arith
bit_and-lt (suc k) a b ha =
    ground (arith, bit_and_step a b, pow-suc 2 k, bit_and-lt k (a / 2) (b / 2))
