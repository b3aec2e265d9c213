-- ===== src/Word/Masks.antt =====
-- Masks of the high digits, and words put together from two fields.
use native.Mathlib.Nat.{pow-le-pow_right, mod-lt}
use rtv.Base.{ℕ, ◌+◌, ◌-◌, ◌*◌, ◌/◌, ◌%◌, ◌^◌, ◌≤◌, ◌<◌, bit_and, bit_or, ◌≡◌, ap, arith}
use rtv.Word.{shr, not64, bit}
use rtv.Word.Laws.{
  bit-or, bit-and, bit_ext, bit_fields, bit_above, bit-complement, bit_ones, bit-shl, bit-shr,
  bit-mod, two_pow_pos,
}

pub bit_or_comm : (a b : ℕ) → bit_or a b ≡ bit_or b a
bit_or_comm a b = bit_ext (bit_or a b + bit_or b a) _ _ (omega arith) (omega arith) same
  where
    same : (i : ℕ) → bit (bit_or a b) i ≡ bit (bit_or b a) i
    same i = ground (arith, bit-or a b i, bit-or b a i)

-- Two fields that do not overlap.
pub bit_or_fields : (k q r : ℕ) → r < 2 ^ k → bit_or (q * 2 ^ k) r ≡ q * 2 ^ k + r
bit_or_fields k q r h =
    bit_ext (bit_or (q * 2 ^ k) r + (q * 2 ^ k + r)) _ _ (omega arith) (omega arith) same
  where
    same : (i : ℕ) → bit (bit_or (q * 2 ^ k) r) i ≡ bit (q * 2 ^ k + r) i
    same i =
        ground
          (arith, bit-or (q * 2 ^ k) r i, bit-shl k q i, bit_fields k q r i h, bit_above k r i h)

-- A mask that clears the lowest `k` digits.
pub bit_and_high :
    (k w : ℕ) → k ≤ 64 → w < 2 ^ 64 → bit_and w (not64 (2 ^ k - 1)) ≡ w / 2 ^ k * 2 ^ k
bit_and_high k w le fits =
    bit_ext (bit_and w (not64 (2 ^ k - 1)) + w / 2 ^ k * 2 ^ k) _ _ (omega arith) (omega arith) same
  where
    small : 2 ^ k - 1 < 2 ^ 64
    small = omega (arith, pow-le-pow_right {n = 2} (omega arith) {i = k} {j = 64} le, two_pow_pos k)

    moved : (i : ℕ) → k ≤ i → bit w (i - k + k) ≡ bit w i
    moved i h = ap (bit w) back
      where
        back : i - k + k ≡ i
        back = omega arith

    same : (i : ℕ) → bit (bit_and w (not64 (2 ^ k - 1))) i ≡ bit (w / 2 ^ k * 2 ^ k) i
    same i = ground (
      arith,
      bit-and w (not64 (2 ^ k - 1)) i,
      bit-shl k (w / 2 ^ k) i,
      bit-shr k w (i - k),
      bit-complement 64 (2 ^ k - 1) i small,
      bit_ones k i,
      bit_above 64 w i fits,
      moved i,
    )

-- A mask of `n` digits from digit `k` on.
pub bit_and_field : (k n w : ℕ) → shr (bit_and w ((2 ^ n - 1) * 2 ^ k)) k ≡ shr w k % 2 ^ n
bit_and_field k n w =
    bit_ext (shr (bit_and w ((2 ^ n - 1) * 2 ^ k)) k + shr w k % 2 ^ n) _ _ (omega arith)
      (omega arith) same
  where
    same : (i : ℕ) → bit (shr (bit_and w ((2 ^ n - 1) * 2 ^ k)) k) i ≡ bit (shr w k % 2 ^ n) i
    same i = ground (
      arith,
      bit-shr k (bit_and w ((2 ^ n - 1) * 2 ^ k)) i,
      bit-and w ((2 ^ n - 1) * 2 ^ k) (i + k),
      bit-shl k (2 ^ n - 1) (i + k),
      ap (bit (2 ^ n - 1)) back,
      bit_ones n i,
      bit-mod n (shr w k) i,
      bit-shr k w i,
    )
      where
        back : i + k - k ≡ i
        back = omega arith

-- Ones in the `m` digits from digit `k` on.
pub bit_or_ones :
    (m k w : ℕ) → w < 2 ^ (m + k) → bit_or w ((2 ^ m - 1) * 2 ^ k) ≡ (2 ^ m - 1) * 2 ^ k + w % 2 ^ k
bit_or_ones m k w fits =
    bit_ext (bit_or w ((2 ^ m - 1) * 2 ^ k) + ((2 ^ m - 1) * 2 ^ k + w % 2 ^ k)) _ _ (omega arith)
      (omega arith) same
  where
    same :
        (i : ℕ) → bit (bit_or w ((2 ^ m - 1) * 2 ^ k)) i ≡ bit ((2 ^ m - 1) * 2 ^ k + w % 2 ^ k) i
    same i = ground (
      arith,
      bit-or w ((2 ^ m - 1) * 2 ^ k) i,
      bit-shl k (2 ^ m - 1) i,
      bit_ones m (i - k),
      bit-mod k w i,
      bit_fields k (2 ^ m - 1) (w % 2 ^ k) i (mod-lt w (two_pow_pos k)),
      bit_above (m + k) w i fits,
    )
