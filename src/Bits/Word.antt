-- ===== src/Bits/Word.antt =====
-- The functions of bits.h on one word and one bit of a bitmap.
use rtv.Base.{
  ◌+◌, ℕ, ◌-◌, ◌*◌, ◌/◌, ◌%◌, ◌^◌, ◌<◌, bit_and, bit_or, ◌≡◌, refl, false, not, ◌&&◌, ◌||◌, arith,
  ◌==◌, ltb, if◌then◌else◌, inl, inr, Bool-cases,
}
use rtv.Word.{shl64, not64, bit}
use rtv.Word.Laws.{
  bit-or, bit-and, bit-zero, bit_above, bit-complement, bit-shl, bit-mod, pos_of_bit, bit_and-lt,
  bit_or-lt, bit_and_mask, bit-one, bit_ext,
}
use rtv.Bits.{Words, store, bit_at}
use rtv.Bits

-- `1 << k` has one digit set.
pub bit-one_shl : (k i : ℕ) → k < 64 → i < 64 → bit (shl64 1 k) i ≡ (k == i)
bit-one_shl k i hk hi = ground (arith, bit-mod 64 (1 * 2 ^ k) i, bit-shl k 1 i, bit-one (i - k))

pub bit-not64 : (w i : ℕ) → w < 2 ^ 64 → i < 64 → bit (not64 w) i ≡ not (bit w i)
bit-not64 w i h lt = bit-complement 64 w i h lt

pub bit_and_63 : (a : ℕ) → bit_and a 63 ≡ a % 64
bit_and_63 a = bit_and_mask 6 a

-- Any write to a word leaves the bits of the others.
pub bit_at-store :
    (map : Words) (p w j : ℕ)
    → bit_at (store map p w) j ≡ (if p == j / 64 then bit w (j % 64) else bit_at map j)
unfolding bit_at store
bit_at-store map p w j = ground arith

pub same_word : (map : Words) (j ptr : ℕ) → ptr ≡ j / 64 → bit_at map j ≡ bit (map ptr) (j % 64)
unfolding bit_at
same_word map j ptr e = rw e

pub bit_at-word : (map : Words) (i k : ℕ) → k < 64 → bit_at map (i * 64 + k) ≡ bit (map i) k
unfolding bit_at
bit_at-word map i k h = rw (quotient, remainder)
  where
    quotient : (i * 64 + k) / 64 ≡ i
    quotient = omega arith

    remainder : (i * 64 + k) % 64 ≡ k
    remainder = omega arith

-- A bitmap of 64-bit words stays one under a write of such a word.
pub store-fits :
    (map : Words) (p w : ℕ)
    → ((i : ℕ) → map i < 2 ^ 64)
    → w < 2 ^ 64
    → (i : ℕ) → store map p w i < 2 ^ 64
unfolding store
store-fits map p w words fits i = ground (arith, words i)

bit-and_one_shl : (w k i : ℕ) → k < 64 → bit (bit_and w (shl64 1 k)) i ≡ ((k == i) && bit w k)
bit-and_one_shl w k i h =
    ground (arith, bit-and w (shl64 1 k) i, bit-one_shl k i, bit_above 64 (shl64 1 k) i)

-- `data & (1 << k)` tests digit `k`.
pub tests_bit : (w k : ℕ) → k < 64 → ltb 0 (bit_and w (shl64 1 k)) ≡ bit w k
tests_bit w k h = elim (Bool-cases (bit w k)) [
  | inl set ↦ ground (arith, pos_of_bit (bit_and w (shl64 1 k)) k, bit-and_one_shl w k k)
  | inr clear ↦ ground (arith, none_set clear)
]
  where
    none_set : bit w k ≡ false → bit_and w (shl64 1 k) ≡ 0
    none_set clear =
        bit_ext (bit_and w (shl64 1 k)) _ _ (omega arith) (omega arith)
          (λ i. ground (arith, bit-and_one_shl w k i, bit-zero i))

module _ (w k i : ℕ) (h : k < 64) (lt : i < 64) where
  pub bit-set_bit64 : bit (Bits.set_bit64 w k) i ≡ ((k == i) || bit w i)
  unfolding Bits.set_bit64
  bit-set_bit64 = ground (arith, bit-or w (shl64 1 k) i, bit-one_shl k i)

  pub bit-clear_bit64 : bit (Bits.clear_bit64 w k) i ≡ (not (k == i) && bit w i)
  unfolding Bits.clear_bit64
  bit-clear_bit64 =
      ground (arith, bit-and w (not64 (shl64 1 k)) i, bit-not64 (shl64 1 k) i, bit-one_shl k i)

-- Reading, setting and clearing one bit of a bitmap.
module _ (map : Words) (n : ℕ) where
  pub bitmap64_get-bit_at : Bits.bitmap64_get map n ≡ (if bit_at map n then 1 else 0)
  unfolding Bits.bitmap64_get bit_at
  bitmap64_get-bit_at = rw (bit_and_63 n, tests_bit (map (n / 64)) (n % 64) (omega arith)) refl

  pub bitmap64_check_bit-bit_at : Bits.bitmap64_check_bit map n ≡ bit_at map n
  unfolding Bits.bitmap64_check_bit bit_at
  bitmap64_check_bit-bit_at = rw (tests_bit (map (n / 64)) (n % 64) (omega arith)) (ground arith)

  pub bit_at-bitmap64_set :
      (j : ℕ) → bit_at (Bits.bitmap64_set map n) j ≡ ((n == j) || bit_at map j)
  unfolding Bits.bitmap64_set
  bit_at-bitmap64_set j = rw bit_and_63 (
      unfold bit_at in
      ground (
        arith,
        bit_at-store map (n / 64) (bit_or (map (n / 64)) (shl64 1 (n % 64))) j,
        bit-or (map (n / 64)) (shl64 1 (n % 64)) (j % 64),
        bit-one_shl (n % 64) (j % 64),
      ))

  pub bit_at-bitmap64_clear :
      (j : ℕ) → bit_at (Bits.bitmap64_clear map n) j ≡ (not (n == j) && bit_at map j)
  unfolding Bits.bitmap64_clear
  bit_at-bitmap64_clear j = rw bit_and_63 (
      unfold bit_at in
      ground (
        arith,
        bit_at-store map (n / 64) (bit_and (map (n / 64)) (not64 (shl64 1 (n % 64)))) j,
        bit-and (map (n / 64)) (not64 (shl64 1 (n % 64))) (j % 64),
        bit-not64 (shl64 1 (n % 64)) (j % 64),
        bit-one_shl (n % 64) (j % 64),
      ))

pub clear_bit64-lt : (w k : ℕ) → w < 2 ^ 64 → Bits.clear_bit64 w k < 2 ^ 64
unfolding Bits.clear_bit64
clear_bit64-lt w k h = bit_and-lt 64 w (not64 (shl64 1 k)) h

-- Any sequence of such writes keeps the words of the bitmap in 64 bits.
pub bitmap64_set-fits :
    (map : Words) (n : ℕ)
    → ((i : ℕ) → map i < 2 ^ 64)
    → (i : ℕ) → Bits.bitmap64_set map n i < 2 ^ 64
unfolding Bits.bitmap64_set
bitmap64_set-fits map n words =
    store-fits map (n / 64) _ words (bit_or-lt 64 (map (n / 64)) _ (words _) (omega arith))

-- Every operation on one bit of a bitmap, for every bitmap and index: the two tests read that bit,
-- and the two updates change it and no other.
pub bitmap64_update_lem :
    (map : Words) (n j : ℕ)
    → (Bits.bitmap64_get map n ≡ (if bit_at map n then 1 else 0))
      × (Bits.bitmap64_check_bit map n ≡ bit_at map n)
      × (bit_at (Bits.bitmap64_set map n) j ≡ ((n == j) || bit_at map j))
      × (bit_at (Bits.bitmap64_clear map n) j ≡ (not (n == j) && bit_at map j))
bitmap64_update_lem map n j = (
  bitmap64_get-bit_at map n,
  bitmap64_check_bit-bit_at map n,
  bit_at-bitmap64_set map n j,
  bit_at-bitmap64_clear map n j,
)
