-- ===== src/Bits/Range.antt =====
-- The range functions, bit by bit.
use native.Mathlib.Decide.{dec_le}
use rtv.Base.{
  ℕ, zero, suc, ◌+◌, ◌-◌, ◌*◌, ◌/◌, ◌%◌, ◌^◌, ◌≤◌, ◌<◌, bit_and, bit_or, ◌≡◌, Bool, true, false,
  not, ◌&&◌, ◌||◌, arith, ltb, leb, if◌then◌else◌, le→leb, lt→not_leb, ◌≢◌,
}
use rtv.Word.{u64, uint64_max, shr, shl64, not64, neg64, bit}
use rtv.Word.Laws.{bit-or, bit-and, bit-shr, bit_ones, bit-mod, bit-shl, bit_and-lt, bit_or-lt}
use rtv.Bits.{Words, store, bit_at, sweep, bitmap64_range}
use rtv.Bits
use rtv.Bits.Word.{store-fits, bit_at-store, same_word, bit-not64, bit_and_63}

-- The bits from `begin` on, `length` of them.
abbrev pub in_range : ℕ → ℕ → ℕ → Bool
in_range begin length j = leb begin j && ltb j (begin + length)

-- The mask of the digits from `low` on.
abbrev IsMask : ℕ → ℕ → Type 0
IsMask low mask = (i : ℕ) → i < 64 → bit mask i ≡ leb low i

shl64-IsMask : (low : ℕ) → low < 64 → IsMask low (shl64 uint64_max low)
shl64-IsMask low h i lt =
    ground
      (arith, bit-mod 64 (uint64_max * 2 ^ low) i, bit-shl low uint64_max i, bit_ones 64 (i - low))

uint64_max-IsMask : IsMask 0 uint64_max
uint64_max-IsMask i lt = ground (arith, bit_ones 64 i)

-- The mask of the last word keeps the digits below `end`.
last_mask :
    (end mask i : ℕ)
    → end < 2 ^ 64
    → end % 64 ≢ 0
    → i < 64
    → bit (bit_and mask (shr uint64_max (bit_and (neg64 end) 63))) i
      ≡ (bit mask i && ltb i (end % 64))
last_mask end mask i fits h lt = rw bit_and_63 (
    ground (
      arith,
      bit-and mask (shr uint64_max (neg64 end % 64)) i,
      bit-shr (neg64 end % 64) uint64_max i,
      bit_ones 64 (i + neg64 end % 64),
    ))

-- `put w mask` writes `v` into the digits of the mask.
abbrev Puts : (ℕ → ℕ → ℕ) → Bool → Type 0
Puts put v =
    (w mask i : ℕ)
    → mask < 2 ^ 64
    → i < 64
    → bit (put w mask) i ≡ (if bit mask i then v else bit w i)

-- One round of the loop, and what follows the loop.
module _ (put : ℕ → ℕ → ℕ) (fuel end : ℕ) (map : Words) (ptr length bits mask : ℕ) where
  abbrev last_word : ℕ
  last_word = bit_and mask (shr uint64_max (bit_and (neg64 end) 63))

  sweep_whole :
      bits ≤ length
      → sweep put (suc fuel) end map ptr length bits mask
        ≡ sweep put fuel end
            (store map ptr (put (map ptr) mask))
            (ptr + 1)
            (length - bits)
            64
            uint64_max
  unfolding sweep
  sweep_whole h = rw (le→leb bits length h)

  sweep_part :
      length < bits
      → sweep put (suc fuel) end map ptr length bits mask
        ≡ (if ltb 0 length then store map ptr (put (map ptr) last_word) else map)
  unfolding sweep
  sweep_part h = rw (lt→not_leb bits length h)

module _ (put : ℕ → ℕ → ℕ) (v : Bool) (puts : Puts put v) where
  sweep_lem :
      (fuel end : ℕ) (map : Words) (ptr length low mask j : ℕ)
      → length < fuel
      → low < 64
      → end < 2 ^ 64
      → mask < 2 ^ 64
      → IsMask low mask
      → end % 64 ≡ (low + length) % 64
      → bit_at (sweep put fuel end map ptr length (64 - low) mask) j
        ≡ (if in_range (ptr * 64 + low) length j then v else bit_at map j)
  sweep_lem zero end map ptr length low mask j fuel lt end_fits fits is e = absurd (omega arith)
  sweep_lem (suc f) end map ptr length low mask j fuel lt end_fits fits is e =
      elim (dec_le (64 - low) length) [
        | yes whole ↦ rw (sweep_whole put f end map ptr length (64 - low) mask whole) (
            ground (
              arith,
              sweep_lem f end (store map ptr (put (map ptr) mask)) (ptr + 1) (length - (64 - low)) 0
                  uint64_max j (omega arith) (omega arith) end_fits (omega arith) uint64_max-IsMask
                  (omega arith),
              bit_at-store map ptr (put (map ptr) mask) j,
              puts (map ptr) mask (j % 64),
              is (j % 64),
              same_word map j ptr,
            ))
        | no part ↦ rw (sweep_part put f end map ptr length (64 - low) mask (omega arith)) (
            ground (
              arith,
              bit_at-store map ptr
                  (put (map ptr) (last_word put f end map ptr length (64 - low) mask)) j,
              puts (map ptr) (last_word put f end map ptr length (64 - low) mask) (j % 64),
              bit_and-lt 64 mask (shr uint64_max (bit_and (neg64 end) 63)),
              last_mask end mask (j % 64),
              is (j % 64),
              same_word map j ptr,
            ))
      ]

  bitmap64_range_lem :
      (map : Words) (begin length j : ℕ)
      → bit_at (bitmap64_range put map begin length) j
        ≡ (if in_range begin length j then v else bit_at map j)
  unfolding bitmap64_range
  bitmap64_range_lem map begin length j = rw bit_and_63 (
      ground (
        arith,
        sweep_lem (length + 1) (u64 (begin + length)) map (begin / 64) length (begin % 64)
            (shl64 uint64_max (begin % 64)) j (omega arith) (omega arith) (omega arith)
            (omega arith) (shl64-IsMask (begin % 64) (omega arith)) (omega arith),
      ))

-- For every bitmap, beginning and length, `bitmap64_set_range` sets the `length` bits from `begin` on,
-- and changes no other bit.
pub bit_at-bitmap64_set_range :
    (map : Words) (begin length j : ℕ)
    → bit_at (Bits.bitmap64_set_range map begin length) j
      ≡ (in_range begin length j || bit_at map j)
unfolding Bits.bitmap64_set_range
bit_at-bitmap64_set_range map begin length j =
    ground (arith, bitmap64_range_lem (λ w mask. bit_or w mask) true sets map begin length j)
  where
    sets : Puts (λ w mask. bit_or w mask) true
    sets w mask i fits lt = ground (arith, bit-or w mask i)

-- For every bitmap, beginning and length, `bitmap64_clear_range` clears the `length` bits from `begin`
-- on, and changes no other bit.
pub bit_at-bitmap64_clear_range :
    (map : Words) (begin length j : ℕ)
    → bit_at (Bits.bitmap64_clear_range map begin length) j
      ≡ (not (in_range begin length j) && bit_at map j)
unfolding Bits.bitmap64_clear_range
bit_at-bitmap64_clear_range map begin length j =
    ground
      (arith, bitmap64_range_lem (λ w mask. bit_and w (not64 mask)) false clears map begin length j)
  where
    clears : Puts (λ w mask. bit_and w (not64 mask)) false
    clears w mask i fits lt = ground (arith, bit-and w (not64 mask) i, bit-not64 mask i)

-- The words of a bitmap stay in 64 bits.
abbrev PutsWord : (ℕ → ℕ → ℕ) → Type 0
PutsWord put = (w mask : ℕ) → w < 2 ^ 64 → mask < 2 ^ 64 → put w mask < 2 ^ 64

abbrev pub IsWords : Words → Type 0
IsWords map = (i : ℕ) → map i < 2 ^ 64

module _ (put : ℕ → ℕ → ℕ) (puts : PutsWord put) where
  sweep-fits :
      (fuel end : ℕ) (map : Words) (ptr length bits mask : ℕ)
      → mask < 2 ^ 64
      → IsWords map
      → IsWords (sweep put fuel end map ptr length bits mask)
  sweep-fits zero end map ptr length bits mask fits words = unfold sweep in words
  sweep-fits (suc f) end map ptr length bits mask fits words = elim (dec_le bits length) [
    | yes whole ↦ rw (sweep_whole put f end map ptr length bits mask whole) (
        sweep-fits f end _ (ptr + 1) (length - bits) 64 uint64_max (omega arith)
          (store-fits map ptr _ words (puts (map ptr) mask (words ptr) fits)))
    | no part ↦
        rw (sweep_part put f end map ptr length bits mask (omega arith)) (last_fits (ltb 0 length))
  ]
    where
      last : ℕ
      last = last_word put f end map ptr length bits mask

      last_fits : (b : Bool) → IsWords (if b then store map ptr (put (map ptr) last) else map)
      last_fits true =
          store-fits map ptr _ words (puts (map ptr) last (words ptr) (bit_and-lt 64 mask _ fits))
      last_fits false = words

pub bitmap64_set_range-fits :
    (map : Words) (begin length : ℕ)
    → IsWords map
    → IsWords (Bits.bitmap64_set_range map begin length)
unfolding Bits.bitmap64_set_range bitmap64_range
bitmap64_set_range-fits map begin length words =
    sweep-fits (λ w mask. bit_or w mask) (bit_or-lt 64) (length + 1) (u64 (begin + length)) map
      (shr begin 6) length (64 - bit_and begin 63) _ (omega arith) words

pub bitmap64_clear_range-fits :
    (map : Words) (begin length : ℕ)
    → IsWords map
    → IsWords (Bits.bitmap64_clear_range map begin length)
unfolding Bits.bitmap64_clear_range bitmap64_range
bitmap64_clear_range-fits map begin length words =
    sweep-fits (λ w mask. bit_and w (not64 mask)) (λ w mask h _. bit_and-lt 64 w (not64 mask) h)
      (length + 1) (u64 (begin + length)) map (shr begin 6) length (64 - bit_and begin 63) _
      (omega arith) words
