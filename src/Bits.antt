-- ===== src/Bits.antt =====
-- utils/bits.c and include/utils/bits.h: the bits of one word, and bitmaps, which are arrays of
-- words. A `uint64_t *map` is the memory from there on, word by word.
pub mod Word
pub mod Range
use rtv.Base.{
  ℕ, zero, suc, ◌+◌, ◌-◌, ◌*◌, ◌/◌, ◌%◌, ◌^◌, bit_and, bit_or, Bool, true, false, ◌==◌, ltb, leb,
  if◌then◌else◌,
}
use rtv.Word.{u64, uint64_max, shr, shl64, not64, neg64, bit}

abbrev pub Words : Type 0
Words = ℕ → ℕ

unfoldable pub store : Words → ℕ → ℕ → Words
store map p w j = if p == j then w else map j

-- Bit `j` of the bitmap, counted from the least significant bit of its first word.
unfoldable pub bit_at : Words → ℕ → Bool
bit_at map j = bit (map (j / 64)) (j % 64)

unfoldable pub get_bit64 : ℕ → ℕ → ℕ
get_bit64 word index = let mask = shl64 1 index in if ltb 0 (bit_and word mask) then 1 else 0

-- The functions on `uint64_t *data` return what they store there.
unfoldable pub set_bit64 : ℕ → ℕ → ℕ
set_bit64 word index = let mask = shl64 1 index in bit_or word mask

unfoldable pub clear_bit64 : ℕ → ℕ → ℕ
clear_bit64 word index = let mask = not64 (shl64 1 index) in bit_and word mask

unfoldable pub bitmap64_get : Words → ℕ → ℕ
bitmap64_get map index =
    if ltb 0 (bit_and (map (shr index 6)) (shl64 1 (bit_and index 63))) then 1 else 0

unfoldable pub bitmap64_set : Words → ℕ → Words
bitmap64_set map index =
    store map (shr index 6) (bit_or (map (shr index 6)) (shl64 1 (bit_and index 63)))

unfoldable pub bitmap64_clear : Words → ℕ → Words
bitmap64_clear map index =
    store map (shr index 6) (bit_and (map (shr index 6)) (not64 (shl64 1 (bit_and index 63))))

unfoldable pub bitmap64_check_bit : Words → ℕ → Bool
bitmap64_check_bit map index =
    let mask = shl64 1 (index % 64) in
    if ltb 0 (bit_and (map (shr index 6)) mask) then true else false

-- What both range functions do from their loop on, `put` being `|=` or `&= ~`: whole words while
-- they fit, then the rest of the last word. One round takes at least one bit off `length`.
sweep : (ℕ → ℕ → ℕ) → ℕ → ℕ → Words → ℕ → ℕ → ℕ → ℕ → Words
sweep put zero end map ptr length bits mask = map
sweep put (suc fuel) end map ptr length bits mask =
    let rest =
      sweep put fuel end (store map ptr (put (map ptr) mask)) (ptr + 1) (length - bits) 64
        uint64_max in
    if leb bits length
    then rest
    else if ltb 0 length
    then store map ptr (put (map ptr) (bit_and mask (shr uint64_max (bit_and (neg64 end) 63))))
    else map

bitmap64_range : (ℕ → ℕ → ℕ) → Words → ℕ → ℕ → Words
unfolding sweep
bitmap64_range put map begin length =
    sweep put (length + 1) (u64 (begin + length)) map (shr begin 6) length (64 - bit_and begin 63)
      (shl64 uint64_max (bit_and begin 63))

unfoldable pub bitmap64_set_range : Words → ℕ → ℕ → Words
unfolding bitmap64_range
bitmap64_set_range = bitmap64_range (λ w mask. bit_or w mask)

unfoldable pub bitmap64_clear_range : Words → ℕ → ℕ → Words
unfolding bitmap64_range
bitmap64_clear_range = bitmap64_range (λ w mask. bit_and w (not64 mask))
