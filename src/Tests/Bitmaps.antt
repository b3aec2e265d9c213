-- ===== src/Tests/Bitmaps.antt =====
-- Bits and bitmaps.
use rtv.Base.{◌-◌, ◌*◌, ◌^◌, ◌≡◌, refl, ◌&&◌, ◌||◌, not}
use rtv.Bits.{Words, store, bit_at, bitmap64_set_range, bitmap64_clear_range}
use rtv.Bits.Range.{in_range, bit_at-bitmap64_set_range, bit_at-bitmap64_clear_range}

abbrev empty : Words
empty = λ _. 0

-- Three bits across a word boundary.
crosses :
    (bitmap64_set_range empty 63 3 0 ≡ 2 ^ 63)
    × (bitmap64_set_range empty 63 3 1 ≡ 3)
    × (bitmap64_set_range empty 63 3 2 ≡ 0)
unfolding bitmap64_set_range store
crosses = (refl, refl, refl)

-- A range that ends on a word boundary.
fills :
    (bitmap64_set_range empty 60 68 0 ≡ 15 * 2 ^ 60)
    × (bitmap64_set_range empty 60 68 1 ≡ 2 ^ 64 - 1)
    × (bitmap64_set_range empty 60 68 2 ≡ 0)
unfolding bitmap64_set_range store
fills = (refl, refl, refl)

bit_at-bitmap64_set_range_example :
    bit_at (bitmap64_set_range empty 63 3) 65 ≡ (in_range 63 3 65 || bit_at empty 65)
bit_at-bitmap64_set_range_example = bit_at-bitmap64_set_range empty 63 3 65

bit_at-bitmap64_clear_range_example :
    bit_at (bitmap64_clear_range (bitmap64_set_range empty 0 128) 63 3) 65
    ≡ (not (in_range 63 3 65) && bit_at (bitmap64_set_range empty 0 128) 65)
bit_at-bitmap64_clear_range_example =
    bit_at-bitmap64_clear_range (bitmap64_set_range empty 0 128) 63 3 65
