-- ===== src/Tests/Ranges.antt =====
-- The ranges of free frames.
use rtv.Base.{◌-◌, ◌*◌, ◌/◌, ◌%◌, ◌^◌, ◌≡◌, refl, ◌==◌, if◌then◌else◌, arith}
use rtv.Base.Run.{ok}
use rtv.Word.{uint64_max}
use rtv.Word.Laws.{bit-zero}
use rtv.Bits.{bit_at, bitmap64_check_bit}
use rtv.Physical.Defs.{Phys, pg_size, lowest_bit, count_shifts, read_word}
use rtv.Physical.State.{IsReady, lowest_bit_lem}
use rtv.Physical.Next.{
  physical_next_free_range, after_first, after_second, scan_bits, skip_words, check_bit,
  extend_words, range_of, count_trailing_zeros_bit64,
}
use rtv.Physical.Next.Maximal.{Outcome, IsLimited, physical_next_free_range-Reported}

-- The frames from 124 to 193 are free.
abbrev middle : Phys
middle = record {
  mm_table = λ i.
      if i == 1 then 2 ^ 64 - 2 ^ 60 else if i == 2 then uint64_max else if i == 3 then 3 else 0;
  mm_limit = 256;
  entry_end = 4;
  phy_lock = record { next = 0; owner = 0 };
}

middle-IsReady : IsReady middle
middle-IsReady = record {
  lock = omega arith;
  unlocked = refl;
  words = λ i. ground arith;
  fits = omega arith;
  limit = omega arith;
}

middle-IsLimited : IsLimited middle
unfolding bit_at
middle-IsLimited = (omega arith, λ m h. ground (arith, bit-zero (m % 64)))

physical_next_free_range-middle :
    physical_next_free_range lowest_bit 0 7 middle ≡ ok (124 * pg_size, 70 * pg_size) middle
unfolding physical_next_free_range after_first after_second scan_bits skip_words check_bit read_word
    extend_words range_of count_trailing_zeros_bit64 lowest_bit count_shifts bitmap64_check_bit
physical_next_free_range-middle = refl

physical_next_free_range-Reported_example :
    Outcome lowest_bit lowest_bit_lem middle-IsReady
      (0 / pg_size)
      (physical_next_free_range lowest_bit 0 7 middle)
physical_next_free_range-Reported_example =
    physical_next_free_range-Reported lowest_bit lowest_bit_lem middle-IsReady 0 7 (omega arith)
      middle-IsLimited
