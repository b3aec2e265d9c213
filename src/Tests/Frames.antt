-- ===== src/Tests/Frames.antt =====
-- The allocator of page frames.
use rtv.Base.{
  ◌⊎◌, false, ℕ, ◌+◌, ◌-◌, ◌*◌, ◌/◌, ◌%◌, ◌^◌, ◌<◌, ◌≡◌, ◌≢◌, inr, refl, true, not, ◌&&◌, ◌||◌,
  arith, ltb, ◌==◌, if◌then◌else◌,
}
use rtv.Base.Run.{ok, faulted}
use rtv.Word.{uint64_max}
use rtv.Word.Laws.{bit_ones, bit-zero, bit-one}
use rtv.Bits.{Words, bit_at, store, clear_bit64, bitmap64_clear_range}
use rtv.Spinlock.{spin_lock, spin_unlock}
use rtv.Physical.Defs.{
  Phys, initial, acquire, release, read_word, lowest_bit, count_shifts, clear_word_bit, first_frame,
  pg_size, alloc_phys_frame, alloc_phys_frame_lowmem, free_phys_frame, physical_free_range,
  physical_take_range, physical_set_limit,
}
use rtv.Physical.State.{IsReady, free_at, after}
use rtv.Physical.Frame.{FirstFit, alloc_phys_frame-FirstFit, alloc_phys_frame_lowmem-FirstFit}
use rtv.Physical.Cycle.{free_phys_frame-alloc_phys_frame, alloc_phys_frame-ne}
use rtv.Physical.Ranges.{
  frame_inside, frame_meets, freed_length, physical_free_range_lem, physical_take_range_lem,
  physical_free_range-faulted, physical_set_limit_lem,
}
use rtv.Physical.Blocks.{alloc_phys_frames, alloc_phys_frames_aligned}
use rtv.Physical.Blocks.Sound.{Outcome, alloc_phys_frames-Outcome}
use rtv.Physical.Blocks.First.{IsFirst, alloc_phys_frames-first, alloc_phys_frames-faulted}
use rtv.Physical.Blocks.Best
use rtv.Physical.Blocks.Fit.{BestFit}

-- 512 frames, all of them free.
abbrev small : Phys
small = record {
  mm_table = λ i. if ltb i 8 then uint64_max else 0;
  mm_limit = 512;
  entry_end = 8;
  phy_lock = record { next = 0; owner = 0 };
}

small-IsReady : IsReady small
small-IsReady = record {
  lock = omega arith;
  unlocked = refl;
  words = λ i. ground arith;
  fits = omega arith;
  limit = omega arith;
}

small-free : (m : ℕ) → m < 512 → free_at small m ≡ true
unfolding bit_at
small-free m h = ground (arith, bit_ones 64 (m % 64))

-- Frame 256 is the only free one.
abbrev lone : Phys
lone = record small { mm_table = λ i. if i == 4 then 1 else 0 }

lone-IsReady : IsReady lone
lone-IsReady = record {
  lock = omega arith;
  unlocked = refl;
  words = λ i. ground arith;
  fits = omega arith;
  limit = omega arith;
}

lone-free : (m : ℕ) → free_at lone m ≡ (m == 256)
unfolding bit_at
lone-free m = ground (arith, bit-one (m % 64), bit-zero (m % 64))

-- The states after one and two allocations.
abbrev one_taken : Phys
one_taken = after small (store small.mm_table 4 (clear_bit64 uint64_max 0))

abbrev two_taken : Phys
two_taken = after one_taken (store one_taken.mm_table 4 (clear_bit64 (one_taken.mm_table 4) 1))

first_alloc : alloc_phys_frame small ≡ ok (256 * 4096) one_taken
unfolding alloc_phys_frame acquire release read_word lowest_bit count_shifts clear_word_bit
    first_frame spin_lock spin_unlock store clear_bit64
first_alloc = refl

second_alloc : alloc_phys_frame one_taken ≡ ok (257 * 4096) two_taken
unfolding alloc_phys_frame acquire release read_word lowest_bit count_shifts clear_word_bit
    first_frame spin_lock spin_unlock store clear_bit64
second_alloc = refl

free_phys_frame-alloc_phys_frame_example :
    (s'' : Phys) × (free_phys_frame (256 * 4096) one_taken ≡ ok tt s'')
    × ((j : ℕ) → free_at s'' j ≡ free_at small j)
free_phys_frame-alloc_phys_frame_example =
    free_phys_frame-alloc_phys_frame (256 * 4096) one_taken small-IsReady (omega arith) first_alloc
      (omega arith)

alloc_phys_frame-ne_example : ◌≢◌ {A = ℕ} (256 * 4096) (257 * 4096)
alloc_phys_frame-ne_example =
    alloc_phys_frame-ne (256 * 4096) (257 * 4096) one_taken two_taken small-IsReady (omega arith)
      first_alloc second_alloc (omega arith) (omega arith)

alloc_phys_frame-FirstFit_example : FirstFit small 256 512 (alloc_phys_frame small)
alloc_phys_frame-FirstFit_example = alloc_phys_frame-FirstFit small-IsReady (omega arith)

alloc_phys_frame_lowmem-FirstFit_example :
    ((free_at small 0 ≡ false) × FirstFit small 1 256 (alloc_phys_frame_lowmem small))
    ⊎ ((free_at small 0 ≡ true)
        × (table : Words) × (alloc_phys_frame_lowmem small ≡ ok 0 (after small table))
        × ((j : ℕ) → bit_at table j ≡ (not (j == 0) && free_at small j)))
alloc_phys_frame_lowmem-FirstFit_example = alloc_phys_frame_lowmem-FirstFit small-IsReady

physical_free_range_lem_example :
    (table : Words) × (physical_free_range 100 9000 initial ≡ ok tt (after initial table))
    × IsReady (after initial table)
    × ((j : ℕ) → bit_at table j ≡ (frame_inside 100 9000 j || free_at initial j))
unfolding initial
physical_free_range_lem_example =
    physical_free_range_lem 100 9000
      (record {
        lock = omega arith;
        unlocked = refl;
        words = λ i. omega arith;
        fits = omega arith;
        limit = omega arith;
      })
      (omega arith) (inr (omega arith))

physical_take_range_lem_example :
    (table : Words) × (physical_take_range 100 9000 small ≡ ok tt (after small table))
    × IsReady (after small table)
    × ((j : ℕ) → bit_at table j ≡ (not (frame_meets 100 9000 j) && free_at small j))
physical_take_range_lem_example = physical_take_range_lem 100 9000 small-IsReady (omega arith)

physical_free_range-faulted_example :
    (freed_length 100 200 ≡ 2 ^ 52 - 1) × (physical_free_range 100 200 small ≡ faulted)
physical_free_range-faulted_example =
    physical_free_range-faulted 100 200 small-IsReady (omega arith) (omega arith) (omega arith)

physical_set_limit_lem_example :
    (s' : Phys) × (physical_set_limit 1000000 small ≡ ok tt s')
    × IsReady s'
    × (s'.mm_limit ≡ 1000000 / pg_size)
    × (s'.entry_end * 64 < s'.mm_limit + 64)
    × ((n : ℕ) → free_at s' n ≡ free_at small n)
physical_set_limit_lem_example = physical_set_limit_lem 1000000 small-IsReady (omega arith)

alloc_phys_frames-Outcome_example : Outcome small 3 256 (alloc_phys_frames 3 small)
alloc_phys_frames-Outcome_example = alloc_phys_frames-Outcome 3 small-IsReady

small-IsFirst : IsFirst small 256
small-IsFirst = record {
  from = omega arith;
  searched = omega arith;
  free = small-free 256 (omega arith);
  none_before = λ m lo hi. absurd (omega arith);
}

alloc_phys_frames-first_example :
    alloc_phys_frames 3 small
    ≡ ok (256 * pg_size) (after small (bitmap64_clear_range small.mm_table 256 3))
alloc_phys_frames-first_example =
    alloc_phys_frames-first 3 256 small-IsReady small-IsFirst (omega arith)
      (λ m lo hi. small-free m (omega arith))

lone-IsFirst : IsFirst lone 256
lone-IsFirst = record {
  from = omega arith;
  searched = omega arith;
  free = lone-free 256;
  none_before = λ m lo hi. absurd (omega arith);
}

alloc_phys_frames-faulted_example : alloc_phys_frames 2 lone ≡ faulted
alloc_phys_frames-faulted_example =
    alloc_phys_frames-faulted 2 256 lone-IsReady lone-IsFirst (omega arith)
      (λ m lo hi. ground (arith, lone-free m)) (omega arith)

alloc_phys_frames_aligned-BestFit_example :
    BestFit small 3 64 (alloc_phys_frames_aligned 3 (64 * pg_size) small)
alloc_phys_frames_aligned-BestFit_example =
    Best.alloc_phys_frames_aligned-BestFit 3 0 small-IsReady (omega arith) (omega arith)
