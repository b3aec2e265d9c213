-- ===== src/Physical/Blocks/Fit.antt =====
-- alloc_phys_frames_aligned finds the lowest aligned block that fits, or there is none.
use native.Mathlib.Decide.{dec_lt}
use rtv.Base.{
  ℕ, suc, ◌+◌, ◌*◌, ◌≤◌, ◌<◌, ◌≡◌, ◌⊎◌, true, false, arith, ltb, leb, ◌==◌, if◌then◌else◌,
}
use rtv.Base.Run.{Run, ok, Cmd, ◌>>=◌, ◌>>◌, pure}
use rtv.Word.{shr}
use rtv.Bits.{bitmap64_clear_range}
use rtv.Physical.Defs.{Phys, pg_size, release}
use rtv.Physical.State.{IsReady, held, after, release_lem, read_word_lem}
use rtv.Physical.Blocks.{scan_fuel, skip_aligned, count_below, align_up, take_block, find_aligned}
use rtv.Physical.Blocks.Scan.{AllFree}
use rtv.Physical.Blocks.Aligned.{mul_mono}

-- The block of `num` frames from multiple `k` of `inc` on lies below the limit and is free.
pub record Fits (s : Phys) (num inc k : ℕ) : Type 0 where
  pub inside : k * inc + num ≤ s.mm_limit
  pub free : AllFree s (k * inc) (k * inc + num)

abbrev pub NoFit : Phys → ℕ → ℕ → ℕ → Type 0
NoFit s num inc k = (j : ℕ) → j < k → 256 ≤ j * inc → Fits s num inc j → ⊥

-- The lowest block that fits was taken.
pub record Taken (s : Phys) (num inc : ℕ) (r : Run Phys ℕ) : Type 0 where
  pub index : ℕ
  pub high : 256 ≤ index * inc
  pub fits : Fits s num inc index
  pub lowest : NoFit s num inc index
  pub returns :
      r ≡ ok (index * inc * pg_size) (after s (bitmap64_clear_range s.mm_table (index * inc) num))

-- No block fits, and nothing changed.
pub record Refused (s : Phys) (num inc : ℕ) (r : Run Phys ℕ) : Type 0 where
  pub none_fits : (k : ℕ) → NoFit s num inc k
  pub returns : r ≡ ok 0 (after s s.mm_table)

abbrev pub BestFit : Phys → ℕ → ℕ → Run Phys ℕ → Type 0
BestFit s num inc r = Taken s num inc r ⊎ Refused s num inc r

module _ {s : Phys} (ready : IsReady s) (num w : ℕ) (some_frames : 0 < num)
    (some_words : 0 < w) where
  abbrev pub inc : ℕ
  inc = w * 64

  abbrev pub here : Phys
  here = held s s.mm_table

  -- What follows the count in one round.
  abbrev pub counted : ℕ → ℕ → ℕ × ℕ → Cmd Phys ℕ
  counted fuel start (cur, count) = if count == num then take_block start num else λ s.
      (if leb s.mm_limit cur
          then (do release; pure 0)
          else (do next ← align_up (cur + 1) inc; find_aligned fuel num inc (shr next 6) next))
        s

  pub above_limit :
      (k : ℕ) → NoFit s num inc k → s.mm_limit < k * inc + num → (j : ℕ) → NoFit s num inc j
  above_limit k none above j i lt high fit = elim (dec_lt i k) [
    | yes p ↦ none i p high fit
    | no p ↦ let h = fit.inside in omega (arith, mul_mono k i inc (omega arith))
  ]

  pub find_aligned-end :
      (fuel k : ℕ)
      → s.entry_end ≤ k * w
      → find_aligned (suc fuel) num inc (k * w) (k * inc) here ≡ ok 0 (after s s.mm_table)
  unfolding find_aligned
  find_aligned-end fuel k le = rw (test, release_lem s)
    where
      test : ltb (k * w) s.entry_end ≡ false
      test = ground arith

  pub find_aligned-empty :
      (fuel k : ℕ)
      → k * w < s.entry_end
      → s.mm_table (k * w) ≡ 0
      → find_aligned (suc fuel) num inc (k * w) (k * inc) here
        ≡ find_aligned fuel num inc ((k + 1) * w) ((k + 1) * inc) here
  unfolding find_aligned
  find_aligned-empty fuel k lt e =
      let fits = ready.fits in
      rw (test, read_word_lem here (k * w) (omega arith), empty, whole, word_step, bit_step)
    where
      test : ltb (k * w) s.entry_end ≡ true
      test = ground arith

      empty : (s.mm_table (k * w) == 0) ≡ true
      empty = ground arith

      whole : ltb 0 (shr inc 6) ≡ true
      whole = ground arith

      word_step : k * w + shr inc 6 ≡ (k + 1) * w
      word_step = omega arith

      bit_step : k * inc + inc ≡ (k + 1) * inc
      bit_step = omega arith

  pub find_aligned-scan :
      (fuel k : ℕ)
      → k * w < s.entry_end
      → 0 < s.mm_table (k * w)
      → find_aligned (suc fuel) num inc (k * w) (k * inc) here
        ≡ (do
          start ← skip_aligned scan_fuel inc (k * inc)
          t ← count_below num start 0
          counted fuel start t)
            here
  unfolding find_aligned
  find_aligned-scan fuel k lt pos =
      let fits = ready.fits in rw (test, read_word_lem here (k * w) (omega arith), occupied)
    where
      test : ltb (k * w) s.entry_end ≡ true
      test = ground arith

      occupied : (s.mm_table (k * w) == 0) ≡ false
      occupied = ground arith
