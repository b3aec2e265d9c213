-- ===== src/Physical/Next/Extend.antt =====
-- The runs of free frames that physical_next_free_range reports, and its last loop.
use native.Mathlib.Decide.{ℕ_discrete}
use rtv.Base.{
  ℕ, zero, suc, ◌+◌, ◌-◌, ◌*◌, ◌^◌, ◌≤◌, ◌<◌, ◌≡◌, ◌≢◌, refl, ap, ◌∙◌, true, false, arith, ◌==◌,
}
use rtv.Base.Run.{Run, ok}
use rtv.Word.{uint64_max, shl64, sub64, not64, bit}
use rtv.Word.Laws.{bit_ones}
use rtv.Word.Lowest.{IsLowest}
use rtv.Bits.Word.{bit-not64, bit_at-word}
use rtv.Physical.Defs.{Phys, mm_table_max, pg_bits, pg_size}
use rtv.Physical.State.{IsReady, free_at, read_word_lem}
use rtv.Physical.Next.{range_of, count_trailing_zeros_bit64, extend_words}
use rtv.Physical.Next.Runs.{EndsRun, EndsRun-ones}

-- `__builtin_ctzll` is documented to count the zero digits below the lowest one that is set.
abbrev pub CountsTrailing : (ℕ → ℕ) → Type 0
CountsTrailing ctzll = (w : ℕ) → w < 2 ^ 64 → 0 < w → IsLowest w (ctzll w) × (ctzll w < 64)

-- The result reports the `count` frames from `first` on: they are free, no frame from `lo` to them is,
-- and the frame behind them is not.
pub record Reported (s : Phys) (lo : ℕ) (r : Run Phys (ℕ × ℕ)) : Type 0 where
  pub first : ℕ
  pub count : ℕ
  pub some_free : 0 < count
  pub from : lo ≤ first
  pub none_before : (m : ℕ) → lo ≤ m → m < first → free_at s m ≡ false
  pub free : (m : ℕ) → first ≤ m → m < first + count → free_at s m ≡ true
  pub ends : free_at s (first + count) ≡ false
  pub returns : r ≡ ok (first * pg_size, count * pg_size) s

-- The result reports a range of size 0, and no frame from `lo` on is free.
pub record NoneLeft (s : Phys) (lo : ℕ) (r : Run Phys (ℕ × ℕ)) : Type 0 where
  pub none_free : (m : ℕ) → lo ≤ m → free_at s m ≡ false
  pub start : ℕ
  pub returns : r ≡ ok (start, 0) s

pub range_of_lem :
    (b count : ℕ)
    → count ≤ b
    → b ≤ mm_table_max * 64
    → range_of b count ≡ ((b - count) * pg_size, count * pg_size)
unfolding range_of
range_of_lem b count le room = rw (start, size)
  where
    start : shl64 (sub64 b count) pg_bits ≡ (b - count) * pg_size
    start = omega arith

    size : shl64 count pg_bits ≡ count * pg_size
    size = omega arith

pub EndsRun-Reported :
    (s : Phys) (lo b count : ℕ) (r : Run Phys (ℕ × ℕ))
    → EndsRun s lo b count
    → 0 < count
    → free_at s b ≡ false
    → r ≡ ok ((b - count) * pg_size, count * pg_size) s
    → Reported s lo r
EndsRun-Reported s lo b count r run pos stop e = record {
  first = b - count;
  count = count;
  some_free = pos;
  from = let h = run.bound in omega arith;
  none_before = λ m h h'. run.taken m h (omega arith);
  free = λ m h h'. let k = run.bound in run.free m (omega arith) (omega arith);
  ends = let k = run.bound in rw (back k) stop;
  returns = e;
}
  where
    back : lo + count ≤ b → b - count + count ≡ b
    back k = omega arith

stopped_start :
    (i count c : ℕ)
    → count ≤ i * 64
    → i < mm_table_max
    → shl64 (sub64 (shl64 i 6) count) pg_bits ≡ (i * 64 + c - (count + c)) * pg_size
stopped_start i count c le room = omega arith

module _ (ctzll : ℕ → ℕ) (counts : CountsTrailing ctzll) {s : Phys} (ready : IsReady s) where
  module _ (left i count : ℕ) (room : i < mm_table_max) where
    extend_words-next :
        s.mm_table i ≡ uint64_max
        → extend_words ctzll (suc left) i count s ≡ extend_words ctzll left (i + 1) (count + 64) s
    unfolding extend_words
    extend_words-next e = rw (read_word_lem s i room, full)
      where
        full : (s.mm_table i == uint64_max) ≡ true
        full = ground arith

    extend_words-stops :
        s.mm_table i ≢ uint64_max
        → extend_words ctzll (suc left) i count s
          ≡ ok
              (
                shl64 (sub64 (shl64 i 6) count) pg_bits,
                shl64 (count + count_trailing_zeros_bit64 ctzll (not64 (s.mm_table i))) pg_bits,
              )
              s
    unfolding extend_words
    extend_words-stops ne = rw (read_word_lem s i room, not_full)
      where
        not_full : (s.mm_table i == uint64_max) ≡ false
        not_full = ground arith

  stopped_size :
      (i count c w : ℕ)
      → ctzll w ≡ c
      → c < 64
      → count ≤ i * 64
      → i < mm_table_max
      → shl64 (count + count_trailing_zeros_bit64 ctzll w) pg_bits ≡ (count + c) * pg_size
  unfolding count_trailing_zeros_bit64
  stopped_size i count c w e lt le room = omega arith

  -- The lowest taken frame of a word that is not all ones.
  lowest_taken :
      (i : ℕ)
      → s.mm_table i ≢ uint64_max
      → IsLowest (not64 (s.mm_table i)) (ctzll (not64 (s.mm_table i)))
        × (ctzll (not64 (s.mm_table i)) < 64)
  lowest_taken i ne =
      let h = ready.words i in counts (not64 (s.mm_table i)) (omega arith) (omega arith)

  pub extend_words-Reported :
      (lo left i count : ℕ)
      → i + left ≡ s.entry_end
      → 0 < count
      → free_at s (s.entry_end * 64) ≡ false
      → EndsRun s lo (i * 64) count
      → Reported s lo (extend_words ctzll left i count s)
  extend_words-Reported lo zero i count ends pos stop r =
      let fits = ready.fits in
      let bound = r.bound in
      EndsRun-Reported s lo (i * 64) count _ r pos (rw (last ends) stop) (
        unfold extend_words in
        rw (word_bits fits)
          (ap (λ (p : ℕ × ℕ). ok p s) (range_of_lem (i * 64) count (omega arith) (omega arith))))
    where
      last : i + 0 ≡ s.entry_end → i ≡ s.entry_end
      last e = omega arith

      word_bits : s.entry_end ≤ mm_table_max → shl64 i 6 ≡ i * 64
      word_bits fits = omega arith
  extend_words-Reported lo (suc left) i count ends pos stop r =
      elim (ℕ_discrete (s.mm_table i) uint64_max) [
        | yes full ↦
            let fits = ready.fits in
            rw (extend_words-next left i count (omega arith) full) (
              extend_words-Reported lo left (i + 1) (count + 64) (omega arith) (omega arith) stop (
                rw next_word at (
                  EndsRun-ones s lo i count 64 (omega arith)
                    (λ j lt. rw full (bit_ones 64 j ∙ ground arith)) r)))
        | no ne ↦
            let (low, lt) = lowest_taken i ne in
            let c = ctzll (not64 (s.mm_table i)) in
            let fits = ready.fits in
            let bound = r.bound in
            rw (extend_words-stops left i count (omega arith) ne) (
              EndsRun-Reported s lo (i * 64 + c) (count + c) _
                (EndsRun-ones s lo i count c (omega arith) (λ j h. set_below ne j h) r)
                (omega arith) (bit_at-word s.mm_table i c lt ∙ clear ne)
                (rw (
                  stopped_start i count c (omega arith) (omega arith),
                  stopped_size i count c (not64 (s.mm_table i)) refl (omega arith) (omega arith)
                      (omega arith),
                )))
      ]
    where
      next_word : i * 64 + 64 ≡ (i + 1) * 64
      next_word = omega arith

      set_below :
          s.mm_table i ≢ uint64_max
          → (j : ℕ) → j < ctzll (not64 (s.mm_table i))
          → bit (s.mm_table i) j ≡ true
      set_below ne j h =
          let (low, lt) = lowest_taken i ne in
          ground (arith, low.below j h, bit-not64 (s.mm_table i) j (ready.words i))

      clear : s.mm_table i ≢ uint64_max → bit (s.mm_table i) (ctzll (not64 (s.mm_table i))) ≡ false
      clear ne =
          let (low, lt) = lowest_taken i ne in
          ground (
            arith,
            low.set,
            bit-not64 (s.mm_table i) (ctzll (not64 (s.mm_table i))) (ready.words i) lt,
          )
