-- ===== src/Physical/Next/Maximal.antt =====
-- What physical_next_free_range reports: the first maximal run of free frames.
use native.Mathlib.Decide.{dec_lt, ℕ_discrete}
use rtv.Base.{
  ℕ, zero, suc, ◌+◌, ◌-◌, ◌*◌, ◌/◌, ◌^◌, ◌≤◌, ◌<◌, ◌≡◌, ◌⊎◌, inl, inr, refl, ap, ◌∙◌, false, arith,
  Bool-cases, leb,
}
use rtv.Base.Run.{Run, ok, and_then}
use rtv.Word.{u64, shr, shl64, sub64}
use rtv.Word.Laws.{bit_of_pos}
use rtv.Bits.Word.{bit_at-word}
use rtv.Physical.Defs.{Phys, mm_table_max, pg_bits, pg_size}
use rtv.Physical.State.{IsReady, free_at}
use rtv.Physical.Next.{
  Scan, reached, range_of, extend_words, after_first, after_second, physical_next_free_range,
}
use rtv.Physical.Next.Runs.{
  EndsRun, Scanned, at_taken, at_end, scan_bits-Scanned, skip_words-Skipped,
}
use rtv.Physical.Next.Extend.{
  CountsTrailing, Reported, NoneLeft, range_of_lem, EndsRun-Reported, extend_words-Reported,
}

-- The limit lies inside the table, and no frame behind the limit is free.
abbrev pub IsLimited : Phys → Type 0
IsLimited s = (s.entry_end < mm_table_max) × ((m : ℕ) → s.entry_end * 64 ≤ m → free_at s m ≡ false)

module _ (ctzll : ℕ → ℕ) (counts : CountsTrailing ctzll) {s : Phys} (ready : IsReady s) where
  extend_words-zero :
      (i : ℕ) → extend_words ctzll 0 i 0 s ≡ ok (shl64 (sub64 (shl64 i 6) 0) pg_bits, 0) s
  unfolding extend_words range_of
  extend_words-zero i = refl

  abbrev pub Outcome : ℕ → Run Phys (ℕ × ℕ) → Type 0
  Outcome lo r = Reported s lo r ⊎ NoneLeft s lo r

  module _ (limited : IsLimited s) (lo : ℕ) where
    -- The loop over the bits of the word that was found.
    second_scan :
        (i : ℕ) {r : Run Phys Scan}
        → i ≤ s.entry_end
        → (i < s.entry_end → 0 < s.mm_table i)
        → EndsRun s lo (i * 64) 0
        → Scanned s lo (i * 64 + 64) r
        → Outcome lo (and_then r (after_second ctzll s.entry_end i))
    unfolding after_second
    second_scan i le occupied before (at_taken b c lt run pos stop) =
        let bound = run.bound in
        let inside = limited.0 in
        inl (
          EndsRun-Reported s lo b c _ run pos stop
            (ap (λ (p : ℕ × ℕ). ok p s) (range_of_lem b c (omega arith) (omega arith))))
    second_scan i le occupied before (at_end c run) = elim (ℕ_discrete i s.entry_end) [
      | yes last ↦ inr (record {
        none_free = λ m h. elim (dec_lt m (i * 64)) [
          | yes below ↦ before.taken m h (omega arith)
          | no beyond ↦ limited.1 m (omega arith)
        ];
        start = shl64 (sub64 (shl64 (i + 1) 6) 0) pg_bits;
        returns = rw (no_word last, none_there last) (extend_words-zero (i + 1));
      })
      | no more ↦ inl (
          extend_words-Reported ctzll counts ready lo (s.entry_end - (i + 1)) (i + 1) c
            (omega arith) (some_free (occupied (omega arith)) run)
            (limited.1 (s.entry_end * 64) (omega arith)) (rw next_word at run))
    ]
      where
        next_word : i * 64 + 64 ≡ (i + 1) * 64
        next_word = omega arith

        no_word : i ≡ s.entry_end → s.entry_end - (i + 1) ≡ 0
        no_word last = omega arith

        none_there : i ≡ s.entry_end → c ≡ 0
        none_there last = elim (ℕ_discrete c 0) [
          | yes e ↦ e
          | no ne ↦ absurd (
              cc (
                run.free (i * 64 + 63) (omega arith) (omega arith),
                limited.1 (i * 64 + 63) (omega arith),
              ))
        ]

        some_free : 0 < s.mm_table i → EndsRun s lo (i * 64 + 64) c → 0 < c
        some_free nonzero whole =
            let (j, lt, set) = bit_of_pos 64 (s.mm_table i) (ready.words i) nonzero in
            let here = bit_at-word s.mm_table i j lt ∙ set in
            let bound = before.bound in ground (arith, whole.taken (i * 64 + j), here)

    -- What follows the first word when no run has begun in it.
    later_words :
        (i : ℕ)
        → i ≤ s.entry_end
        → EndsRun s lo (i * 64) 0
        → Outcome lo (after_first ctzll s.entry_end i (reached 0) s)
    unfolding after_first
    later_words i le run =
        let fits = ready.fits in
        let inside = limited.0 in
        let k = skip_words-Skipped s lo (s.entry_end - i) i s.entry_end (omega arith) fits run in
        let below = k.below in
        rw (k.returns, word_bits k.word below inside)
          (second_scan k.word below k.occupied k.run
            (scan_bits-Scanned s lo 64 (k.word * 64) 0 (k.word * 64 + 64) refl (omega arith) k.run))
      where
        word_bits : (j : ℕ) → j ≤ s.entry_end → s.entry_end < mm_table_max → shl64 j 6 ≡ j * 64
        word_bits j le inside = omega arith

    first_scan :
        (i : ℕ) {r : Run Phys Scan}
        → i ≤ s.entry_end
        → Scanned s lo (i * 64) r
        → Outcome lo (and_then r (after_first ctzll s.entry_end i))
    first_scan i le (at_taken b c lt run pos stop) =
        unfold after_first in
        let bound = run.bound in
        let inside = limited.0 in
        inl (
          EndsRun-Reported s lo b c _ run pos stop
            (ap (λ (p : ℕ × ℕ). ok p s) (range_of_lem b c (omega arith) (omega arith))))
    first_scan i le (at_end zero run) = later_words i le run
    first_scan i le (at_end (suc c) run) =
        unfold after_first in
        inl (
          extend_words-Reported ctzll counts ready lo (s.entry_end - i) i (suc c) (omega arith)
            (omega arith) (limited.1 (s.entry_end * 64) (omega arith)) run)

  -- Between calls, where the limit lies inside the table and no frame behind it is free, and for a
  -- `__builtin_ctzll` that counts the zero digits below the lowest one that is set:
  -- `physical_next_free_range` reports the first frames from that of `current` on that are free, as
  -- many as are free in a row, or a size of 0 where no frame is free from there on. It reads inside the
  -- table and changes nothing.
  pub physical_next_free_range-Reported :
      (current start : ℕ)
      → current < 2 ^ 64
      → IsLimited s
      → Outcome (current / pg_size) (physical_next_free_range ctzll current start s)
  unfolding physical_next_free_range
  physical_next_free_range-Reported current start fits limited =
      elim (Bool-cases (leb s.entry_end (shr (shr current pg_bits) 6))) [
        | inl beyond ↦ rw beyond (
            inr (record {
              none_free = λ m h. limited.1 m (ground arith);
              start = start;
              returns = refl;
            }))
        | inr inside ↦
            let bit : ℕ = current / pg_size in
            let end : ℕ = (bit + 63) / 64 in
            let below = limited.0 in
            rw (inside, ends)
              (rw words (
                first_scan limited bit end (ground arith) (
                  scan_bits-Scanned s bit (end * 64 - bit) bit 0 (end * 64) (omega arith)
                    (ground arith)
                    (record {
                      bound = omega arith;
                      taken = λ m h h'. absurd (omega arith);
                      free = λ m h h'. absurd (omega arith);
                    }))))
      ]
    where
      ends : u64 (current / pg_size + 64 - 1) / 64 * 64 ≡ (current / pg_size + 63) / 64 * 64
      ends = omega arith

      words : shr ((current / pg_size + 63) / 64 * 64) 6 ≡ (current / pg_size + 63) / 64
      words = omega arith
