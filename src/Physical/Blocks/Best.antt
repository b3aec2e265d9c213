-- ===== src/Physical/Blocks/Best.antt =====
-- The search of alloc_phys_frames_aligned, round by round.
use native.Mathlib.Decide.{dec_lt, dec_le, ℕ_discrete}
use rtv.Base.{
  ℕ, zero, suc, ◌+◌, ◌*◌, ◌/◌, ◌%◌, ◌^◌, ◌≤◌, ◌<◌, ◌≡◌, ◌⊎◌, inl, inr, refl, true, false, arith,
  leb, ◌==◌, if◌then◌else◌,
}
use rtv.Base.Run.{Run, Cmd, and_then, ◌>>=◌}
use rtv.Word.{shr, shl64}
use rtv.Word.Laws.{bit-zero, two_pow_pos}
use native.Mathlib.Nat.{pow-suc, pow-le-pow_right}
use rtv.Bits.Word.{same_word}
use rtv.Physical.Defs.{Phys, pg_size, pg_bits}
use rtv.Physical.State.{IsReady, free_at, held, acquire_lem, release_lem}
use rtv.Physical.Blocks.{scan_fuel, count_below, find_aligned, alloc_phys_frames_aligned}
use rtv.Physical.Blocks.Sound.{take_block_lem}
use rtv.Physical.Blocks.Aligned.{
  mul_mono, Landed, landed, skip_aligned-Landed, Stretch, stretch, count_below-Stretch,
  align_up_lem,
}
use rtv.Physical.Blocks.Fit.{
  Fits, NoFit, Taken, Refused, BestFit, above_limit, find_aligned-end, find_aligned-empty,
  find_aligned-scan,
}
use rtv.Physical.Blocks.Fit

module _ {s : Phys} (ready : IsReady s) (num w : ℕ) (some_frames : 0 < num)
    (some_words : 0 < w) where
  abbrev inc : ℕ
  inc = w * 64

  abbrev here : Phys
  here = held s s.mm_table

  abbrev counted : ℕ → ℕ → ℕ × ℕ → Cmd Phys ℕ
  counted = Fit.counted ready num w some_frames some_words

  abbrev Best : Run Phys ℕ → Type 0
  Best r = BestFit s num inc r

  -- Behind a frame that is taken, no block from before it fits.
  NoFit-past :
      (k k' end : ℕ)
      → NoFit s num inc k
      → end < k * inc + num
      → free_at s end ≡ false
      → k' * inc < end + 1 + inc
      → NoFit s num inc k'
  NoFit-past k k' end none near taken close j lt high fit = elim (dec_lt j k) [
    | yes p ↦ none j p high fit
    | no p ↦
        let reach : end < j * inc + num = omega (arith, mul_mono k j inc (omega arith)) in
        let from : j * inc ≤ end = omega (arith, mul_mono (j + 1) k' inc (omega arith)) in
        ground (arith, fit.free end)
  ]

  counted-BestFit :
      (fuel k : ℕ) (r : Run Phys (ℕ × ℕ))
      → 256 ≤ k * inc
      → NoFit s num inc k
      → Stretch here num (k * inc) 0 r
      → ((k' : ℕ)
          → k < k'
          → NoFit s num inc k'
          → Best (find_aligned fuel num inc (k' * w) (k' * inc) here))
      → Best (and_then r (counted fuel (k * inc)))
  counted-BestFit fuel k _ high none (stretch end total lo hi sum free inside stop) next =
      elim (ℕ_discrete total num) [
        | yes e ↦
            let below : k * inc + num ≤ s.mm_limit = ground arith in
            let limit = ready.limit in
            let room = ready.fits in
            rw (found e) (
              inl (record {
                index = k;
                high = high;
                fits = record { inside = below; free = rw (whole e) at free };
                lowest = none;
                returns = take_block_lem ready num 256 (k * inc) (omega arith);
              }))
        | no ne ↦ elim (dec_le s.mm_limit end) [
          | yes out ↦
              rw (short ne, at_limit out, release_lem s)
                (inr (record {
                  none_fits = above_limit ready num w some_frames some_words k none (omega arith);
                  returns = refl;
                }))
          | no in_reach ↦
              let (k', eq, above, close) = align_up_lem (end + 1) inc here (omega arith) in
              let taken : free_at s end ≡ false = ground arith in
              rw (short ne, below_limit in_reach, eq, word_of_bit k')
                (next k' (later k' above) (NoFit-past k k' end none (omega arith) taken close))
        ]
      ]
    where
      found : total ≡ num → (total == num) ≡ true
      found e = ground arith

      whole : total ≡ num → end ≡ k * inc + num
      whole e = omega arith

      short : (total ≡ num → ⊥) → (total == num) ≡ false
      short ne = ground arith

      at_limit : s.mm_limit ≤ end → leb s.mm_limit end ≡ true
      at_limit h = ground arith

      below_limit : (s.mm_limit ≤ end → ⊥) → leb s.mm_limit end ≡ false
      below_limit h = ground arith

      word_of_bit : (k' : ℕ) → shr (k' * inc) 6 ≡ k' * w
      word_of_bit k' = omega arith

      later : (k' : ℕ) → end + 1 ≤ k' * inc → k < k'
      later k' h = elim (dec_lt k k') [
        | yes p ↦ p
        | no p ↦ absurd (omega (arith, mul_mono k' k inc (omega arith)))
      ]

  NoFit-taken :
      (k k' : ℕ)
      → NoFit s num inc k
      → ((j : ℕ) → k ≤ j → j < k' → free_at s (j * inc) ≡ false)
      → NoFit s num inc k'
  NoFit-taken k k' none taken j lt high fit = elim (dec_lt j k) [
    | yes p ↦ none j p high fit
    | no p ↦
        let at : free_at s (j * inc) ≡ true = fit.free (j * inc) (omega arith) (omega arith) in
        ground (arith, taken j)
  ]

  Landed-BestFit :
      (fuel k : ℕ) (r : Run Phys ℕ)
      → 256 ≤ k * inc
      → NoFit s num inc k
      → Landed here inc k r
      → ((k' : ℕ)
          → k < k'
          → NoFit s num inc k'
          → Best (find_aligned fuel num inc (k' * w) (k' * inc) here))
      → Best (and_then r (λ start. do t ← count_below num start 0; counted fuel start t))
  Landed-BestFit fuel k _ high none (landed k' le taken) next =
      let limit = ready.limit in
      let room = ready.fits in
      counted-BestFit fuel k' _ (omega (arith, mul_mono k k' inc le)) (NoFit-taken k k' none taken)
        (count_below-Stretch here (omega arith) num (k' * inc) 0) (λ k'' lt. next k'' (omega arith))

  find_aligned-BestFit :
      (fuel k : ℕ)
      → 256 ≤ k * inc
      → NoFit s num inc k
      → 0 < fuel
      → s.entry_end * 64 < k * inc + fuel
      → Best (find_aligned fuel num inc (k * w) (k * inc) here)
  find_aligned-BestFit zero k high none some_fuel enough = absurd (omega arith)
  find_aligned-BestFit (suc fuel) k high none some_fuel enough =
      let limit = ready.limit in
      let room = ready.fits in
      elim (dec_lt (k * w) s.entry_end) [
        | no out ↦ rw (find_aligned-end ready num w some_frames some_words fuel k (omega arith)) (
            inr (record {
              none_fits = above_limit ready num w some_frames some_words k none (omega arith);
              returns = refl;
            }))
        | yes lt ↦ elim (ℕ_discrete (s.mm_table (k * w)) 0) [
          | yes e ↦ rw (find_aligned-empty ready num w some_frames some_words fuel k lt e) (
              find_aligned-BestFit fuel (k + 1) (omega arith)
                (NoFit-taken k (k + 1) none (λ j lo hi. empty e j lo hi)) (omega arith)
                (omega arith))
          | no ne ↦
              rw (find_aligned-scan ready num w some_frames some_words fuel k lt (omega arith)) (
                Landed-BestFit fuel k _ high none
                  (skip_aligned-Landed here (omega arith) scan_fuel inc k (omega arith)
                    (omega arith) (omega arith))
                  (λ k' more none'.
                    find_aligned-BestFit fuel k' (omega (arith, mul_mono k k' inc (omega arith)))
                      none' (omega arith) (omega (arith, mul_mono (k + 1) k' inc (omega arith)))))
        ]
      ]
    where
      empty : s.mm_table (k * w) ≡ 0 → (j : ℕ) → k ≤ j → j < k + 1 → free_at s (j * inc) ≡ false
      empty e j lo hi =
          let same : j ≡ k = omega arith in
          let word : k * w ≡ k * inc / 64 = omega arith in
          rw (same, same_word s.mm_table (k * inc) (k * w) word, e) (bit-zero (k * inc % 64))

-- The search begins at multiple `k`: at the fifth word, or at the first multiple if that is later.
abbrev Start : ℕ → ℕ → Type 0
Start w k = ((4 < w) × (k ≡ 1)) ⊎ ((w ≤ 4) × (k * w ≡ 4))

Start-BestFit :
    {s : Phys} (num w k : ℕ)
    → IsReady s
    → 0 < num
    → 0 < w
    → w < 2 ^ 34
    → Start w k
    → BestFit s num (w * 64) (alloc_phys_frames_aligned num (w * 64 * pg_size) s)
unfolding alloc_phys_frames_aligned
Start-BestFit {s} num w k ready some_frames some_words small start =
    let room = ready.fits in
    rw (acquire_lem ready, pages, words, first, bits)
      (find_aligned-BestFit ready num w some_frames some_words scan_fuel k high none (omega arith)
        (omega arith))
  where
    pages : shr (w * 64 * pg_size) pg_bits ≡ w * 64
    pages = omega arith

    words : shr (w * 64) 6 ≡ w
    words = omega arith

    first : (if leb w 4 then 4 else w) ≡ k * w
    first = elim start [
      | inl (big, one) ↦ rw one (ground arith)
      | inr (little, e) ↦ rw e (ground arith)
    ]

    bound : k * w < 2 ^ 34
    bound = elim start [ inl (big, one) ↦ rw one (omega arith) | inr (little, e) ↦ omega arith ]

    bits : shl64 (k * w) 6 ≡ k * (w * 64)
    bits = omega (arith, bound)

    high : 256 ≤ k * (w * 64)
    high = elim start [ inl (big, one) ↦ rw one (omega arith) | inr (little, e) ↦ omega arith ]

    none : NoFit s num (w * 64) k
    none j lt from fit = elim start [
      | inl (big, one) ↦
          let first_multiple : j ≡ 0 = omega arith in
          let low : j * (w * 64) ≡ 0 = rw first_multiple (omega arith) in omega arith
      | inr (little, e) ↦ omega (arith, mul_mono (j + 1) k w (omega arith))
    ]

-- Between calls, for one frame or more and an alignment of 2 ^ (18 + e) bytes with e below 34:
-- `alloc_phys_frames_aligned` clears the bits of the lowest aligned block of `num` free frames that
-- lies above the first megabyte and below the limit, and returns its address, or it returns 0 with
-- the table unchanged where no such block is free. It always ends, reads inside the table, and
-- releases the lock.
pub alloc_phys_frames_aligned-BestFit :
    {s : Phys} (num e : ℕ)
    → IsReady s
    → 0 < num
    → e < 34
    → BestFit s num (2 ^ e * 64) (alloc_phys_frames_aligned num (2 ^ e * 64 * pg_size) s)
alloc_phys_frames_aligned-BestFit num e ready some_frames small =
    Start-BestFit num (2 ^ e) (multiple e) ready some_frames (two_pow_pos e) (below e small)
      (starts e)
  where
    multiple : ℕ → ℕ
    multiple zero = 4
    multiple (suc zero) = 2
    multiple (suc (suc e)) = 1

    below : (e : ℕ) → e < 34 → 2 ^ e < 2 ^ 34
    below e h =
        let capped : 2 ^ e ≤ 2 ^ 33 =
          pow-le-pow_right (omega arith) {i = e} {j = 33} (omega arith) in
        omega arith

    starts : (e : ℕ) → Start (2 ^ e) (multiple e)
    starts zero = inr (omega arith, refl)
    starts (suc zero) = inr (omega arith, refl)
    starts (suc (suc zero)) = inr (omega arith, refl)
    starts (suc (suc (suc e))) = inl (big, refl)
      where
        big : 4 < 2 ^ suc (suc (suc e))
        big = omega (arith, pow-suc 2 (suc (suc e)), pow-suc 2 (suc e), pow-suc 2 e, two_pow_pos e)
