-- ===== src/Physical/Frame.antt =====
-- alloc_phys_frame, alloc_phys_frame_lowmem and free_phys_frame: one frame.
use native.Mathlib.Decide.{ℕ_discrete}
use rtv.Base.{
  ℕ, zero, suc, ◌+◌, ◌-◌, ◌*◌, ◌/◌, ◌%◌, ◌^◌, ◌≤◌, ◌<◌, ◌≡◌, ◌⊎◌, inl, inr, ap, ◌∙◌, true, false,
  not, ◌&&◌, arith, ltb, ◌==◌, Bool-cases,
}
use rtv.Base.Run.{Run, ok}
use rtv.Word.{shr, shl64}
use rtv.Word.Laws.{bit-zero}
use rtv.Bits.{Words, bit_at, store, clear_bit64, bitmap64_set}
use rtv.Bits.Word.{
  bit_at-store, bit-clear_bit64, bit_at-word, same_word, store-fits, clear_bit64-lt,
}
use rtv.Physical.Defs.{
  Phys, mm_table_max, pg_bits, pg_size, lowest_bit, clear_word_bit, first_frame, alloc_phys_frame,
  alloc_phys_frame_lowmem, free_phys_frame,
}
use rtv.Physical.State.{
  IsReady, free_at, held, after, acquire_lem, release_lem, read_word_lem, lowest_bit_lem,
}

-- The lowest free frame of `[lo, hi)` was taken, and nothing else changed.
pub record Found (s : Phys) (lo hi : ℕ) (r : Run Phys ℕ) : Type 0 where
  pub frame : ℕ
  pub table : Words
  pub from : lo ≤ frame
  pub below : frame < hi
  pub was_free : free_at s frame ≡ true
  pub first : (m : ℕ) → lo ≤ m → m < frame → free_at s m ≡ false
  pub returns : r ≡ ok (frame * pg_size) (after s table)
  pub taken : (j : ℕ) → bit_at table j ≡ (not (frame == j) && free_at s j)
  pub words : (i : ℕ) → table i < 2 ^ 64

-- No frame of `[lo, hi)` is free, and the table is as it was.
pub record Exhausted (s : Phys) (lo hi : ℕ) (r : Run Phys ℕ) : Type 0 where
  pub none_free : (m : ℕ) → lo ≤ m → m < hi → free_at s m ≡ false
  pub returns : r ≡ ok 0 (after s s.mm_table)

abbrev pub FirstFit : Phys → ℕ → ℕ → Run Phys ℕ → Type 0
FirstFit s lo hi r = Found s lo hi r ⊎ Exhausted s lo hi r

-- A word that is zero has no free frame.
free_at-zero : (s : Phys) (i m : ℕ) → s.mm_table i ≡ 0 → m / 64 ≡ i → free_at s m ≡ false
unfolding bit_at
free_at-zero s i m e at = rw (at, e) (bit-zero (m % 64))

FirstFit-skip :
    (s : Phys) (i hi : ℕ) (r : Run Phys ℕ)
    → s.mm_table i ≡ 0
    → FirstFit s ((i + 1) * 64) hi r
    → FirstFit s (i * 64) hi r
FirstFit-skip s i hi r e (inl f) = inl (record {
  frame = f.frame;
  table = f.table;
  from = let h = f.from in omega arith;
  below = f.below;
  was_free = f.was_free;
  first = λ m lo lt. ground (arith, f.first m, free_at-zero s i m e);
  returns = f.returns;
  taken = f.taken;
  words = f.words;
})
FirstFit-skip s i hi r e (inr x) = inr (record {
  none_free = λ m lo lt. ground (arith, x.none_free m, free_at-zero s i m e);
  returns = x.returns;
})

module _ (s : Phys) (left i : ℕ) (room : i < mm_table_max) where
  first_frame-next :
      s.mm_table i ≡ 0
      → first_frame (suc left) i (held s s.mm_table) ≡ first_frame left (i + 1) (held s s.mm_table)
  unfolding first_frame
  first_frame-next e = rw (read_word_lem (held s s.mm_table) i room, empty)
    where
      empty : (s.mm_table i == 0) ≡ true
      empty = ground arith

  first_frame-stops :
      0 < s.mm_table i
      → lowest_bit (s.mm_table i) < 64
      → first_frame (suc left) i (held s s.mm_table)
        ≡ ok
            ((i * 64 + lowest_bit (s.mm_table i)) * pg_size)
            (after s (store s.mm_table i (clear_bit64 (s.mm_table i) (lowest_bit (s.mm_table i)))))
  unfolding first_frame clear_word_bit
  first_frame-stops pos lt =
      rw (read_word_lem (held s s.mm_table) i room, occupied, release_lem s, address)
    where
      occupied : (s.mm_table i == 0) ≡ false
      occupied = ground arith

      address :
          shl64 (shl64 i 6 + lowest_bit (s.mm_table i)) pg_bits
          ≡ (i * 64 + lowest_bit (s.mm_table i)) * pg_size
      address = omega arith

module _ {s : Phys} (ready : IsReady s) where
  -- The word that the loop stops at.
  take_lowest :
      (left i : ℕ) (hi : ℕ)
      → i < mm_table_max
      → (i + 1) * 64 ≤ hi
      → 0 < s.mm_table i
      → Found s (i * 64) hi (first_frame (suc left) i (held s s.mm_table))
  take_lowest left i hi room le pos =
      let w = s.mm_table i in
      let (low, lt) = lowest_bit_lem w (ready.words i) pos in
      record {
        frame = i * 64 + lowest_bit w;
        table = store s.mm_table i (clear_bit64 w (lowest_bit w));
        from = omega arith;
        below = omega arith;
        was_free = bit_at-word s.mm_table i (lowest_bit w) lt ∙ low.set;
        first = λ m lo less. ground (arith, same_word s.mm_table m i, low.below (m % 64));
        returns = first_frame-stops s left i room pos lt;
        taken = λ j. ground (
          arith,
          bit_at-store s.mm_table i (clear_bit64 w (lowest_bit w)) j,
          bit-clear_bit64 w (lowest_bit w) (j % 64),
          same_word s.mm_table j i,
        );
        words =
            store-fits s.mm_table i _ ready.words (clear_bit64-lt w (lowest_bit w) (ready.words i));
      }

  first_frame-FirstFit :
      (left i : ℕ)
      → i + left ≤ mm_table_max
      → FirstFit s (i * 64) ((i + left) * 64) (first_frame left i (held s s.mm_table))
  first_frame-FirstFit zero i room = inr (record {
    none_free = λ m lo lt. absurd (omega arith);
    returns = unfold first_frame in rw (release_lem s s.mm_table);
  })
  first_frame-FirstFit (suc left) i room = elim (ℕ_discrete (s.mm_table i) 0) [
    | yes e ↦ rw (first_frame-next s left i (omega arith) e) (
        FirstFit-skip s i _ _ e (rw next_word at (first_frame-FirstFit left (i + 1) (omega arith))))
    | no ne ↦
        inl (take_lowest left i ((i + suc left) * 64) (omega arith) (omega arith) (omega arith))
  ]
    where
      next_word : i + 1 + left ≡ i + suc left
      next_word = omega arith

  -- Between calls, with a table of four words or more: `alloc_phys_frame` takes the lowest free frame
  -- above the first megabyte among the words that the limit gives, changes no other frame and returns
  -- its address, or it returns 0 with the table unchanged where none of those frames is free. Either
  -- way it reads inside the table and the lock is released.
  pub alloc_phys_frame-FirstFit :
      4 ≤ s.entry_end → FirstFit s 256 (s.entry_end * 64) (alloc_phys_frame s)
  unfolding alloc_phys_frame
  alloc_phys_frame-FirstFit four =
      let fits = ready.fits in
      rw (acquire_lem ready, upto) (first_frame-FirstFit (s.entry_end - 4) 4 (omega arith))
    where
      upto : s.entry_end * 64 ≡ (4 + (s.entry_end - 4)) * 64
      upto = omega arith

  low_FirstFit : FirstFit s 0 256 (alloc_phys_frame_lowmem s)
  unfolding alloc_phys_frame_lowmem
  low_FirstFit = rw (acquire_lem ready) (first_frame-FirstFit 4 0 (omega arith))

  -- Between calls, `alloc_phys_frame_lowmem` with frame 0 not free takes the lowest free frame above it
  -- and below the first megabyte, changes no other frame and returns its address, which is not 0, or it
  -- returns 0 with the table unchanged where none of those frames is free. With frame 0 free it takes
  -- frame 0, changes no other frame, and returns 0, as for a failure. The lock is released in each case.
  pub alloc_phys_frame_lowmem-FirstFit :
      ((free_at s 0 ≡ false) × FirstFit s 1 256 (alloc_phys_frame_lowmem s))
      ⊎ ((free_at s 0 ≡ true)
          × (table : Words) × (alloc_phys_frame_lowmem s ≡ ok 0 (after s table))
          × ((j : ℕ) → bit_at table j ≡ (not (j == 0) && free_at s j)))
  alloc_phys_frame_lowmem-FirstFit = elim (Bool-cases (free_at s 0)) [
    | inr none ↦ inl (none, above none low_FirstFit)
    | inl free ↦
        let (table, returns, taken) = lowest free low_FirstFit in inr (free, table, returns, taken)
  ]
    where
      above :
          free_at s 0 ≡ false
          → FirstFit s 0 256 (alloc_phys_frame_lowmem s)
          → FirstFit s 1 256 (alloc_phys_frame_lowmem s)
      above none (inl f) = inl (record {
        frame = f.frame;
        table = f.table;
        from = elim (ℕ_discrete f.frame 0) [
          | yes zero_frame ↦ absurd (cc (none, ap (free_at s) zero_frame, f.was_free))
          | no ne ↦ omega arith
        ];
        below = f.below;
        was_free = f.was_free;
        first = λ m lo lt. f.first m (omega arith) lt;
        returns = f.returns;
        taken = f.taken;
        words = f.words;
      })
      above none (inr x) =
          inr
            (record { none_free = λ m lo lt. x.none_free m (omega arith) lt; returns = x.returns })

      zero_taken :
          free_at s 0 ≡ true → (f : Found s 0 256 (alloc_phys_frame_lowmem s)) → f.frame ≡ 0
      zero_taken free f = elim (ℕ_discrete f.frame 0) [
        | yes same ↦ same
        | no ne ↦ absurd (cc (free, f.first 0 (omega arith) (omega arith)))
      ]

      lowest :
          free_at s 0 ≡ true
          → FirstFit s 0 256 (alloc_phys_frame_lowmem s)
          → (table : Words) × (alloc_phys_frame_lowmem s ≡ ok 0 (after s table))
            × ((j : ℕ) → bit_at table j ≡ (not (j == 0) && free_at s j))
      lowest free (inl f) =
          let z = zero_taken free f in
          (
            f.table,
            f.returns ∙ ap (λ (n : ℕ). ok (n * pg_size) (after s f.table)) z,
            λ j. f.taken j ∙ ap (λ (n : ℕ). not (n == j) && free_at s j) z ∙ ground arith,
          )
      lowest free (inr x) = absurd (cc (free, x.none_free 0 (omega arith) (omega arith)))

  -- `free_phys_frame` marks the frame of its address free.
  pub free_phys_frame_lem :
      (addr : ℕ)
      → addr < mm_table_max * 64 * pg_size
      → free_phys_frame addr s ≡ ok tt (after s (bitmap64_set s.mm_table (addr / pg_size)))
  unfolding free_phys_frame
  free_phys_frame_lem addr h = rw (acquire_lem ready, inside, release_lem s)
    where
      inside : ltb (shr (shr addr pg_bits) 6) mm_table_max ≡ true
      inside = ground arith
