-- ===== src/Physical/Next/Runs.antt =====
-- The loops of physical_next_free_range, by the run of free frames that they have come to.
use native.Mathlib.Decide.{dec_lt, ℕ_discrete}
use rtv.Base.{
  ℕ, zero, suc, ◌+◌, ◌*◌, ◌/◌, ◌%◌, ◌≤◌, ◌<◌, ◌≡◌, inl, inr, refl, ◌∙◌, true, false, arith,
  Bool-cases, ltb, ◌==◌,
}
use rtv.Base.Run.{Run, ok}
use rtv.Word.{bit}
use rtv.Word.Laws.{bit-zero}
use rtv.Bits.{bit_at}
use rtv.Bits.Word.{bitmap64_check_bit-bit_at}
use rtv.Physical.Defs.{Phys, mm_table_max}
use rtv.Physical.State.{free_at, read_word_lem}
use rtv.Physical.Next.{check_bit, Scan, stopped, reached, scan_bits, skip_words}

-- The frames from `lo` to `b` are taken but for the last `count`, which are free.
pub record EndsRun (s : Phys) (lo b count : ℕ) : Type 0 where
  pub bound : lo + count ≤ b
  pub taken : (m : ℕ) → lo ≤ m → m + count < b → free_at s m ≡ false
  pub free : (m : ℕ) → b ≤ m + count → m < b → free_at s m ≡ true

module _ (s : Phys) (lo : ℕ) where
  EndsRun-free :
      (b count : ℕ) → free_at s b ≡ true → EndsRun s lo b count → EndsRun s lo (b + 1) (count + 1)
  EndsRun-free b count e r = record {
    bound = let h = r.bound in omega arith;
    taken = λ m h h'. r.taken m h (omega arith);
    free = λ m h h'. elim (ℕ_discrete m b) [
      | yes same ↦ rw same e
      | no other ↦ r.free m (omega arith) (omega arith)
    ];
  }

  EndsRun-taken : (b : ℕ) → free_at s b ≡ false → EndsRun s lo b 0 → EndsRun s lo (b + 1) 0
  EndsRun-taken b e r = record {
    bound = let h = r.bound in omega arith;
    taken = λ m h h'. elim (ℕ_discrete m b) [
      | yes same ↦ rw same e
      | no other ↦ r.taken m h (omega arith)
    ];
    free = λ m h h'. absurd (omega arith);
  }

  -- A loop over bits.
  pub data Scanned (stop : ℕ) : Run Phys Scan → Type 0 where
    at_taken :
        (b count : ℕ)
        → b < stop
        → EndsRun s lo b count
        → 0 < count
        → free_at s b ≡ false
        → Scanned stop (ok (stopped b count) s)
    at_end : (count : ℕ) → EndsRun s lo stop count → Scanned stop (ok (reached count) s)

check_bit_lem : (s : Phys) (n : ℕ) → n < mm_table_max * 64 → check_bit n s ≡ ok (free_at s n) s
unfolding check_bit
check_bit_lem s n h = ground (arith, bitmap64_check_bit-bit_at s.mm_table n)

module _ (s : Phys) (left b count : ℕ) (room : b < mm_table_max * 64) where
  scan_bits-free :
      free_at s b ≡ true → scan_bits (suc left) b count s ≡ scan_bits left (b + 1) (count + 1) s
  unfolding scan_bits
  scan_bits-free e = rw (check_bit_lem s b room, e)

  scan_bits-none :
      free_at s b ≡ false
      → count ≡ 0
      → scan_bits (suc left) b count s ≡ scan_bits left (b + 1) count s
  unfolding scan_bits
  scan_bits-none e z = rw (check_bit_lem s b room, e, z)

  scan_bits-stops :
      free_at s b ≡ false → 0 < count → scan_bits (suc left) b count s ≡ ok (stopped b count) s
  unfolding scan_bits
  scan_bits-stops e pos = rw (check_bit_lem s b room, e, some_free)
    where
      some_free : ltb 0 count ≡ true
      some_free = ground arith

pub scan_bits-Scanned :
    (s : Phys) (lo left b count stop : ℕ)
    → b + left ≡ stop
    → stop ≤ mm_table_max * 64
    → EndsRun s lo b count
    → Scanned s lo stop (scan_bits left b count s)
scan_bits-Scanned s lo zero b count stop ends room r =
    unfold scan_bits in at_end count (rw last at r)
  where
    last : b ≡ stop
    last = omega arith
scan_bits-Scanned s lo (suc left) b count stop ends room r = elim (Bool-cases (free_at s b)) [
  | inl e ↦ rw (scan_bits-free s left b count (omega arith) e) (
      scan_bits-Scanned s lo left (b + 1) (count + 1) stop (omega arith) room
        (EndsRun-free s lo b count e r))
  | inr e ↦ elim (ℕ_discrete count 0) [
    | yes z ↦ rw (scan_bits-none s left b count (omega arith) e z) (
        scan_bits-Scanned s lo left (b + 1) count stop (omega arith) room
          (rw z (EndsRun-taken s lo b e (rw z at r))))
    | no some_free ↦
        rw (scan_bits-stops s left b count (omega arith) e (omega arith))
          (at_taken b count (omega arith) r (omega arith) e)
  ]
]

-- A word that is zero adds 64 taken frames, one of all ones 64 free ones.
free_at-word :
    (s : Phys) (i m : ℕ) → i * 64 ≤ m → m < i * 64 + 64 → free_at s m ≡ bit (s.mm_table i) (m % 64)
unfolding bit_at
free_at-word s i m lo hi = rw which
  where
    which : m / 64 ≡ i
    which = omega arith

EndsRun-zero :
    (s : Phys) (lo i : ℕ)
    → s.mm_table i ≡ 0
    → EndsRun s lo (i * 64) 0
    → EndsRun s lo ((i + 1) * 64) 0
EndsRun-zero s lo i z r = record {
  bound = let h = r.bound in omega arith;
  taken = λ m h h'. elim (dec_lt m (i * 64)) [
    | yes before ↦ r.taken m h (omega arith)
    | no inside ↦ free_at-word s i m (omega arith) (omega arith) ∙ rw z (bit-zero (m % 64))
  ];
  free = λ m h h'. absurd (omega arith);
}

pub EndsRun-ones :
    (s : Phys) (lo i count c : ℕ)
    → c ≤ 64
    → ((j : ℕ) → j < c → bit (s.mm_table i) j ≡ true)
    → EndsRun s lo (i * 64) count
    → EndsRun s lo (i * 64 + c) (count + c)
EndsRun-ones s lo i count c le ones r = record {
  bound = let h = r.bound in omega arith;
  taken = λ m h h'. r.taken m h (omega arith);
  free = λ m h h'. elim (dec_lt m (i * 64)) [
    | yes before ↦ r.free m (omega arith) before
    | no inside ↦ free_at-word s i m (omega arith) (omega arith) ∙ ones (m % 64) (omega arith)
  ];
}

-- The search for a word that is not zero.
pub record Skipped (s : Phys) (lo last : ℕ) (r : Run Phys ℕ) : Type 0 where
  pub word : ℕ
  pub below : word ≤ last
  pub run : EndsRun s lo (word * 64) 0
  pub occupied : word < last → 0 < s.mm_table word
  pub returns : r ≡ ok word s

module _ (s : Phys) (left i : ℕ) (room : i < mm_table_max) where
  skip_words-next : s.mm_table i ≡ 0 → skip_words (suc left) i s ≡ skip_words left (i + 1) s
  unfolding skip_words
  skip_words-next e = rw (read_word_lem s i room, zero_word)
    where
      zero_word : (s.mm_table i == 0) ≡ true
      zero_word = ground arith

  skip_words-stops : 0 < s.mm_table i → skip_words (suc left) i s ≡ ok i s
  unfolding skip_words
  skip_words-stops pos = rw (read_word_lem s i room, occupied)
    where
      occupied : (s.mm_table i == 0) ≡ false
      occupied = ground arith

pub skip_words-Skipped :
    (s : Phys) (lo left i last : ℕ)
    → i + left ≡ last
    → last ≤ mm_table_max
    → EndsRun s lo (i * 64) 0
    → Skipped s lo last (skip_words left i s)
skip_words-Skipped s lo zero i last ends room r = record {
  word = i;
  below = omega arith;
  run = r;
  occupied = λ lt. absurd (omega arith);
  returns = unfold skip_words in refl;
}
skip_words-Skipped s lo (suc left) i last ends room r = elim (ℕ_discrete (s.mm_table i) 0) [
  | yes z ↦
      rw (skip_words-next s left i (omega arith) z)
        (skip_words-Skipped s lo left (i + 1) last (omega arith) room (EndsRun-zero s lo i z r))
  | no occupied ↦ record {
    word = i;
    below = omega arith;
    run = r;
    occupied = λ lt. omega arith;
    returns = skip_words-stops s left i (omega arith) (omega arith);
  }
]
