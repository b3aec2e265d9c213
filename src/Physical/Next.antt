-- ===== src/Physical/Next.antt =====
-- physical_next_free_range of kernel/mm/physical.c.
pub mod Runs
pub mod Extend
pub mod Maximal
use rtv.Base.{ℕ, zero, suc, ◌+◌, ◌-◌, ◌*◌, ◌/◌, ◌%◌, ◌^◌, Bool, ◌==◌, ltb, leb, if◌then◌else◌}
use rtv.Base.Run.{ok, faulted, Cmd, pure, ◌>>=◌, ◌>>◌}
use rtv.Word.{u64, uint64_max, shr, shl64, not64, sub64}
use rtv.Bits.{bitmap64_check_bit}
use rtv.Physical.Defs.{Phys, mm_table_max, pg_bits, read_word}

-- `bitmap64_check_bit(mm_table, bit)`
unfoldable pub check_bit : ℕ → Cmd Phys Bool
check_bit n s =
    if ltb (shr n 6) mm_table_max then ok (bitmap64_check_bit s.mm_table n) s else faulted

-- How a loop over bits ends: at a frame that is taken behind `count` free ones, or at its bound.
pub data Scan : Type 0 where
  stopped : (bit count : ℕ) → Scan
  reached : (count : ℕ) → Scan

-- The two loops over single bits, with `left` bits to go.
unfoldable pub scan_bits : (left bit count : ℕ) → Cmd Phys Scan
scan_bits zero bit count = pure (reached count)
scan_bits (suc left) bit count = do
  free ← check_bit bit
  if free
      then scan_bits left (bit + 1) (count + 1)
      else (if ltb 0 count then pure (stopped bit count) else scan_bits left (bit + 1) count)

-- `for ( ; i < entry_end; i++) if (mm_table[i] != 0) break;`
unfoldable pub skip_words : (left i : ℕ) → Cmd Phys ℕ
skip_words zero i = pure i
skip_words (suc left) i = do
  word ← read_word i
  if word == 0 then skip_words left (i + 1) else pure i

-- `*start` and `*size` for a run of `count` frames that ends at frame `bit`.
unfoldable pub range_of : (bit count : ℕ) → ℕ × ℕ
range_of bit count = (shl64 (sub64 bit count) pg_bits, shl64 count pg_bits)

-- `__builtin_ctzll`, which count_trailing_zeros_bit64 calls.
module _ (ctzll : ℕ → ℕ) where
  unfoldable pub count_trailing_zeros_bit64 : ℕ → ℕ
  count_trailing_zeros_bit64 word = ctzll word % 2 ^ 8

  -- The last loop, over words that are free as a whole.
  unfoldable pub extend_words : (left i count : ℕ) → Cmd Phys (ℕ × ℕ)
  extend_words zero i count = pure (range_of (shl64 i 6) count)
  extend_words (suc left) i count = do
    word ← read_word i
    if word == uint64_max
        then extend_words left (i + 1) (count + 64)
        else pure (
          shl64 (sub64 (shl64 i 6) count) pg_bits,
          shl64 (count + count_trailing_zeros_bit64 (not64 word)) pg_bits,
        )

  -- The end of the loop over the bits of word `i`, where nothing was free before.
  unfoldable pub after_second : (entry_end i : ℕ) → Scan → Cmd Phys (ℕ × ℕ)
  after_second entry_end i (stopped b c) = pure (range_of b c)
  after_second entry_end i (reached c) = extend_words (entry_end - (i + 1)) (i + 1) c

  -- The end of the loop up to the next word, `i`.
  unfoldable pub after_first : (entry_end i : ℕ) → Scan → Cmd Phys (ℕ × ℕ)
  after_first entry_end i (stopped b c) = pure (range_of b c)
  after_first entry_end i (reached (suc c)) = extend_words (entry_end - i) i (suc c)
  after_first entry_end i (reached zero) = do
    j ← skip_words (entry_end - i) i
    second ← scan_bits 64 (shl64 j 6) 0
    after_second entry_end j second

  -- Given the old value of `*start`, the new values of `*start` and `*size`.
  unfoldable pub physical_next_free_range : (current start : ℕ) → Cmd Phys (ℕ × ℕ)
  physical_next_free_range current start = λ s.
      let bit = shr current pg_bits in
      let end = u64 (bit + 64 - 1) / 64 * 64 in
      (if leb s.entry_end (shr bit 6)
          then pure (start, 0)
          else (do first ← scan_bits (end - bit) bit 0; after_first s.entry_end (shr end 6) first))
        s
