-- ===== src/Physical/Blocks/Sound.antt =====
-- alloc_phys_frames: what it returns, on every path.
use native.Mathlib.Decide.{dec_lt, ℕ_discrete}
use rtv.Base.{
  ℕ, zero, suc, ◌+◌, ◌*◌, ◌/◌, ◌≤◌, ◌<◌, ◌≡◌, ◌⊎◌, inl, inr, refl, true, false, not, ◌&&◌, ◌||◌,
  arith, ltb, leb, ◌==◌, if◌then◌else◌,
}
use rtv.Base.Run.{Run, ok, faulted, and_then, ◌>>=◌}
use rtv.Word.{shr, shl64}
use rtv.Bits.{Words, bit_at, bitmap64_clear_range}
use rtv.Bits.Range.{in_range, bit_at-bitmap64_clear_range, bitmap64_clear_range-fits}
use rtv.Physical.Defs.{Phys, mm_table_max, pg_bits, pg_size, write_range}
use rtv.Physical.State.{
  IsReady, free_at, held, after, after-IsReady, acquire_lem, release_lem, read_word_lem,
}
use rtv.Physical.Blocks.{
  scan_fuel, skip_taken, count_free, take_block, find_block, alloc_phys_frames,
}
use rtv.Physical.Blocks.Scan.{
  table_bits, AllFree, Skipped, stopped, ran_past, Counted, all_free, ended, ran_out,
  skip_taken-Skipped, count_free-Counted,
}

-- `num` frames in a row from `lo` or later, all free before, were taken; nothing else changed.
pub record Block (s : Phys) (num lo : ℕ) (r : Run Phys ℕ) : Type 0 where
  pub first : ℕ
  pub table : Words
  pub from : lo ≤ first
  pub inside : first + num ≤ table_bits
  pub free : AllFree s first (first + num)
  pub returns : r ≡ ok (first * pg_size) (after s table)
  pub taken : (j : ℕ) → bit_at table j ≡ (not (in_range first num j) && free_at s j)
  pub ready : IsReady (after s table)

-- The three ways in which a search for a block ends.
abbrev pub Outcome : Phys → ℕ → ℕ → Run Phys ℕ → Type 0
Outcome s num lo r = Block s num lo r ⊎ ((r ≡ ok 0 (after s s.mm_table)) ⊎ (r ≡ faulted))

module _ {s : Phys} (ready : IsReady s) (num lo : ℕ) where
  abbrev here : Phys
  here = held s s.mm_table

  pub take_block_lem :
      (first : ℕ)
      → first + num ≤ table_bits
      → take_block first num here
        ≡ ok (first * pg_size) (after s (bitmap64_clear_range s.mm_table first num))
  unfolding take_block write_range
  take_block_lem first fits = rw (room, release_lem s, address)
    where
      room : (num == 0 || leb (first + num) table_bits) ≡ true
      room = ground arith

      address : shl64 first pg_bits ≡ first * pg_size
      address = omega arith

  take_block-Block :
      (first : ℕ)
      → lo ≤ first
      → first + num ≤ table_bits
      → AllFree s first (first + num)
      → Block s num lo (take_block first num here)
  take_block-Block first le fits free = record {
    first = first;
    table = bitmap64_clear_range s.mm_table first num;
    from = le;
    inside = fits;
    free = free;
    returns = take_block_lem first fits;
    taken = bit_at-bitmap64_clear_range s.mm_table first num;
    ready = after-IsReady ready _ (bitmap64_clear_range-fits s.mm_table first num ready.words);
  }

-- One round of the loop.
module _ (s : Phys) (fuel num i pos : ℕ) where
  pub find_block-end :
      s.entry_end ≤ i
      → find_block (suc fuel) num i pos (held s s.mm_table) ≡ ok 0 (after s s.mm_table)
  unfolding find_block
  find_block-end le = rw (ended, release_lem s)
    where
      ended : ltb i s.entry_end ≡ false
      ended = ground arith

  module _ (below : i < s.entry_end) (room : i < mm_table_max) where
    test : ltb i s.entry_end ≡ true
    test = ground arith

    pub find_block-empty :
        s.mm_table i ≡ 0
        → find_block (suc fuel) num i pos (held s s.mm_table)
          ≡ find_block fuel num (i + 1) (pos + 64) (held s s.mm_table)
    unfolding find_block
    find_block-empty e = rw (test, read_word_lem (held s s.mm_table) i room, empty)
      where
        empty : (s.mm_table i == 0) ≡ true
        empty = ground arith

    pub find_block-scan :
        0 < s.mm_table i
        → find_block (suc fuel) num i pos (held s s.mm_table)
          ≡ (do
            start ← skip_taken scan_fuel pos
            (cur, count) ← count_free num start 0
            if count == num
                then take_block start num
                else find_block fuel num (shr (cur + 1) 6) (cur + 1))
              (held s s.mm_table)
    unfolding find_block
    find_block-scan pos = rw (test, read_word_lem (held s s.mm_table) i room, occupied)
      where
        occupied : (s.mm_table i == 0) ≡ false
        occupied = ground arith

module _ {s : Phys} (ready : IsReady s) (num : ℕ) where
  -- What is proved of every search from bit `pos` on.
  abbrev Ends : Run Phys ℕ → Type 0
  Ends r = Outcome s num 256 r

  after_count :
      (fuel start : ℕ) (r : Run Phys (ℕ × ℕ))
      → 256 ≤ start
      → Counted (here ready num 256) num start 0 r
      → ((cur : ℕ)
          → start ≤ cur
          → Ends (find_block fuel num (shr (cur + 1) 6) (cur + 1) (here ready num 256)))
      → Ends (
          and_then r (λ (cur, count).
            if count == num
            then take_block start num
            else find_block fuel num (shr (cur + 1) 6) (cur + 1)))
  after_count fuel start _ le (all_free end total e t fits free) next =
      rw found (inl (take_block-Block ready num 256 start le (omega arith) (rw (e) at free)))
    where
      found : (total == num) ≡ true
      found = ground arith
  after_count fuel start _ le (ended end total lo hi sum free fits at) next = rw short (next end lo)
    where
      short : (total == num) ≡ false
      short = ground arith
  after_count fuel start _ le (ran_out free lt) next = inr (inr refl)

  after_skip :
      (fuel pos : ℕ) (r : Run Phys ℕ)
      → 256 ≤ pos
      → Skipped (here ready num 256) pos r
      → ((cur : ℕ)
          → pos ≤ cur
          → Ends (find_block fuel num (shr (cur + 1) 6) (cur + 1) (here ready num 256)))
      → Ends (
          and_then r (λ start. do
            (cur, count) ← count_free num start 0
            if count == num
                then take_block start num
                else find_block fuel num (shr (cur + 1) 6) (cur + 1)))
  after_skip fuel pos _ le (stopped q lo lt none free) next =
      after_count fuel q _ (omega arith)
        (count_free-Counted (here ready num 256) num q 0 (omega arith))
        (λ cur p. next cur (omega arith))
  after_skip fuel pos _ le (ran_past none) next = inr (inr refl)

  find_block-Outcome :
      (fuel pos : ℕ)
      → 256 ≤ pos
      → 0 < fuel
      → s.entry_end * 64 < pos + fuel
      → Ends (find_block fuel num (pos / 64) pos (here ready num 256))
  find_block-Outcome zero pos le some_fuel enough = absurd (omega arith)
  find_block-Outcome (suc fuel) pos le some_fuel enough = elim (dec_lt (pos / 64) s.entry_end) [
    | no out ↦ rw (find_block-end s fuel num (pos / 64) pos (omega arith)) (inr (inl refl))
    | yes below ↦
        let fits = ready.fits in
        elim (ℕ_discrete (s.mm_table (pos / 64)) 0) [
          | yes e ↦ rw (find_block-empty s fuel num (pos / 64) pos below (omega arith) e) (
              rw next_word at
                (find_block-Outcome fuel (pos + 64) (omega arith) (omega arith) (omega arith)))
          | no ne ↦
              rw (find_block-scan s fuel num (pos / 64) pos below (omega arith) (omega arith)) (
                after_skip fuel pos _ le
                  (skip_taken-Skipped (here ready num 256) scan_fuel pos (omega arith)
                    (omega arith))
                  (λ cur p.
                    find_block-Outcome fuel (cur + 1) (omega arith) (omega arith) (omega arith)))
        ]
  ]
    where
      next_word : (pos + 64) / 64 ≡ pos / 64 + 1
      next_word = omega arith

-- Between calls, for any `num`: `alloc_phys_frames` always ends. It returns the address of `num`
-- frames in a row above the first megabyte, all free before, which it takes and no other, with the
-- lock released; or it returns 0 with the table unchanged and the lock released; or it reads outside
-- the table.
pub alloc_phys_frames-Outcome :
    {s : Phys} (num : ℕ) → IsReady s → Outcome s num 256 (alloc_phys_frames num s)
unfolding alloc_phys_frames
alloc_phys_frames-Outcome {s} num ready =
    let fits = ready.fits in
    rw (acquire_lem ready)
      (find_block-Outcome ready num scan_fuel 256 (omega arith) (omega arith) (omega arith))
