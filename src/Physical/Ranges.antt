-- ===== src/Physical/Ranges.antt =====
-- physical_free_range, physical_take_range and physical_set_limit: byte ranges in frames.
use rtv.Base.{
  ℕ, ◌+◌, ◌-◌, ◌*◌, ◌/◌, ◌%◌, ◌^◌, ◌≤◌, ◌<◌, ◌≡◌, ◌⊎◌, refl, Bool, true, false, not, ◌&&◌, ◌||◌,
  arith, ltb, leb, ◌==◌, if◌then◌else◌,
}
use rtv.Base.Run.{ok, faulted, ◌>>◌}
use rtv.Word.{shr, u64, sub64}
use rtv.Bits.{Words, bit_at, bitmap64_set_range, bitmap64_clear_range}
use rtv.Bits.Word.{bit_and_63}
use rtv.Bits.Range.{
  in_range, bit_at-bitmap64_set_range, bit_at-bitmap64_clear_range, bitmap64_set_range-fits,
  bitmap64_clear_range-fits,
}
use rtv.Spinlock.{spin_unlock}
use rtv.Physical.Defs.{
  Phys, mm_table_max, pg_bits, pg_size, release, write_range, physical_free_range,
  physical_take_range, physical_set_limit,
}
use rtv.Physical.State.{IsReady, free_at, held, after, after-IsReady, acquire_lem, release_lem}

-- Frame `j` lies in the bytes from `begin` on, `length` of them.
abbrev pub frame_inside : ℕ → ℕ → ℕ → Bool
frame_inside begin length j = leb begin (j * pg_size) && leb ((j + 1) * pg_size) (begin + length)

-- Frame `j` has a byte before the end of the range and a byte from its beginning on.
abbrev pub frame_meets : ℕ → ℕ → ℕ → Bool
frame_meets begin length j = ltb (j * pg_size) (begin + length) && ltb begin ((j + 1) * pg_size)

-- The bytes that the table describes.
abbrev pub table_bytes : ℕ
table_bytes = mm_table_max * 64 * pg_size

write_range_lem :
    (put : Words → ℕ → ℕ → Words) (s : Phys) (begin length : ℕ)
    → (length ≡ 0) ⊎ (begin + length ≤ mm_table_max * 64)
    → write_range put begin length (held s s.mm_table)
      ≡ ok tt (held s (put s.mm_table begin length))
unfolding write_range
write_range_lem put s begin length h = rw inside
  where
    inside : (length == 0 || leb (begin + length) (mm_table_max * 64)) ≡ true
    inside = ground arith

write_range-faulted :
    (put : Words → ℕ → ℕ → Words) (s : Phys) (begin length : ℕ)
    → (0 < length) × (mm_table_max * 64 < begin + length)
    → write_range put begin length s ≡ faulted
unfolding write_range
write_range-faulted put s begin length h = rw outside
  where
    outside : (length == 0 || leb (begin + length) (mm_table_max * 64)) ≡ false
    outside = ground arith

-- The frames whose bits `physical_free_range` sets: from where, and how many.
abbrev freed_begin : ℕ → ℕ
freed_begin begin = if begin % pg_size == 0 then shr begin pg_bits else shr begin pg_bits + 1

abbrev pub freed_length : ℕ → ℕ → ℕ
freed_length begin length =
    let end_remain = u64 (begin + length) % pg_size in
    if begin % pg_size == 0
    then shr (sub64 length end_remain) pg_bits
    else shr (sub64 (sub64 length (pg_size - begin % pg_size)) end_remain) pg_bits

abbrev taken_length : ℕ → ℕ → ℕ
taken_length begin length =
    let end_remain = u64 (begin + length) % pg_size in
    if end_remain == 0
    then shr (u64 (length + begin % pg_size)) pg_bits
    else shr (sub64 (u64 (u64 (length + begin % pg_size) + pg_size)) end_remain) pg_bits

module _ {s : Phys} (ready : IsReady s) (begin length : ℕ) where
  physical_free_range-freed :
      physical_free_range begin length s
      ≡ (write_range bitmap64_set_range (freed_begin begin) (freed_length begin length) >> release)
          (held s s.mm_table)
  unfolding physical_free_range
  physical_free_range-freed = rw (acquire_lem ready) (ground arith)

  physical_take_range-taken :
      physical_take_range begin length s
      ≡ (write_range bitmap64_clear_range (shr begin pg_bits) (taken_length begin length)
            >> release)
          (held s s.mm_table)
  unfolding physical_take_range
  physical_take_range-taken = rw (acquire_lem ready) (ground arith)

-- A range that begins on a page, or ends past the page that it begins in.
abbrev pub LeavesPage : ℕ → ℕ → Type 0
LeavesPage begin length = (begin % pg_size ≡ 0) ⊎ (pg_size ≤ begin % pg_size + length)

module _ (begin length : ℕ) (fits : begin + length ≤ table_bytes) where
  freed_length-fits :
      LeavesPage begin length
      → (freed_length begin length ≡ 0)
        ⊎ (freed_begin begin + freed_length begin length ≤ mm_table_max * 64)
  freed_length-fits long = ground arith

  in_range-freed :
      (j : ℕ)
      → LeavesPage begin length
      → in_range (freed_begin begin) (freed_length begin length) j ≡ frame_inside begin length j
  in_range-freed j long = ground arith

  taken_length-fits :
      (taken_length begin length ≡ 0)
      ⊎ (shr begin pg_bits + taken_length begin length ≤ mm_table_max * 64)
  taken_length-fits = ground arith

  in_range-taken :
      (j : ℕ)
      → in_range (shr begin pg_bits) (taken_length begin length) j ≡ frame_meets begin length j
  in_range-taken j = ground arith

-- Between calls, for a range inside the table that begins on a page or ends past the page that it
-- begins in: `physical_free_range` frees exactly the frames that lie whole in the range, changes no
-- other frame and leaves a state for the next call.
pub physical_free_range_lem :
    {s : Phys} (begin length : ℕ)
    → IsReady s
    → begin + length ≤ table_bytes
    → LeavesPage begin length
    → (table : Words) × (physical_free_range begin length s ≡ ok tt (after s table))
      × IsReady (after s table)
      × ((j : ℕ) → bit_at table j ≡ (frame_inside begin length j || free_at s j))
physical_free_range_lem {s} begin length ready fits long = (
  bitmap64_set_range s.mm_table (freed_begin begin) (freed_length begin length),
  rw (
    physical_free_range-freed ready begin length,
    write_range_lem bitmap64_set_range s (freed_begin begin) (freed_length begin length)
        (freed_length-fits begin length fits long),
    release_lem s,
  ),
  after-IsReady ready _ (bitmap64_set_range-fits s.mm_table _ _ ready.words),
  λ j.
      rw (← in_range-freed begin length fits j long)
        (bit_at-bitmap64_set_range s.mm_table (freed_begin begin) (freed_length begin length) j),
)

-- Between calls, for any range inside the table: `physical_take_range` takes exactly the frames that
-- begin before its end and end behind its beginning, changes no other frame and leaves a state for
-- the next call.
pub physical_take_range_lem :
    {s : Phys} (begin length : ℕ)
    → IsReady s
    → begin + length ≤ table_bytes
    → (table : Words) × (physical_take_range begin length s ≡ ok tt (after s table))
      × IsReady (after s table)
      × ((j : ℕ) → bit_at table j ≡ (not (frame_meets begin length j) && free_at s j))
physical_take_range_lem {s} begin length ready fits = (
  bitmap64_clear_range s.mm_table (shr begin pg_bits) (taken_length begin length),
  rw (
    physical_take_range-taken ready begin length,
    write_range_lem bitmap64_clear_range s (shr begin pg_bits) (taken_length begin length)
        (taken_length-fits begin length fits),
    release_lem s,
  ),
  after-IsReady ready _ (bitmap64_clear_range-fits s.mm_table _ _ ready.words),
  λ j.
      rw (← in_range-taken begin length fits j)
        (bit_at-bitmap64_clear_range s.mm_table (shr begin pg_bits) (taken_length begin length) j),
)

-- For a range that neither begins on a page nor reaches the end of the page that it begins in, the
-- number of frames wraps around to 2 ^ 52 - 1, and `physical_free_range` writes outside the table.
pub physical_free_range-faulted :
    {s : Phys} (begin length : ℕ)
    → IsReady s
    → begin + length ≤ table_bytes
    → 0 < begin % pg_size
    → begin % pg_size + length < pg_size
    → (freed_length begin length ≡ 2 ^ 52 - 1) × (physical_free_range begin length s ≡ faulted)
physical_free_range-faulted {s} begin length ready fits inner short = (
  many,
  rw (
    physical_free_range-freed ready begin length,
    write_range-faulted bitmap64_set_range (held s s.mm_table) (freed_begin begin)
        (freed_length begin length) (omega (arith, many)),
  ),
)
  where
    many : freed_length begin length ≡ 2 ^ 52 - 1
    many = ground arith

abbrev entries : ℕ → ℕ
entries limit = (limit / pg_size + 63) / 64

-- Between calls, for a limit inside the table: `physical_set_limit` stores the number of whole pages
-- below the address, with as few words to search as hold a bit for each of them, changes no frame and
-- leaves a state for the next call.
pub physical_set_limit_lem :
    {s : Phys} (limit : ℕ)
    → IsReady s
    → limit ≤ table_bytes
    → (s' : Phys) × (physical_set_limit limit s ≡ ok tt s')
      × IsReady s'
      × (s'.mm_limit ≡ limit / pg_size)
      × (s'.entry_end * 64 < s'.mm_limit + 64)
      × ((n : ℕ) → free_at s' n ≡ free_at s n)
physical_set_limit_lem {s} limit ready fits = (
  record (after s s.mm_table) { mm_limit = limit / pg_size; entry_end = entries limit },
  physical_set_limit-entries,
  record {
    lock = kept.lock;
    unlocked = kept.unlocked;
    words = ready.words;
    fits = omega arith;
    limit = omega arith;
  },
  refl,
  omega arith,
  λ n. refl,
)
  where
    kept : IsReady (after s s.mm_table)
    kept = after-IsReady ready s.mm_table ready.words

    physical_set_limit-entries :
        physical_set_limit limit s
        ≡ ok tt
            (record (after s s.mm_table) { mm_limit = limit / pg_size; entry_end = entries limit })
    physical_set_limit-entries =
        unfold physical_set_limit release spin_unlock in
        rw (acquire_lem ready, bit_and_63) (ground arith)
