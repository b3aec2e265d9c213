-- ===== src/Physical/Blocks.antt =====
-- The two functions of kernel/mm/physical.c that search for several frames in a row.
pub mod Scan
pub mod Sound
pub mod Aligned
pub mod Best
pub mod Fit
pub mod First
use rtv.Base.{ℕ, zero, suc, ◌+◌, ◌-◌, ◌*◌, ◌/◌, ◌%◌, ◌^◌, Bool, ◌==◌, ltb, leb, if◌then◌else◌}
use rtv.Base.Run.{Run, ok, faulted, out_of_fuel, Cmd, pure, ◌>>=◌, ◌>>◌, and_then}
use rtv.Word.{shr, shl64}
use rtv.Bits.{bitmap64_clear_range}
use rtv.Physical.Defs.{
  Phys, mm_table_max, pg_bits, acquire, release, read_word, get_bit, write_range,
}

-- More rounds than the table has bits.
abbrev pub scan_fuel : ℕ
scan_fuel = mm_table_max * 64 + 1

-- `while (bitmap64_get(mm_table, pos) == 0) pos++;`
unfoldable pub skip_taken : ℕ → ℕ → Cmd Phys ℕ
skip_taken zero pos = λ _. out_of_fuel
skip_taken (suc fuel) pos = do
  free ← get_bit pos
  if free == 0 then skip_taken fuel (pos + 1) else pure pos

-- `while (count < num && bitmap64_get(mm_table, cur)) { cur++; count++; }`, `left` being
-- `num - count`.
unfoldable pub count_free : ℕ → ℕ → ℕ → Cmd Phys (ℕ × ℕ)
count_free zero cur count = pure (cur, count)
count_free (suc left) cur count = do
  free ← get_bit cur
  if free == 0 then pure (cur, count) else count_free left (cur + 1) (count + 1)

-- `bitmap64_clear_range(mm_table, pos, num)` and the return.
unfoldable pub take_block : ℕ → ℕ → Cmd Phys ℕ
take_block pos num = do write_range bitmap64_clear_range pos num; release; pure (shl64 pos pg_bits)

-- The loop of alloc_phys_frames, at word `i` and bit `pos`.
unfoldable pub find_block : ℕ → ℕ → ℕ → ℕ → Cmd Phys ℕ
find_block zero num i pos = λ _. out_of_fuel
find_block (suc fuel) num i pos = λ s.
    (if ltb i s.entry_end
        then (do
          word ← read_word i
          if word == 0 then find_block fuel num (i + 1) (pos + 64) else (do
            start ← skip_taken scan_fuel pos
            (cur, count) ← count_free num start 0
            if count == num
                then take_block start num
                else find_block fuel num (shr (cur + 1) 6) (cur + 1)))
        else (do release; pure 0))
      s

unfoldable pub alloc_phys_frames : ℕ → Cmd Phys ℕ
alloc_phys_frames num = do acquire; find_block scan_fuel num 4 256

-- `while (pos < mm_limit && bitmap64_get(mm_table, pos) == 0) pos += pos_inc;`
unfoldable pub skip_aligned : ℕ → ℕ → ℕ → Cmd Phys ℕ
skip_aligned zero pos_inc pos = λ _. out_of_fuel
skip_aligned (suc fuel) pos_inc pos = λ s.
    (if ltb pos s.mm_limit
        then (do
          free ← get_bit pos
          if free == 0 then skip_aligned fuel pos_inc (pos + pos_inc) else pure pos)
        else pure pos)
      s

-- `while (count < num && cur < mm_limit && bitmap64_get(mm_table, cur)) { cur++; count++; }`
unfoldable pub count_below : ℕ → ℕ → ℕ → Cmd Phys (ℕ × ℕ)
count_below zero cur count = pure (cur, count)
count_below (suc left) cur count = λ s.
    (if ltb cur s.mm_limit
        then (do
          free ← get_bit cur
          if free == 0 then pure (cur, count) else count_below left (cur + 1) (count + 1))
        else pure (cur, count))
      s

-- The next multiple of `pos_inc` from `pos` on; a division by zero traps.
unfoldable pub align_up : ℕ → ℕ → Cmd Phys ℕ
align_up pos pos_inc =
    let remain = pos % pos_inc in
    if pos_inc == 0
    then (λ _. faulted)
    else pure (if remain == 0 then pos else pos + pos_inc - remain)

-- The loop of alloc_phys_frames_aligned.
unfoldable pub find_aligned : ℕ → ℕ → ℕ → ℕ → ℕ → Cmd Phys ℕ
find_aligned zero num pos_inc i pos = λ _. out_of_fuel
find_aligned (suc fuel) num pos_inc i pos = λ s.
    (if ltb i s.entry_end
        then (do
          word ← read_word i
          if word == 0
              then (if ltb 0 (shr pos_inc 6)
                  then find_aligned fuel num pos_inc (i + shr pos_inc 6) (pos + pos_inc)
                  else find_aligned fuel num pos_inc (i + 1) (pos + 64))
              else (do
                start ← skip_aligned scan_fuel pos_inc pos
                (cur, count) ← count_below num start 0
                if count == num then take_block start num else λ s.
                    (if leb s.mm_limit cur then (do release; pure 0) else (do
                      next ← align_up (cur + 1) pos_inc
                      find_aligned fuel num pos_inc (shr next 6) next))
                      s))
        else (do release; pure 0))
      s

unfoldable pub alloc_phys_frames_aligned : ℕ → ℕ → Cmd Phys ℕ
alloc_phys_frames_aligned num align = do
  acquire
  let pos_inc = shr align pg_bits
  let i_inc = shr pos_inc 6
  let i = if leb i_inc 4 then 4 else i_inc
  find_aligned scan_fuel num pos_inc i (shl64 i 6)
