-- ===== src/Physical/Defs.antt =====
-- The functions of kernel/mm/physical.c.
use rtv.Base.{
  ℕ, zero, suc, ◌+◌, ◌-◌, ◌*◌, ◌/◌, ◌%◌, ◌^◌, bit_and, Bool, ◌||◌, ◌==◌, ltb, leb, if◌then◌else◌,
}
use rtv.Base.Run.{ok, faulted, Cmd, pure, ◌>>=◌, ◌>>◌, on_part}
use rtv.Word.{u64, shr, shl64, neg64, sub64}
use rtv.Bits.{
  Words, store, clear_bit64, bitmap64_get, bitmap64_set, bitmap64_set_range, bitmap64_clear_range,
  bitmap64_check_bit,
}
use rtv.Spinlock.{Spinlock, spin_lock, spin_unlock}

abbrev pub pg_bits : ℕ
pg_bits = 12

abbrev pub pg_size : ℕ
pg_size = 2 ^ pg_bits

-- MM_PHYSICAL_MAX of default_config.mk, in GB.
abbrev pub mm_physical_max : ℕ
mm_physical_max = 64

-- The words of `mm_table`.
abbrev pub mm_table_max : ℕ
mm_table_max = mm_physical_max * 1024 * 1024 * 1024 / (8 * 8 * pg_size)

pub record Phys : Type 0 where
  pub mm_table : Words
  pub mm_limit : ℕ
  pub entry_end : ℕ
  pub phy_lock : Spinlock

unfoldable pub initial : Phys
initial = record {
  mm_table = λ _. 0;
  mm_limit = 0;
  entry_end = 0;
  phy_lock = record { next = 0; owner = 0 };
}

unfoldable pub acquire : Cmd Phys (Unit {0})
acquire = on_part (λ s. s.phy_lock) (λ l s. record s { phy_lock = l }) spin_lock

unfoldable pub release : Cmd Phys (Unit {0})
release = on_part (λ s. s.phy_lock) (λ l s. record s { phy_lock = l }) spin_unlock

-- `mm_table[i]`
unfoldable pub read_word : ℕ → Cmd Phys ℕ
read_word i s = if ltb i mm_table_max then ok (s.mm_table i) s else faulted

-- `bitmap64_get(mm_table, n)`
unfoldable pub get_bit : ℕ → Cmd Phys ℕ
get_bit n s = if ltb (shr n 6) mm_table_max then ok (bitmap64_get s.mm_table n) s else faulted

-- A range function writes to the words that hold the bits of its range.
unfoldable pub write_range : (Words → ℕ → ℕ → Words) → ℕ → ℕ → Cmd Phys (Unit {0})
write_range put begin length s =
    if length == 0 || leb (begin + length) (mm_table_max * 64)
    then ok tt (record s { mm_table = put s.mm_table begin length })
    else faulted

unfoldable pub physical_free_range : ℕ → ℕ → Cmd Phys (Unit {0})
physical_free_range begin length = do
  let remain = begin % pg_size
  let end_remain = u64 (begin + length) % pg_size
  acquire
  if remain == 0
      then write_range bitmap64_set_range (shr begin pg_bits)
          (shr (sub64 length end_remain) pg_bits)
      else write_range bitmap64_set_range (shr begin pg_bits + 1)
          (shr (sub64 (sub64 length (pg_size - remain)) end_remain) pg_bits)
  release

unfoldable pub physical_take_range : ℕ → ℕ → Cmd Phys (Unit {0})
physical_take_range begin length = do
  let remain = begin % pg_size
  let end_remain = u64 (begin + length) % pg_size
  acquire
  if end_remain == 0
      then write_range bitmap64_clear_range (shr begin pg_bits)
          (shr (u64 (length + remain)) pg_bits)
      else write_range bitmap64_clear_range (shr begin pg_bits)
          (shr (sub64 (u64 (u64 (length + remain) + pg_size)) end_remain) pg_bits)
  release

unfoldable pub physical_is_free : ℕ → Cmd Phys Bool
physical_is_free addr s =
    if ltb (shr (shr addr pg_bits) 6) mm_table_max
    then ok (bitmap64_check_bit s.mm_table (shr addr pg_bits)) s
    else faulted

unfoldable pub physical_set_limit : ℕ → Cmd Phys (Unit {0})
physical_set_limit limit = do
  acquire
  λ s.
      let mm_limit = shr limit pg_bits in
      let entry_end = shr mm_limit 6 in
      ok tt (record s {
        mm_limit = mm_limit;
        entry_end = if ltb 0 (bit_and mm_limit 63) then entry_end + 1 else entry_end;
      })
  release

-- `while (data) { data >>= 1; pos++; }`
unfoldable pub count_shifts : ℕ → ℕ → ℕ → ℕ
count_shifts zero word pos = pos
count_shifts (suc fuel) word pos =
    let rest = count_shifts fuel (shr word 1) (pos + 1) in if word == 0 then pos else rest

-- The index of the lowest bit that is set, as two of the functions compute it: 64 rounds empty a word.
unfoldable pub lowest_bit : ℕ → ℕ
lowest_bit word = count_shifts 64 (shr (bit_and word (neg64 word)) 1) 0

-- `clear_bit64(&mm_table[i], pos)`
unfoldable pub clear_word_bit : ℕ → ℕ → Cmd Phys (Unit {0})
clear_word_bit i pos s =
    ok tt (record s { mm_table = store s.mm_table i (clear_bit64 (s.mm_table i) pos) })

-- The loop of alloc_phys_frame and of alloc_phys_frame_lowmem, with `left` words to go.
unfoldable pub first_frame : (left i : ℕ) → Cmd Phys ℕ
first_frame zero i = do release; pure 0
first_frame (suc left) i = do
  word ← read_word i
  if word == 0 then first_frame left (i + 1) else (do
    clear_word_bit i (lowest_bit word)
    release
    pure (shl64 (shl64 i 6 + lowest_bit word) pg_bits))

unfoldable pub alloc_phys_frame : Cmd Phys ℕ
alloc_phys_frame = do acquire; λ s. first_frame (s.entry_end - 4) 4 s

unfoldable pub alloc_phys_frame_lowmem : Cmd Phys ℕ
alloc_phys_frame_lowmem = do acquire; first_frame 4 0

unfoldable pub free_phys_frame : ℕ → Cmd Phys (Unit {0})
free_phys_frame frame = do
  acquire
  λ s.
      if ltb (shr (shr frame pg_bits) 6) mm_table_max
      then ok tt (record s { mm_table = bitmap64_set s.mm_table (shr frame pg_bits) })
      else faulted
  release

unfoldable pub free_phys_frames : ℕ → ℕ → Cmd Phys (Unit {0})
free_phys_frames frame num = do
  acquire
  write_range bitmap64_set_range (shr frame pg_bits) num
  release
