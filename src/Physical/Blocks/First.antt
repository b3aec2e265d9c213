-- ===== src/Physical/Blocks/First.antt =====
-- alloc_phys_frames where the first free frame decides: it starts a block that is long enough, or
-- it is the only free frame.
use native.Mathlib.Decide.{ℕ_discrete}
use rtv.Base.{
  ℕ, zero, suc, ◌+◌, ◌*◌, ◌/◌, ◌%◌, ◌≤◌, ◌<◌, ◌≡◌, refl, ap, ◌∙◌, true, false, arith, ◌==◌,
  if◌then◌else◌,
}
use rtv.Base.Run.{Run, ok, faulted, Cmd, and_then, ◌>>=◌}
use rtv.Word.{shr, bit}
use rtv.Word.Laws.{bit-zero}
use rtv.Bits.{bitmap64_clear_range}
use rtv.Bits.Word.{same_word}
use rtv.Physical.Defs.{Phys, pg_size}
use rtv.Physical.State.{IsReady, free_at, held, after, acquire_lem}
use rtv.Physical.Blocks.{scan_fuel, count_free, take_block, find_block, alloc_phys_frames}
use rtv.Physical.Blocks.Scan.{
  table_bits, NoneFree, AllFree, Skipped, stopped, ran_past, Counted, all_free, ended, ran_out,
  skip_taken-Skipped, count_free-Counted,
}
use rtv.Physical.Blocks.Sound.{take_block_lem, find_block-empty, find_block-scan}

-- `p` is the lowest free frame from the first megabyte on, in a word that the functions search.
pub record IsFirst (s : Phys) (p : ℕ) : Type 0 where
  pub from : 256 ≤ p
  pub searched : p / 64 < s.entry_end
  pub free : free_at s p ≡ true
  pub none_before : NoneFree s 256 p

word-pos : (s : Phys) (p i : ℕ) → free_at s p ≡ true → i ≡ p / 64 → 0 < s.mm_table i
word-pos s p i free e = elim (ℕ_discrete (s.mm_table i) 0) [
  | yes z ↦ ground (arith, same_word s.mm_table p i, ap (λ w. bit w (p % 64)) z, bit-zero (p % 64))
  | no nz ↦ omega arith
]

module _ {s : Phys} (ready : IsReady s) (num : ℕ) where
  abbrev here : Phys
  here = held s s.mm_table

  -- What find_block does at a free frame.
  abbrev at_cmd : ℕ → ℕ → Cmd Phys ℕ
  at_cmd fuel start = do
    (cur, count) ← count_free num start 0
    if count == num then take_block start num else find_block fuel num (shr (cur + 1) 6) (cur + 1)

  abbrev at_start : ℕ → ℕ → Run Phys ℕ
  at_start fuel start = at_cmd fuel start here

  skip-to_first :
      (fuel pos p : ℕ) (r : Run Phys ℕ)
      → Skipped here pos r
      → pos ≤ p
      → p < table_bits
      → free_at s p ≡ true
      → NoneFree s pos p
      → and_then r (λ start. at_cmd fuel start) ≡ at_start fuel p
  skip-to_first fuel pos p _ (stopped q lo lt none free) le room at before =
      ap (at_start fuel) first
    where
      first : q ≡ p
      first = ground (arith, none p, before q)
  skip-to_first fuel pos p _ (ran_past none) le room at before = ground (arith, none p)

  -- What holds of every continuation from the first free frame holds of the search.
  find_block-first :
      (P : Run Phys ℕ → Type 0) (fuel i p : ℕ)
      → IsFirst s p
      → 4 ≤ i
      → i ≤ p / 64
      → s.entry_end < i + fuel
      → ((f : ℕ) → 0 < f → P (at_start f p))
      → P (find_block fuel num i (i * 64) here)
  find_block-first P zero i p is four le enough cont = let h = is.searched in absurd (omega arith)
  find_block-first P (suc fuel) i p is four le enough cont =
      let searched = is.searched in
      let fits = ready.fits in
      elim (ℕ_discrete (s.mm_table i) 0) [
        | yes z ↦
            rw (find_block-empty s fuel num i (i * 64) (omega arith) (omega arith) z, next_word)
              (find_block-first P fuel (i + 1) p is (omega arith) (later z) (omega arith) cont)
        | no nz ↦
            rw
              (
                find_block-scan s fuel num i (i * 64) (omega arith) (omega arith) (omega arith),
                skip-to_first fuel (i * 64) p _
                    (skip_taken-Skipped here scan_fuel (i * 64) (omega arith) (omega arith))
                    (omega arith) (omega arith) is.free
                    (λ m lo hi. is.none_before m (omega arith) hi),
              )
              (cont fuel (omega arith))
      ]
    where
      next_word : i * 64 + 64 ≡ (i + 1) * 64
      next_word = omega arith

      later : s.mm_table i ≡ 0 → i + 1 ≤ p / 64
      later z = ground (arith, word-pos s p i is.free)

  start_takes :
      (fuel p : ℕ) (r : Run Phys (ℕ × ℕ))
      → 256 ≤ p
      → p + num ≤ table_bits
      → AllFree s p (p + num)
      → Counted here num p 0 r
      → (and_then r (λ (cur, count).
          if count == num
          then take_block p num
          else find_block fuel num (shr (cur + 1) 6) (cur + 1)))
        ≡ take_block p num here
  start_takes fuel p _ from fits free (all_free end total e t le _) = rw found
    where
      found : (total == num) ≡ true
      found = ground arith
  start_takes fuel p _ from fits free (ended end total lo hi sum _ lt at) = ground (arith, free end)
  start_takes fuel p _ from fits free (ran_out _ lt) = absurd (omega arith)

  skip_runs_past :
      (fuel pos : ℕ) (r : Run Phys ℕ)
      → NoneFree s pos table_bits
      → Skipped here pos r
      → and_then r (λ start. at_cmd fuel start) ≡ faulted
  skip_runs_past fuel pos _ none (stopped q lo lt _ free) = ground (arith, none q)
  skip_runs_past fuel pos _ none (ran_past _) = refl

  -- The search goes on two bits behind the only free frame, in a word that is not zero.
  two_past :
      (fuel p : ℕ)
      → IsFirst s p
      → p % 64 < 62
      → NoneFree s (p + 1) table_bits
      → 0 < fuel
      → find_block fuel num ((p + 1 + 1) / 64) (p + 1 + 1) here ≡ faulted
  two_past zero p is low none some_fuel = absurd (omega arith)
  two_past (suc fuel) p is low none some_fuel =
      let searched = is.searched in
      let room = ready.fits in
      find_block-scan s fuel num ((p + 1 + 1) / 64) (p + 1 + 1) (omega arith) (omega arith)
        (word-pos s p ((p + 1 + 1) / 64) is.free (omega arith))
      ∙ skip_runs_past fuel (p + 1 + 1) _ (λ m lo hi. none m (omega arith) hi)
          (skip_taken-Skipped here scan_fuel (p + 1 + 1) (omega arith) (omega arith))

  start_runs_past :
      (fuel p : ℕ) (r : Run Phys (ℕ × ℕ))
      → IsFirst s p
      → p % 64 < 62
      → 2 ≤ num
      → NoneFree s (p + 1) table_bits
      → 0 < fuel
      → Counted here num p 0 r
      → (and_then r (λ (cur, count).
          if count == num
          then take_block p num
          else find_block fuel num (shr (cur + 1) 6) (cur + 1)))
        ≡ faulted
  start_runs_past fuel p _ is low two none some_fuel (all_free end total e t le free) =
      ground (arith, free (p + 1), none (p + 1))
  start_runs_past fuel p _ is low two none some_fuel (ended end total lo hi sum free lt at) =
      rw (short, next) (two_past fuel p is low none some_fuel)
    where
      short : (total == num) ≡ false
      short = ground arith

      next : end ≡ p + 1
      next = ground (arith, is.free, free (p + 1), none (p + 1))
  start_runs_past fuel p _ is low two none some_fuel (ran_out free lt) = refl

-- Between calls: where the lowest free frame above the first megabyte lies in a word that is searched
-- and starts `num` free frames in a row, `alloc_phys_frames` clears their bits and returns the address
-- of that frame, with the lock released.
pub alloc_phys_frames-first :
    {s : Phys} (num p : ℕ)
    → IsReady s
    → IsFirst s p
    → p + num ≤ table_bits
    → AllFree s p (p + num)
    → alloc_phys_frames num s ≡ ok (p * pg_size) (after s (bitmap64_clear_range s.mm_table p num))
unfolding alloc_phys_frames
alloc_phys_frames-first {s} num p ready is fits free =
    let room = ready.fits in
    let from = is.from in
    rw (acquire_lem ready) (
      find_block-first ready num
        (λ r. r ≡ ok (p * pg_size) (after s (bitmap64_clear_range s.mm_table p num))) scan_fuel 4 p
        is (omega arith) (omega arith) (omega arith)
        (λ f some_fuel.
          start_takes ready num f p _ is.from fits free
            (count_free-Counted (held s s.mm_table) num p 0 (omega arith))
          ∙ take_block_lem ready num 256 p fits))

-- Between calls: where only one frame above the first megabyte is free, in a word that is searched
-- and not among the last two of that word, a request for two frames or more is not refused:
-- `alloc_phys_frames` reads on past the end of the table.
pub alloc_phys_frames-faulted :
    {s : Phys} (num p : ℕ)
    → IsReady s
    → IsFirst s p
    → p % 64 < 62
    → NoneFree s (p + 1) table_bits
    → 2 ≤ num
    → alloc_phys_frames num s ≡ faulted
unfolding alloc_phys_frames
alloc_phys_frames-faulted {s} num p ready is low none two =
    let room = ready.fits in
    let from = is.from in
    let searched = is.searched in
    rw (acquire_lem ready) (
      find_block-first ready num (λ r. r ≡ faulted) scan_fuel 4 p is (omega arith) (omega arith)
        (omega arith)
        (λ f some_fuel.
          start_runs_past ready num f p _ is low two none some_fuel
            (count_free-Counted (held s s.mm_table) num p 0 (omega arith))))
