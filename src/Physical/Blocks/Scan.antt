-- ===== src/Physical/Blocks/Scan.antt =====
-- The inner loops: the next free frame, and the free frames in a row from there.
use native.Mathlib.Decide.{dec_lt}
use rtv.Base.{
  ℕ, zero, suc, ◌+◌, ◌*◌, ◌≤◌, ◌<◌, ◌≡◌, inl, inr, true, false, arith, if◌then◌else◌, Bool-cases,
}
use rtv.Base.Run.{Run, ok, faulted}
use rtv.Physical.Defs.{Phys, mm_table_max}
use rtv.Physical.State.{free_at, get_bit_lem, get_bit-faulted}
use rtv.Physical.Blocks.{skip_taken, count_free}

abbrev pub table_bits : ℕ
table_bits = mm_table_max * 64

-- No frame of `[lo, hi)` is free.
abbrev pub NoneFree : Phys → ℕ → ℕ → Type 0
NoneFree s lo hi = (m : ℕ) → lo ≤ m → m < hi → free_at s m ≡ false

abbrev pub AllFree : Phys → ℕ → ℕ → Type 0
AllFree s lo hi = (m : ℕ) → lo ≤ m → m < hi → free_at s m ≡ true

-- The search ends at the next free frame, or runs past the end of the table.
pub data Skipped (s : Phys) (pos : ℕ) : Run Phys ℕ → Type 0 where
  stopped :
      (q : ℕ)
      → pos ≤ q
      → q < table_bits
      → NoneFree s pos q
      → free_at s q ≡ true
      → Skipped s pos (ok q s)
  ran_past : NoneFree s pos table_bits → Skipped s pos faulted

same_of_le : (lo m : ℕ) → lo ≤ m → (lo < m → ⊥) → m ≡ lo
same_of_le lo m le nlt = omega arith

module _ (s : Phys) where
  skip_taken-out : (fuel pos : ℕ) → table_bits ≤ pos → skip_taken (suc fuel) pos s ≡ faulted
  unfolding skip_taken
  skip_taken-out fuel pos h = rw (get_bit-faulted s pos h)

  skip_taken-next :
      (fuel pos : ℕ)
      → pos < table_bits
      → skip_taken (suc fuel) pos s
        ≡ (if free_at s pos then ok pos s else skip_taken fuel (pos + 1) s)
  unfolding skip_taken
  skip_taken-next fuel pos h = elim (Bool-cases (free_at s pos)) [
    | inl e ↦ rw (get_bit_lem s pos h, e)
    | inr e ↦ rw (get_bit_lem s pos h, e)
  ]

  NoneFree-cons : (lo hi : ℕ) → free_at s lo ≡ false → NoneFree s (lo + 1) hi → NoneFree s lo hi
  NoneFree-cons lo hi e none m le lt = elim (dec_lt lo m) [
    | yes p ↦ none m (omega arith) lt
    | no p ↦ rw (same_of_le lo m le p) e
  ]

  Skipped-next :
      (pos : ℕ) (r : Run Phys ℕ) → free_at s pos ≡ false → Skipped s (pos + 1) r → Skipped s pos r
  Skipped-next pos _ e (stopped q le lt none free) =
      stopped q (omega arith) lt (NoneFree-cons pos q e none) free
  Skipped-next pos _ e (ran_past none) = ran_past (NoneFree-cons pos table_bits e none)

  pub skip_taken-Skipped :
      (fuel pos : ℕ)
      → pos ≤ table_bits
      → table_bits < pos + fuel
      → Skipped s pos (skip_taken fuel pos s)
  skip_taken-Skipped zero pos le h = absurd (omega arith)
  skip_taken-Skipped (suc fuel) pos le h = elim (dec_lt pos table_bits) [
    | no out ↦
        rw (skip_taken-out fuel pos (omega arith)) (ran_past (λ m lo hi. absurd (omega arith)))
    | yes p ↦ elim (Bool-cases (free_at s pos)) [
      | inl e ↦
          rw (skip_taken-next fuel pos p, e)
            (stopped pos (omega arith) p (λ m lo hi. absurd (omega arith)) e)
      | inr e ↦
          rw (skip_taken-next fuel pos p, e)
            (Skipped-next pos _ e (skip_taken-Skipped fuel (pos + 1) (omega arith) (omega arith)))
    ]
  ]

-- The free frames from `cur` on were counted, up to `left` of them, or up to the table's end.
pub data Counted (s : Phys) (left cur count : ℕ) : Run Phys (ℕ × ℕ) → Type 0 where
  all_free :
      (end total : ℕ)
      → end ≡ cur + left
      → total ≡ count + left
      → end ≤ table_bits
      → AllFree s cur end
      → Counted s left cur count (ok (end, total) s)
  ended :
      (end total : ℕ)
      → cur ≤ end
      → end < cur + left
      → total + cur ≡ count + end
      → AllFree s cur end
      → end < table_bits
      → free_at s end ≡ false
      → Counted s left cur count (ok (end, total) s)
  ran_out : AllFree s cur table_bits → table_bits < cur + left → Counted s left cur count faulted

module _ (s : Phys) where
  count_free-next :
      (left cur count : ℕ)
      → cur < table_bits
      → count_free (suc left) cur count s
        ≡ (if free_at s cur then count_free left (cur + 1) (count + 1) s else ok (cur, count) s)
  unfolding count_free
  count_free-next left cur count h = elim (Bool-cases (free_at s cur)) [
    | inl e ↦ rw (get_bit_lem s cur h, e)
    | inr e ↦ rw (get_bit_lem s cur h, e)
  ]

  count_free-out :
      (left cur count : ℕ) → table_bits ≤ cur → count_free (suc left) cur count s ≡ faulted
  unfolding count_free
  count_free-out left cur count h = rw (get_bit-faulted s cur h)

  pub AllFree-cons : (lo hi : ℕ) → free_at s lo ≡ true → AllFree s (lo + 1) hi → AllFree s lo hi
  AllFree-cons lo hi e free m le lt = elim (dec_lt lo m) [
    | yes p ↦ free m (omega arith) lt
    | no p ↦ rw (same_of_le lo m le p) e
  ]

  Counted-next :
      (left cur count : ℕ) (r : Run Phys (ℕ × ℕ))
      → free_at s cur ≡ true
      → Counted s left (cur + 1) (count + 1) r
      → Counted s (suc left) cur count r
  Counted-next left cur count _ e (all_free end total p q le free) =
      all_free end total (omega arith) (omega arith) le (AllFree-cons cur end e free)
  Counted-next left cur count _ e (ended end total le lt sum free p at) =
      ended end total (omega arith) (omega arith) (omega arith) (AllFree-cons cur end e free) p at
  Counted-next left cur count _ e (ran_out free lt) =
      ran_out (AllFree-cons cur table_bits e free) (omega arith)

  pub count_free-Counted :
      (left cur count : ℕ)
      → cur ≤ table_bits
      → Counted s left cur count (count_free left cur count s)
  count_free-Counted zero cur count le =
      unfold count_free in
      all_free cur count (omega arith) (omega arith) le (λ m lo hi. absurd (omega arith))
  count_free-Counted (suc left) cur count le = elim (dec_lt cur table_bits) [
    | no out ↦
        rw (count_free-out left cur count (omega arith))
          (ran_out (λ m lo hi. absurd (omega arith)) (omega arith))
    | yes p ↦ elim (Bool-cases (free_at s cur)) [
      | inl e ↦
          rw (count_free-next left cur count p, e)
            (Counted-next left cur count _ e
              (count_free-Counted left (cur + 1) (count + 1) (omega arith)))
      | inr e ↦
          rw (count_free-next left cur count p, e)
            (ended cur count (omega arith) (omega arith) (omega arith)
              (λ m lo hi. absurd (omega arith)) p e)
    ]
  ]
