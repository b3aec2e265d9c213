-- ===== src/Segments/Tss.antt =====
-- get_gdt_tss_base after alloc_tss_desc.
use native.Mathlib.Decide.{ℕ_discrete}
use rtv.Base.{
  ℕ, zero, suc, ◌+◌, ◌*◌, ◌/◌, ◌%◌, ◌^◌, ◌≤◌, ◌<◌, ◌≡◌, ◌⊎◌, inl, inr, refl, ◌∙◌, true, false, not,
  ◌&&◌, ltb, Bool, bit_or, ◌==◌, arith, Bool-cases,
}
use rtv.Base.Run.{Run, ok, panicked}
use rtv.Word.{shr, shl64}
use rtv.Word.Masks.{bit_or_fields}
use rtv.Bits.{Words, store}
use rtv.Spinlock.{u16, spin_lock, spin_unlock}
use rtv.Spinlock.Ticket.{IsFree}
use rtv.Segments.{
  Gdt, gdt_entry_nr, low_word, high_word, lock_gdt, unlock_gdt, present, mark_present, tss_desc,
  place_tss_desc, alloc_tss_desc, get_gdt_tss_base,
}

-- The descriptor's words, as numbers.
low_word-tss_desc :
    (base : ℕ)
    → low_word (tss_desc base)
      ≡ 103 + base % 2 ^ 24 * 2 ^ 16 + (9 * 2 ^ 40 + 2 ^ 47) + base / 2 ^ 24 % 2 ^ 8 * 2 ^ 56
unfolding low_word tss_desc
low_word-tss_desc base = omega arith

high_word-tss_desc : (base : ℕ) → high_word (tss_desc base) ≡ base / 2 ^ 32
unfolding high_word tss_desc
high_word-tss_desc base = omega arith

-- The high word has the mark beside the rest of the base.
mark_present-high :
    (base : ℕ) → base < 2 ^ 64 → mark_present (high_word (tss_desc base)) ≡ base / 2 ^ 32 + 2 ^ 47
unfolding mark_present present
mark_present-high base fits = rw (high_word-tss_desc base, not_yet)
  where
    not_yet : (shr (base / 2 ^ 32) 47 % 2 == 1) ≡ false
    not_yet = ground arith

-- The table with a descriptor at the entries `i` and `i + 1`.
abbrev placed : Words → ℕ → ℕ → Words
placed t i tss_p =
    store (store t i (low_word (tss_desc tss_p))) (i + 1)
      (mark_present (high_word (tss_desc tss_p)))

module _ (t : Words) (i tss_p : ℕ) where
  placed-low : placed t i tss_p i ≡ low_word (tss_desc tss_p)
  unfolding store
  placed-low = ground arith

  placed-high : placed t i tss_p (i + 1) ≡ mark_present (high_word (tss_desc tss_p))
  unfolding store
  placed-high = ground arith

-- The mark lies outside the base.
mark_present-base : (w : ℕ) → mark_present w % 2 ^ 32 ≡ w % 2 ^ 32
unfolding mark_present present
mark_present-base w = elim (Bool-cases (present w)) [ inl e ↦ rw e | inr e ↦ rw e (omega arith) ]

-- The three parts of the base come together again.
get_gdt_tss_base-placed :
    (s : Gdt) (t : Words) (i tss_p : ℕ)
    → i < 511
    → tss_p < 2 ^ 64
    → s.gdt ≡ placed t i tss_p
    → get_gdt_tss_base (i * 8) s ≡ ok tss_p s
unfolding get_gdt_tss_base
get_gdt_tss_base-placed s t i tss_p lt fits e = rw (at_index, inside, base0, base1, shifted, joined)
  where
    at_index : shr (i * 8) 3 ≡ i
    at_index = omega arith

    inside : ltb (i + 1) gdt_entry_nr ≡ true
    inside = ground arith

    low :
        s.gdt i
        ≡ 103 + tss_p % 2 ^ 24 * 2 ^ 16 + (9 * 2 ^ 40 + 2 ^ 47) + tss_p / 2 ^ 24 % 2 ^ 8 * 2 ^ 56
    low = rw e (placed-low t i tss_p ∙ low_word-tss_desc tss_p)

    high : s.gdt (i + 1) % 2 ^ 32 ≡ tss_p / 2 ^ 32
    high = rw e (
        rw
          (
            placed-high t i tss_p,
            mark_present-base (high_word (tss_desc tss_p)),
            high_word-tss_desc tss_p,
          )
          (omega arith))

    base0 : shr (s.gdt i) 16 % 2 ^ 24 ≡ tss_p % 2 ^ 24
    base0 = omega (arith, low)

    base1 : shr (s.gdt i) 56 + s.gdt (i + 1) % 2 ^ 32 * 2 ^ 8 ≡ tss_p / 2 ^ 24
    base1 = omega (arith, low, high)

    shifted : shl64 (tss_p / 2 ^ 24) 24 ≡ tss_p / 2 ^ 24 * 2 ^ 24
    shifted = omega arith

    joined : bit_or (tss_p / 2 ^ 24 * 2 ^ 24) (tss_p % 2 ^ 24) ≡ tss_p
    joined = bit_or_fields 24 (tss_p / 2 ^ 24) (tss_p % 2 ^ 24) (omega arith) ∙ omega arith

-- The processor's present bit of an 8-byte entry, bit 47.
abbrev pub in_use : ℕ → Bool
in_use w = w / 2 ^ 47 % 2 == 1

-- Two entries in a row are free.
abbrev pub free_pair : Words → ℕ → Bool
free_pair t i = not (in_use (t i)) && not (in_use (t (i + 1)))

-- The processor's reading of a descriptor of 16 bytes, of an available 64-bit task-state segment of 104
-- bytes at `base`: the fields of the manual, by their bits. Both halves are in use as entries.
pub record IsTss (lo hi base : ℕ) : Type 0 where
  pub limit_low : lo % 2 ^ 16 ≡ 103
  pub limit_high : lo / 2 ^ 48 % 2 ^ 4 ≡ 0
  pub base_low : lo / 2 ^ 16 % 2 ^ 24 ≡ base % 2 ^ 24
  pub base_middle : lo / 2 ^ 56 ≡ base / 2 ^ 24 % 2 ^ 8
  pub base_high : hi % 2 ^ 32 ≡ base / 2 ^ 32
  pub available : lo / 2 ^ 40 % 2 ^ 4 ≡ 9
  pub of_system : lo / 2 ^ 44 % 2 ≡ 0
  pub privilege : lo / 2 ^ 45 % 2 ^ 2 ≡ 0
  pub in_bytes : lo / 2 ^ 55 % 2 ≡ 0
  pub spare : lo / 2 ^ 52 % 2 ^ 3 ≡ 0
  pub low_used : in_use lo ≡ true
  pub high_used : in_use hi ≡ true

placed-IsTss :
    (t : Words) (i base : ℕ)
    → base < 2 ^ 64
    → IsTss (placed t i base i) (placed t i base (i + 1)) base
placed-IsTss t i base fits =
    rw
      (
        placed-low t i base,
        placed-high t i base,
        low_word-tss_desc base,
        mark_present-high base fits,
      )
      (record {
        limit_low = omega arith;
        limit_high = omega arith;
        base_low = omega arith;
        base_middle = omega arith;
        base_high = omega arith;
        available = omega arith;
        of_system = omega arith;
        privilege = omega arith;
        in_bytes = omega arith;
        spare = omega arith;
        low_used = ground arith;
        high_used = ground arith;
      })

placed-others : (t : Words) (i base j : ℕ) → ¬ ((j ≡ i) ⊎ (j ≡ i + 1)) → placed t i base j ≡ t j
unfolding store
placed-others t i base j ne = elim (ℕ_discrete j i) [
  | yes same ↦ absurd (ne (inl same))
  | no other ↦ elim (ℕ_discrete j (i + 1)) [
    | yes same ↦ absurd (ne (inr same))
    | no behind ↦ ground arith
  ]
]

abbrev pub entered : Gdt → Words → Gdt
entered s t = record {
  gdt = t;
  gdt_lock = record { next = u16 (s.gdt_lock.next + 1); owner = s.gdt_lock.owner };
}

abbrev pub left : Gdt → Words → Gdt
left s t = record {
  gdt = t;
  gdt_lock = record { next = u16 (s.gdt_lock.next + 1); owner = u16 (s.gdt_lock.owner + 1) };
}

-- The first free pair of `[lo, 511)` holds the descriptor, whose base reads back, and is in use now.
pub record Placed (s : Gdt) (lo tss_p : ℕ) (r : Run Gdt ℕ) : Type 0 where
  pub index : ℕ
  pub from : lo ≤ index
  pub below : index < 511
  pub was_free : free_pair s.gdt index ≡ true
  pub first : (m : ℕ) → lo ≤ m → m < index → free_pair s.gdt m ≡ false
  pub table : Words
  pub returns : r ≡ ok (index * 8) (left s table)
  pub descriptor : IsTss (table index) (table (index + 1)) tss_p
  pub others : (j : ℕ) → ¬ ((j ≡ index) ⊎ (j ≡ index + 1)) → table j ≡ s.gdt j
  pub reads_back : get_gdt_tss_base (index * 8) (left s table) ≡ ok tss_p (left s table)

pub record NoPair (s : Gdt) (lo : ℕ) (r : Run Gdt ℕ) : Type 0 where
  pub none_free : (m : ℕ) → lo ≤ m → m < 511 → free_pair s.gdt m ≡ false
  pub panics : r ≡ panicked

lock_gdt_lem : (s : Gdt) → IsFree s.gdt_lock → lock_gdt s ≡ ok tt (entered s s.gdt)
unfolding lock_gdt spin_lock
lock_gdt_lem s unlocked = ground arith

module _ (s : Gdt) (tss_p : ℕ) (fits : tss_p < 2 ^ 64) where
  place_tss_desc-end : (i : ℕ) → place_tss_desc 0 i tss_p (entered s s.gdt) ≡ panicked
  unfolding place_tss_desc unlock_gdt spin_unlock
  place_tss_desc-end i = refl

  place_tss_desc-next :
      (count i : ℕ)
      → free_pair s.gdt i ≡ false
      → place_tss_desc (suc count) i tss_p (entered s s.gdt)
        ≡ place_tss_desc count (i + 1) tss_p (entered s s.gdt)
  unfolding place_tss_desc present
  place_tss_desc-next count i e = rw e

  place_tss_desc-stops :
      (count i : ℕ)
      → i < 511
      → free_pair s.gdt i ≡ true
      → place_tss_desc (suc count) i tss_p (entered s s.gdt)
        ≡ ok (i * 8) (left s (placed s.gdt i tss_p))
  unfolding place_tss_desc unlock_gdt spin_unlock present
  place_tss_desc-stops count i lt e = rw (e, small)
    where
      small : i * 2 ^ 3 % 2 ^ 16 ≡ i * 8
      small = omega arith

  Placed-skip :
      (i : ℕ) (r : Run Gdt ℕ)
      → free_pair s.gdt i ≡ false
      → Placed s (i + 1) tss_p r ⊎ NoPair s (i + 1) r
      → Placed s i tss_p r ⊎ NoPair s i r
  Placed-skip i r e (inl f) = inl (record {
    index = f.index;
    from = let h = f.from in omega arith;
    below = f.below;
    was_free = f.was_free;
    first = λ m lo lt. ground (arith, f.first m);
    table = f.table;
    returns = f.returns;
    descriptor = f.descriptor;
    others = f.others;
    reads_back = f.reads_back;
  })
  Placed-skip i r e (inr x) =
      inr (record { none_free = λ m lo lt. ground (arith, x.none_free m); panics = x.panics })

  place_tss_desc-Placed :
      (count i : ℕ)
      → i + count ≡ 511
      → Placed s i tss_p (place_tss_desc count i tss_p (entered s s.gdt))
        ⊎ NoPair s i (place_tss_desc count i tss_p (entered s s.gdt))
  place_tss_desc-Placed zero i room =
      inr (record { none_free = λ m lo lt. absurd (omega arith); panics = place_tss_desc-end i })
  place_tss_desc-Placed (suc count) i room = elim (Bool-cases (free_pair s.gdt i)) [
    | inl e ↦ inl (record {
      index = i;
      from = omega arith;
      below = omega arith;
      was_free = e;
      first = λ m lo lt. absurd (omega arith);
      table = placed s.gdt i tss_p;
      returns = place_tss_desc-stops count i (omega arith) e;
      descriptor = placed-IsTss s.gdt i tss_p fits;
      others = placed-others s.gdt i tss_p;
      reads_back =
          get_gdt_tss_base-placed (left s (placed s.gdt i tss_p)) s.gdt i tss_p (omega arith) fits
            refl;
    })
    | inr e ↦
        rw (place_tss_desc-next count i e)
          (Placed-skip i _ e (place_tss_desc-Placed count (i + 1) (omega arith)))
  ]

  -- Between calls, for an address below 2 ^ 64: `alloc_tss_desc` puts a descriptor in the first two entries
  -- in a row of the GDT that are free, from entry 3 on, which the processor reads as present, of an
  -- available 64-bit task-state segment of 104 bytes at the address, for privilege level 0. Both entries
  -- are in use then, no other entry changes, and the lock is released. It returns the selector, from which
  -- `get_gdt_tss_base` reads the address of the segment back; or it panics where no two entries in a row
  -- are free.
  pub alloc_tss_desc-Placed :
      IsFree s.gdt_lock
      → Placed s 3 tss_p (alloc_tss_desc tss_p s) ⊎ NoPair s 3 (alloc_tss_desc tss_p s)
  unfolding alloc_tss_desc
  alloc_tss_desc-Placed unlocked = rw locked (place_tss_desc-Placed 508 3 (omega arith))
    where
      locked : lock_gdt s ≡ ok tt (entered s s.gdt)
      locked = lock_gdt_lem s unlocked
