-- ===== src/Vm/Walk.antt =====
-- Where the processor's walk finds the tables that get_paging_struct_vaddr names.
use rtv.Base.{
  ℕ, zero, suc, ◌+◌, ◌-◌, ◌*◌, ◌/◌, ◌%◌, ◌^◌, ◌<◌, ◌≡◌, refl, ap, ◌∙◌, false, bit_and, bit_or,
  arith, some,
}
use rtv.Base.Run.{ok}
use rtv.Word.{u64, shr}
use rtv.Word.Masks.{bit_and_high, bit_and_field, bit_or_ones}
use rtv.Bits.{Words}
use rtv.Vm.Defs.{absent, pg_mask, get_paging_struct_vaddr}
use rtv.Vm.Tables.{frame_of, large, index, walk, entry_index}

-- The source's masks pick the processor's indices.
pub entry_index_lem :
    (a : ℕ)
    → (entry_index 0 a ≡ index 0 a)
      × (entry_index 1 a ≡ index 1 a)
      × (entry_index 2 a ≡ index 2 a)
      × (entry_index 3 a ≡ index 3 a)
unfolding entry_index
entry_index_lem a =
    (bit_and_field 39 9 a, bit_and_field 30 9 a, bit_and_field 21 9 a, bit_and_field 12 9 a)

-- The address of a table: ones above digit `k`, and below the digits of the table's place.
module _ (w : ℕ) where
  table_address :
      (m k : ℕ)
      → w < 2 ^ (m + k)
      → (2 ^ m - 1) * 2 ^ k + w % 2 ^ k < 2 ^ 64
      → bit_and (bit_or w ((2 ^ m - 1) * 2 ^ k)) pg_mask
        ≡ ((2 ^ m - 1) * 2 ^ k + w % 2 ^ k) / 2 ^ 12 * 2 ^ 12
  table_address m k small fits =
      rw (bit_or_ones m k w small)
        (bit_and_high 12 ((2 ^ m - 1) * 2 ^ k + w % 2 ^ k) (omega arith) fits)

-- An entry that leads to another table.
abbrev pub Open : ℕ → Type 0
Open e = (absent e ≡ false) × (large e ≡ false)

-- The last entry of the top table leads to the top table.
abbrev pub SelfMapped : (ℕ → Words) → ℕ → Type 0
SelfMapped frames root = Open (frames root 511) × (frame_of (frames root 511) ≡ root)

-- The four addresses, as numbers.
abbrev pub table_vaddr : (level a : ℕ) → ℕ
table_vaddr zero a = 2 ^ 64 - 2 ^ 12
table_vaddr (suc zero) a = 2 ^ 64 - 2 ^ 21 + index 0 a * 2 ^ 12
table_vaddr (suc (suc zero)) a = 2 ^ 64 - 2 ^ 30 + (index 0 a * 2 ^ 9 + index 1 a) * 2 ^ 12
table_vaddr (suc (suc (suc level))) a =
    2 ^ 64 - 2 ^ 39 + ((index 0 a * 2 ^ 9 + index 1 a) * 2 ^ 9 + index 2 a) * 2 ^ 12

module _ (a : ℕ) (fits : a < 2 ^ 64) {S : Type 0} (s : S) where
  pub vaddr-top : get_paging_struct_vaddr a 0 s ≡ ok (table_vaddr 0 a) s
  unfolding get_paging_struct_vaddr
  vaddr-top = refl

  pub vaddr-pdpt : get_paging_struct_vaddr a 1 s ≡ ok (table_vaddr 1 a) s
  unfolding get_paging_struct_vaddr
  vaddr-pdpt =
      ap (λ (v : ℕ). ok v s)
        (table_address (shr a 27) 43 21 (omega arith) (omega arith) ∙ omega arith)

  pub vaddr-pdt : get_paging_struct_vaddr a 2 s ≡ ok (table_vaddr 2 a) s
  unfolding get_paging_struct_vaddr
  vaddr-pdt =
      ap (λ (v : ℕ). ok v s)
        (table_address (shr a 18) 34 30 (omega arith) (omega arith) ∙ omega arith)

  pub vaddr-pt : get_paging_struct_vaddr a 3 s ≡ ok (table_vaddr 3 a) s
  unfolding get_paging_struct_vaddr
  vaddr-pt =
      ap (λ (v : ℕ). ok v s)
        (table_address (shr a 9) 25 39 (omega arith) (omega arith) ∙ omega arith)

-- The frames of the tables of an address.
abbrev pub pdpt_frame : (ℕ → Words) → (root a : ℕ) → ℕ
pdpt_frame frames root a = frame_of (frames root (index 0 a))

abbrev pub pdt_frame : (ℕ → Words) → (root a : ℕ) → ℕ
pdt_frame frames root a = frame_of (frames (pdpt_frame frames root a) (index 1 a))

abbrev pub pt_frame : (ℕ → Words) → (root a : ℕ) → ℕ
pt_frame frames root a = frame_of (frames (pdt_frame frames root a) (index 2 a))

-- Where the walk of an address with the four given indices ends.
pub walk-indices :
    (frames : ℕ → Words) (root a i0 i1 i2 i3 : ℕ)
    → index 0 a ≡ i0
    → index 1 a ≡ i1
    → index 2 a ≡ i2
    → index 3 a ≡ i3
    → (t1 t2 t3 : ℕ) → Open (frames root i0) × (frame_of (frames root i0) ≡ t1)
    → Open (frames t1 i1) × (frame_of (frames t1 i1) ≡ t2)
    → Open (frames t2 i2) × (frame_of (frames t2 i2) ≡ t3)
    → absent (frames t3 i3) ≡ false
    → walk frames root a ≡ some (frame_of (frames t3 i3))
unfolding walk
walk-indices frames root a i0 i1 i2 i3 e0 e1 e2 e3 t1 t2 t3 ((p0, l0), f0) ((p1, l1), f1)
      ((p2, l2), f2) p3 =
    rw (e0, e1, e2, e3, p0, f0, p1, l1, f1, p2, l2, f2, p3)

-- Through the last entry of the top table, the walk of a table's address ends at the table.
module _ (frames : ℕ → Words) (root a j : ℕ) (self : SelfMapped frames root)
    (inside : j < 512) where
  abbrev pub at : ℕ → ℕ
  at level = u64 (table_vaddr level a + j * 8)

  pub at-slot : (level : ℕ) → shr (at level) 3 % 2 ^ 9 ≡ j
  at-slot zero = omega arith
  at-slot (suc zero) = omega arith
  at-slot (suc (suc zero)) = omega arith
  at-slot (suc (suc (suc level))) = omega arith

  pub walk-top : walk frames root (at 0) ≡ some root
  walk-top =
      let (p, l) = self.0 in
      walk-indices frames root (at 0) 511 511 511 511 (omega arith) (omega arith) (omega arith)
        (omega arith) root root root self self self p
      ∙ ap some self.1

  pub walk-pdpt :
      absent (frames root (index 0 a)) ≡ false
      → walk frames root (at 1) ≡ some (pdpt_frame frames root a)
  walk-pdpt p0 =
      walk-indices frames root (at 1) 511 511 511 (index 0 a) (omega arith) (omega arith)
        (omega arith) (omega arith) root root root self self self p0

  pub walk-pdt :
      Open (frames root (index 0 a))
      → absent (frames (pdpt_frame frames root a) (index 1 a)) ≡ false
      → walk frames root (at 2) ≡ some (pdt_frame frames root a)
  walk-pdt o0 p1 =
      walk-indices frames root (at 2) 511 511 (index 0 a) (index 1 a) (omega arith) (omega arith)
        (omega arith) (omega arith) root root (pdpt_frame frames root a) self self (o0, refl) p1

  pub walk-pt :
      Open (frames root (index 0 a))
      → Open (frames (pdpt_frame frames root a) (index 1 a))
      → absent (frames (pdt_frame frames root a) (index 2 a)) ≡ false
      → walk frames root (at 3) ≡ some (pt_frame frames root a)
  walk-pt o0 o1 p2 =
      walk-indices frames root (at 3) 511 (index 0 a) (index 1 a) (index 2 a) (omega arith)
        (omega arith) (omega arith) (omega arith) root (pdpt_frame frames root a)
        (pdt_frame frames root a) self (o0, refl) (o1, refl) p2
