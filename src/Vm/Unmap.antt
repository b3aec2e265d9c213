-- ===== src/Vm/Unmap.antt =====
-- vm_unmap_page and vm_unmap_pages, on pages that the mapping functions mapped.
use rtv.Base.{
  ℕ, ◌+◌, ◌*◌, ◌/◌, ◌%◌, ◌^◌, ◌<◌, ◌≡◌, ◌⊎◌, inl, inr, refl, ap, ◌∙◌, true, false, bit_and, bit_or,
  arith, List, ◌∷◌, ◌≢◌, ◌==◌, if◌then◌else◌,
}
use rtv.Base.Run.{ok, and_then}
use rtv.Word.{u64, shr, shl64}
use rtv.Word.Laws.{bit_and_mask}
use rtv.Word.Masks.{bit_or_comm, bit_or_fields, bit_and_high}
use rtv.Bits.{Words}
use rtv.Physical.Defs.{pg_bits, pg_size}
use rtv.Vm.Defs.{
  Paging, pg_mask, pg_table_mask, kernel_mapping_base, get_paging_struct_vaddr, put_entry, absent,
  invalidate_page,
}
use rtv.Vm.Pages.{vm_map_page, unmap_entry, vm_unmap_page}
use rtv.Vm.State.{
  IsIdle, outside, outside-IsIdle, absent_at, lock_paging_lem, unlock_paging_lem, read_entry_lem,
  write_entry_lem, put_entry_at,
}
use rtv.Vm.Single.{page_table, vm_map_page-FirstMapped}

-- The address that entry `i` of the 4 KB window maps.
abbrev pub page_address : ℕ → ℕ
page_address i = u64 (kernel_mapping_base + shl64 i pg_bits)

module _ (i : ℕ) (lt : i < 512) where
  page_address-value : page_address i ≡ (2560 + i) * pg_size
  page_address-value = omega arith

  -- The window lies in one table.
  pub page_address-table :
      (s : Paging) → get_paging_struct_vaddr (page_address i) 3 s ≡ ok page_table s
  unfolding get_paging_struct_vaddr
  page_address-table s =
      ap (λ (a : ℕ). ok a s)
        (rw (joined) (
          bit_and_high 12 (33554431 * 2 ^ 39 + (20480 + i * 8)) (omega arith) (omega arith)
          ∙ omega arith))
    where
      joined :
          bit_or (shr (page_address i) 9) 0xFFFFFF8000000000 ≡ 33554431 * 2 ^ 39 + (20480 + i * 8)
      joined =
          bit_or_comm (shr (page_address i) 9) 0xFFFFFF8000000000
          ∙ rw part (bit_or_fields 39 33554431 (20480 + i * 8) (omega arith))
        where
          part : shr (page_address i) 9 ≡ 20480 + i * 8
          part = omega arith

  pub page_address-index : bit_and (shr (page_address i) pg_bits) pg_table_mask ≡ i
  page_address-index = bit_and_mask 9 (shr (page_address i) pg_bits) ∙ omega arith

-- The frame of an entry, its flags being low bits.
pub frame_of_entry :
    (frame flags : ℕ)
    → frame < 2 ^ 64
    → frame % pg_size ≡ 0
    → flags < pg_size
    → bit_and (bit_or frame flags) pg_mask ≡ frame
frame_of_entry frame flags fits aligned low =
    rw joined (
      bit_and_high 12 (frame / pg_size * pg_size + flags) (omega arith) (omega arith) ∙ omega arith)
  where
    joined : bit_or frame flags ≡ frame / pg_size * pg_size + flags
    joined = ap (λ (t : ℕ). bit_or t flags) whole ∙ bit_or_fields 12 (frame / pg_size) flags low
      where
        whole : frame ≡ frame / pg_size * pg_size
        whole = omega arith

module _ {s : Paging} (idle : IsIdle s) where
  -- `vm_unmap_page` clears the entry of its page and returns what it held.
  vm_unmap_page-entry :
      (i : ℕ)
      → i < 512
      → vm_unmap_page (page_address i) s
        ≡ ok
            (bit_and (s.entries page_table i) pg_mask)
            (outside s (put_entry s.entries page_table i 0) (page_address i ∷ s.invalidated))
  unfolding vm_unmap_page unmap_entry invalidate_page
  vm_unmap_page-entry i lt = rw (
    lock_paging_lem idle,
    page_address-table i lt,
    page_address-index i lt,
    read_entry_lem _ page_table i lt,
    write_entry_lem _ page_table i 0 lt,
    unlock_paging_lem s,
  )

-- Which entries are present is as it was in `s`, and nobody holds the lock.
pub record Unchanged (s s' : Paging) : Type 0 where
  pub presence : (u j : ℕ) → absent (s'.entries u j) ≡ absent (s.entries u j)
  pub others :
      (u j : ℕ)
      → (u ≢ page_table) ⊎ (absent (s.entries u j) ≡ false)
      → s'.entries u j ≡ s.entries u j
  pub idle : IsIdle s'

module _ (s : Paging) (idle : IsIdle s) (frame flags : ℕ) where
  cleared :
      (i : ℕ)
      → absent_at s.entries page_table i ≡ true
      → (inv inv' : List ℕ) → (t : ℕ → Words)
      → t ≡ put_entry s.entries page_table i (bit_or frame flags)
      → Unchanged s (outside (outside s t inv) (put_entry t page_table i 0) inv')
  cleared i free inv inv' t e = record {
    presence = λ u j. ground (arith, put_entry_at t page_table i 0 u j, before u j, was u j, none);
    others = λ u j h. ground (arith, put_entry_at t page_table i 0 u j, before u j, was u j);
    idle = outside-IsIdle (outside-IsIdle idle t inv) _ inv';
  }
    where
      none : absent 0 ≡ true
      none = unfold absent in refl

      was : (u j : ℕ) → u ≡ page_table → i ≡ j → absent (s.entries u j) ≡ true
      was u j at_table at_entry = rw (at_table, ← at_entry) free

      before :
          (u j : ℕ)
          → t u j ≡ (
              if u == page_table
              then (if i == j then bit_or frame flags else s.entries u j)
              else s.entries u j)
      before u j = rw e (put_entry_at s.entries page_table i (bit_or frame flags) u j)

  -- Between calls, where some entry of the 4 KB window is not present, for an aligned frame and flags
  -- below bit 12: unmapping the page that `vm_map_page` returns gives the frame back, and then the same
  -- entries are present as before, with the same contents, and the lock is released.
  pub vm_unmap_page-vm_map_page :
      (i : ℕ)
      → i < 512
      → absent_at s.entries page_table i ≡ true
      → frame < 2 ^ 64
      → frame % pg_size ≡ 0
      → flags < pg_size
      → (s' : Paging) × (and_then (vm_map_page frame flags s) vm_unmap_page ≡ ok frame s')
        × Unchanged s s'
  vm_unmap_page-vm_map_page i lt free fits aligned low =
      elim (vm_map_page-FirstMapped idle frame flags) [
        | inl m ↦
            let t = put_entry s.entries page_table m.index (bit_or frame flags) in
            let s1 = outside s t s.invalidated in
            let s2 =
              outside s1 (put_entry t page_table m.index 0)
                (page_address m.index ∷ s.invalidated) in
            let stored : t page_table m.index ≡ bit_or frame flags =
              put_entry_at s.entries page_table m.index (bit_or frame flags) page_table m.index
              ∙ ground arith in
            (
              s2,
              ap (λ r. and_then r vm_unmap_page) m.returns
                  ∙ vm_unmap_page-entry (outside-IsIdle idle t s.invalidated) m.index m.below
                  ∙ rw (stored, frame_of_entry frame flags fits aligned low),
              cleared m.index m.was_absent s.invalidated (page_address m.index ∷ s.invalidated) t
                  refl,
            )
        | inr x ↦ absurd (cc (x.none_absent i (omega arith) lt))
      ]
