-- ===== src/Vm/Entries.antt =====
-- One entry of a table: what an access to it does, and what setting it changes.
use rtv.Base.{ℕ, ◌+◌, ◌*◌, ◌%◌, ◌^◌, ◌<◌, ◌≡◌, ap, ◌∙◌, true, false, bit_or, arith, some}
use rtv.Base.Run.{ok, panicked}
use rtv.Word.{u64, shr, bit}
use rtv.Word.Laws.{bit-or, bit-shr, bit-mod, bit_ext, bit_and_mask, bit-zero}
use rtv.Word.Step.{bit_or_step}
use rtv.Bits.{Words, store}
use rtv.Vm.Defs.{absent, put_entry, get_paging_struct_vaddr}
use rtv.Vm.Tables.{
  Machine, frame_of, index, walk, translate, load, write, entry_index, ensure_table, fill_entry,
}
use rtv.Vm.Walk.{
  entry_index_lem, Open, SelfMapped, table_vaddr, vaddr-top, vaddr-pdpt, vaddr-pdt, vaddr-pt,
  pdpt_frame, pdt_frame, pt_frame, at-slot, walk-top, walk-pdpt, walk-pdt, walk-pt,
}

-- The frame of an entry whose flags have no digits of the address.
pub frame_of-bit_or :
    (frame flags : ℕ) → frame_of flags ≡ 0 → frame_of (bit_or frame flags) ≡ frame_of frame
frame_of-bit_or frame flags clear =
    bit_ext (frame_of (bit_or frame flags) + frame_of frame) _ _ (omega arith) (omega arith) same
  where
    same : (i : ℕ) → bit (frame_of (bit_or frame flags)) i ≡ bit (frame_of frame) i
    same i = ground (
      arith,
      bit-mod 40 (shr (bit_or frame flags) 12) i,
      bit-mod 40 (shr frame 12) i,
      bit-shr 12 (bit_or frame flags) i,
      bit-shr 12 frame i,
      bit-or frame flags (i + 12),
      bit-mod 40 (shr flags 12) i,
      bit-shr 12 flags i,
      ap (λ t. bit t i) clear,
      bit-zero i,
    )

pub absent-bit_or : (frame flags : ℕ) → flags % 2 ≡ 1 → absent (bit_or frame flags) ≡ false
unfolding absent
absent-bit_or frame flags p =
    ground (arith, bit_and_mask 1 (bit_or frame flags), bit_or_step frame flags)

pub put_entry-same : (frames : ℕ → Words) (t i w : ℕ) → put_entry frames t i w t i ≡ w
unfolding put_entry store
put_entry-same frames t i w = ground arith

pub kept_entry :
    (frames : ℕ → Words) (t i w : ℕ)
    → absent (frames t i) ≡ true
    → (u j : ℕ) → absent (frames u j) ≡ false
    → put_entry frames t i w u j ≡ frames u j
unfolding put_entry store
kept_entry frames t i w free u j p = ground (arith, was)
  where
    was : u ≡ t → i ≡ j → absent (frames u j) ≡ true
    was e e' = rw (e, ← e') free

-- What was translated stays as it was when an entry that was absent is set.
pub walk-put_entry :
    (frames : ℕ → Words) (root t i w b f : ℕ)
    → absent (frames t i) ≡ true
    → walk frames root b ≡ some f
    → walk (put_entry frames t i w) root b ≡ some f
unfolding walk
walk-put_entry frames root t i w b f free e = ground (
  arith,
  e,
  kept_entry frames t i w free root (index 0 b),
  kept_entry frames t i w free (pdpt_frame frames root b) (index 1 b),
  kept_entry frames t i w free (pdt_frame frames root b) (index 2 b),
  kept_entry frames t i w free (pt_frame frames root b) (index 3 b),
)

module _ (s : Machine) (a f : ℕ) (found : walk s.frames s.root a ≡ some f) where
  translate_lem : translate a s ≡ ok f s
  unfolding translate
  translate_lem = rw (translate, found)

  load_lem : load a s ≡ ok (s.frames f (shr a 3 % 2 ^ 9)) s
  unfolding load
  load_lem = rw translate_lem

  write_lem :
      (w : ℕ) → write a w s ≡ ok tt (record s { frames = put_entry s.frames f (shr a 3 % 2 ^ 9) w })
  unfolding write
  write_lem w = rw translate_lem

-- A level whose table the processor's walk finds at frame `t`.
pub record Found (s : Machine) (level a t : ℕ) : Type 0 where
  pub address : (r : Machine) → get_paging_struct_vaddr a level r ≡ ok (table_vaddr level a) r
  pub entry : entry_index level a ≡ index level a
  pub slot : shr (u64 (table_vaddr level a + index level a * 8)) 3 % 2 ^ 9 ≡ index level a
  pub found : walk s.frames s.root (u64 (table_vaddr level a + index level a * 8)) ≡ some t

module _ (s : Machine) (level a t : ℕ) (at_level : Found s level a t) where
  load_entry :
      load (u64 (table_vaddr level a + index level a * 8)) s ≡ ok (s.frames t (index level a)) s
  load_entry =
      load_lem s (u64 (table_vaddr level a + index level a * 8)) t at_level.found
      ∙ rw (at_level.slot)

  write_at_entry :
      (w : ℕ)
      → write (u64 (table_vaddr level a + index level a * 8)) w s
        ≡ ok tt (record s { frames = put_entry s.frames t (index level a) w })
  write_at_entry w =
      write_lem s (u64 (table_vaddr level a + index level a * 8)) t at_level.found w
      ∙ rw (at_level.slot)

  pub ensure_table-present :
      absent (s.frames t (index level a)) ≡ false → ensure_table level a s ≡ ok tt s
  unfolding ensure_table
  ensure_table-present p = rw (at_level.address s, at_level.entry, load_entry, p)

  pub fill_entry-present :
      (frame flags : ℕ)
      → absent (s.frames t (index level a)) ≡ false
      → fill_entry level frame flags a s ≡ panicked
  unfolding fill_entry
  fill_entry-present frame flags p = rw (at_level.address s, at_level.entry, load_entry, p)

  pub fill_entry-absent :
      (frame flags : ℕ)
      → absent (s.frames t (index level a)) ≡ true
      → fill_entry level frame flags a s
        ≡ ok tt (record s { frames = put_entry s.frames t (index level a) (bit_or frame flags) })
  unfolding fill_entry
  fill_entry-absent frame flags p =
      rw (at_level.address s, at_level.entry, load_entry, p, write_at_entry (bit_or frame flags))

module _ (s : Machine) (a : ℕ) (fits : a < 2 ^ 64) (self : SelfMapped s.frames s.root) where
  pub top-Found : Found s 0 a s.root
  top-Found = record {
    address = λ r. vaddr-top a fits r;
    entry = (entry_index_lem a).0;
    slot = at-slot s.frames s.root a (index 0 a) self (omega arith) 0;
    found = walk-top s.frames s.root a (index 0 a) self (omega arith);
  }

  pub pdpt-Found :
      absent (s.frames s.root (index 0 a)) ≡ false → Found s 1 a (pdpt_frame s.frames s.root a)
  pdpt-Found p0 = record {
    address = λ r. vaddr-pdpt a fits r;
    entry = (entry_index_lem a).1;
    slot = at-slot s.frames s.root a (index 1 a) self (omega arith) 1;
    found = walk-pdpt s.frames s.root a (index 1 a) self (omega arith) p0;
  }

  pub pdt-Found :
      Open (s.frames s.root (index 0 a))
      → absent (s.frames (pdpt_frame s.frames s.root a) (index 1 a)) ≡ false
      → Found s 2 a (pdt_frame s.frames s.root a)
  pdt-Found o0 p1 = record {
    address = λ r. vaddr-pdt a fits r;
    entry = (entry_index_lem a).2;
    slot = at-slot s.frames s.root a (index 2 a) self (omega arith) 2;
    found = walk-pdt s.frames s.root a (index 2 a) self (omega arith) o0 p1;
  }

  pub pt-Found :
      Open (s.frames s.root (index 0 a))
      → Open (s.frames (pdpt_frame s.frames s.root a) (index 1 a))
      → absent (s.frames (pdt_frame s.frames s.root a) (index 2 a)) ≡ false
      → Found s 3 a (pt_frame s.frames s.root a)
  pt-Found o0 o1 p2 = record {
    address = λ r. vaddr-pt a fits r;
    entry = (entry_index_lem a).3;
    slot = at-slot s.frames s.root a (index 3 a) self (omega arith) 3;
    found = walk-pt s.frames s.root a (index 3 a) self (omega arith) o0 o1 p2;
  }
