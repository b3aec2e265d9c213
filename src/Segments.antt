-- ===== src/Segments.antt =====
-- arch/x86_64/cpu/mmu.c: the descriptors of task-state segments in the GDT, with the layouts of
-- arch/x86_64/include/cpu.h. A descriptor of such a segment takes two entries of 8 bytes.
pub mod Tss
use rtv.Base.{
  ℕ, zero, suc, ◌+◌, ◌-◌, ◌*◌, ◌/◌, ◌%◌, ◌^◌, bit_or, Bool, not, ◌&&◌, ◌==◌, ltb, if◌then◌else◌,
}
use rtv.Base.Run.{ok, panicked, faulted, Cmd, pure, ◌>>=◌, ◌>>◌, on_part}
use rtv.Word.{shr, shl64}
use rtv.Bits.{Words, store}
use rtv.Spinlock.{Spinlock, spin_lock, spin_unlock}

abbrev pub gdt_entry_nr : ℕ
gdt_entry_nr = 512

abbrev pub gdt_start : ℕ
gdt_start = 3

-- sizeof(tss_t)
abbrev pub tss_size : ℕ
tss_size = 104

pub record TssDesc : Type 0 where
  pub limit0 : ℕ
  pub base0 : ℕ
  pub type_ : ℕ
  pub zero0 : ℕ
  pub dpl : ℕ
  pub p : ℕ
  pub limit1 : ℕ
  pub avl : ℕ
  pub zero1 : ℕ
  pub g : ℕ
  pub base1 : ℕ
  pub reserved0 : ℕ

-- The first 8 bytes of the bit fields, and the second.
unfoldable pub low_word : TssDesc → ℕ
low_word d =
    d.limit0
    + d.base0 * 2 ^ 16
    + d.type_ * 2 ^ 40
    + d.zero0 * 2 ^ 44
    + d.dpl * 2 ^ 45
    + d.p * 2 ^ 47
    + d.limit1 * 2 ^ 48
    + d.avl * 2 ^ 52
    + d.zero1 * 2 ^ 53
    + d.g * 2 ^ 55
    + d.base1 % 2 ^ 8 * 2 ^ 56

unfoldable pub high_word : TssDesc → ℕ
high_word d = d.base1 / 2 ^ 8 + d.reserved0 * 2 ^ 32

pub record Gdt : Type 0 where
  pub gdt : Words
  pub gdt_lock : Spinlock

unfoldable pub lock_gdt : Cmd Gdt (Unit {0})
lock_gdt = on_part (λ s. s.gdt_lock) (λ l s. record s { gdt_lock = l }) spin_lock

unfoldable pub unlock_gdt : Cmd Gdt (Unit {0})
unlock_gdt = on_part (λ s. s.gdt_lock) (λ l s. record s { gdt_lock = l }) spin_unlock

-- The field `p` of a `seg_desc`.
unfoldable pub present : ℕ → Bool
present w = shr w 47 % 2 == 1

-- `gdt_ptr[i + 1].p = 1`
unfoldable pub mark_present : ℕ → ℕ
mark_present w = if present w then w else w + 2 ^ 47

-- The fields that alloc_tss_desc assigns, all of the descriptor's.
unfoldable pub tss_desc : ℕ → TssDesc
tss_desc base =
    let limit = tss_size - 1 in
    record {
      limit0 = limit % 2 ^ 16;
      base0 = base % 2 ^ 24;
      type_ = 9;
      zero0 = 0;
      dpl = 0;
      p = 1;
      limit1 = shr limit 16 % 2 ^ 4;
      avl = 0;
      zero1 = 0;
      g = 0;
      base1 = shr base 24;
      reserved0 = 0;
    }

-- The loop of alloc_tss_desc at entry `i`, with `left` entries to go.
unfoldable pub place_tss_desc : (left i tss_p : ℕ) → Cmd Gdt ℕ
place_tss_desc zero i tss_p = do unlock_gdt; λ s. panicked
place_tss_desc (suc left) i tss_p = λ s.
    (if not (present (s.gdt i)) && not (present (s.gdt (i + 1)))
        then (do
          λ s. ok tt (record s {
            gdt =
                store (store s.gdt i (low_word (tss_desc tss_p))) (i + 1)
                  (mark_present (high_word (tss_desc tss_p)));
          })
          unlock_gdt
          pure (i * 2 ^ 3 % 2 ^ 16))
        else place_tss_desc left (i + 1) tss_p)
      s

unfoldable pub alloc_tss_desc : ℕ → Cmd Gdt ℕ
alloc_tss_desc tss_p = do lock_gdt; place_tss_desc (gdt_entry_nr - 1 - gdt_start) gdt_start tss_p

unfoldable pub get_gdt_tss_base : ℕ → Cmd Gdt ℕ
get_gdt_tss_base sel s =
    let i = shr sel 3 in
    let base0 = shr (s.gdt i) 16 % 2 ^ 24 in
    let base1 = shr (s.gdt i) 56 + s.gdt (i + 1) % 2 ^ 32 * 2 ^ 8 in
    if ltb (i + 1) gdt_entry_nr then ok (bit_or (shl64 base1 24) base0) s else faulted
