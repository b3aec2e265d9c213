-- ===== src/Interrupt/LocalApic.antt =====
-- The local APIC in arch/x86_64/interrupt/apic.c: lapic_get_phys_id, lapic_eoi and lapic_send_ipi. A
-- write goes to a register by its offset; `history` holds the writes, the last one first, each with
-- the processor's interrupt flag at that time.
use rtv.Base.{ℕ, ◌*◌, ◌%◌, ◌^◌, bit_and, Bool, false, ltb, if◌then◌else◌, List, ◌∷◌}
use rtv.Base.Run.{ok, faulted, Cmd, ◌>>=◌, ◌>>◌}
use rtv.Word.{shr}
use rtv.Bits.{Words, store}
use rtv.Acpi.Madt.{max_cpus}

pub record LocalApic : Type 0 where
  pub registers : Words
  pub history : List (ℕ × (ℕ × Bool))
  pub enabled : Bool
  pub lapic_phys_ids : Words

unfoldable pub lapic_write32 : (offset word : ℕ) → Cmd LocalApic (Unit {0})
lapic_write32 offset word s = ok tt (record s {
  registers = store s.registers offset word;
  history = (offset, (word, s.enabled)) ∷ s.history;
})

unfoldable pub lapic_read32 : ℕ → Cmd LocalApic ℕ
lapic_read32 offset s = ok (s.registers offset) s

unfoldable pub lapic_get_phys_id_raw : Cmd LocalApic ℕ
lapic_get_phys_id_raw = do id ← lapic_read32 0x20; λ s. ok (bit_and (shr id 24) 0xF % 2 ^ 8) s

unfoldable pub lapic_get_phys_id : ℕ → Cmd LocalApic ℕ
lapic_get_phys_id cpu s = if ltb cpu max_cpus then ok (s.lapic_phys_ids cpu) s else faulted

unfoldable pub lapic_eoi : Cmd LocalApic (Unit {0})
lapic_eoi = lapic_write32 0xB0 0

-- `pushfq; cli; popq`, and `pushq; popfq`, for the interrupt flag.
unfoldable pub interrupt_disable_save : Cmd LocalApic Bool
interrupt_disable_save s = ok s.enabled (record s { enabled = false })

unfoldable pub interrupt_enable_restore : Bool → Cmd LocalApic (Unit {0})
interrupt_enable_restore flag s = ok tt (record s { enabled = flag })

unfoldable pub lapic_send_ipi : (dest vector : ℕ) → Cmd LocalApic (Unit {0})
lapic_send_ipi dest vector = do
  flag ← interrupt_disable_save
  lapic_write32 0x310 (dest * 2 ^ 24 % 2 ^ 32)
  lapic_write32 0x300 vector
  interrupt_enable_restore flag
