-- ===== src/Tests/Vectors.antt =====
-- Interrupt vectors and messages between processors.
use rtv.Base.{ℕ, ◌≤◌, ◌<◌, ◌≡◌, refl, true, false, [], ◌∷◌, none, some, arith}
use rtv.Base.Run.{ok}
use rtv.Bits.{store}
use rtv.Interrupt.Gates.{Interrupts, interrupt_init}
use rtv.Interrupt.Dispatch.{dispatch, first_vector, interrupt_init-dispatch}
use rtv.Interrupt.LocalApic.{
  LocalApic, lapic_send_ipi, lapic_write32, lapic_read32, lapic_get_phys_id_raw,
  interrupt_disable_save, interrupt_enable_restore,
}

abbrev at_reset : Interrupts
at_reset = record {
  idt = λ v. 0;
  idtr = record { limit = 0; base = 0 };
  loaded = record { limit = 0; base = 0 };
  ports = [];
}

interrupt_init-dispatch_example :
    (s' : Interrupts) × (interrupt_init (λ v. 0x200000) 0x3000 at_reset ≡ ok tt s')
    × ((v : ℕ) → v < 256 → dispatch 0x3000 s' v ≡ some (8, 0x200000))
    × ((v : ℕ) → 256 ≤ v → dispatch 0x3000 s' v ≡ none)
    × (first_vector 0x20 0x21 none s'.ports ≡ some 0x20)
    × (first_vector 0xA0 0xA1 none s'.ports ≡ some 0x28)
interrupt_init-dispatch_example =
    interrupt_init-dispatch (λ v. 0x200000) 0x3000 at_reset (λ v. omega arith)

-- The local APIC of processor 3, which runs with interrupts on.
abbrev idle : LocalApic
idle = record {
  registers = store (λ r. 0) 0x20 0x3000000;
  history = [];
  enabled = true;
  lapic_phys_ids = λ cpu. 0;
}

-- Both writes of a message are made with interrupts off.
lapic_send_ipi-idle :
    (s : LocalApic) × (lapic_send_ipi 5 0x4500 idle ≡ ok tt s)
    × (s.history ≡ (0x300, (0x4500, false)) ∷ (0x310, (0x5000000, false)) ∷ [])
    × (s.enabled ≡ true)
unfolding lapic_send_ipi lapic_write32 interrupt_disable_save interrupt_enable_restore
lapic_send_ipi-idle = (_, refl, refl, refl)

lapic_get_phys_id_raw-idle : lapic_get_phys_id_raw idle ≡ ok 3 idle
unfolding lapic_get_phys_id_raw lapic_read32 store
lapic_get_phys_id_raw-idle = refl
