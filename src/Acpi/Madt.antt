-- ===== src/Acpi/Madt.antt =====
-- kernel/acpi.c: acpi_add_cpu, acpi_parse_apic and acpi_irq_to_gsi, with the table layouts of
-- include/acpi.h. The memory that the table lies in is a function from an address to its byte.
use rtv.Base.{
  ℕ, zero, suc, ◌+◌, ◌*◌, ◌%◌, ◌^◌, bit_and, Bool, true, false, not, ◌==◌, ltb, if◌then◌else◌,
}
use rtv.Base.Run.{ok, panicked, faulted, out_of_fuel, Cmd, pure, ◌>>=◌, ◌>>◌}
use rtv.Bits.{Words, store}

-- MAX_CPUS of default_config.mk
abbrev pub max_cpus : ℕ
max_cpus = 16

abbrev pub max_irq_overrides : ℕ
max_irq_overrides = 32

pub record Override : Type 0 where
  pub irq : ℕ
  pub flags : ℕ
  pub gsi : ℕ

-- The variables of acpi.c and apic.c that the table sets, and the processor that runs.
pub record Acpi : Type 0 where
  pub g_cpus : ℕ
  pub irq_map : ℕ → Override
  pub num_overrides : ℕ
  pub num_ioapic : ℕ
  pub lapic_ids : Words
  pub lapic_addr : ℕ
  pub ioapic_addr : ℕ
  pub gsi_base : ℕ
  pub lapic_phys_ids : Words
  pub pcpu_id : ℕ

abbrev pub Memory : Type 0
Memory = ℕ → ℕ

abbrev pub u16_at : Memory → ℕ → ℕ
u16_at mem p = mem p + mem (p + 1) * 2 ^ 8

abbrev pub u32_at : Memory → ℕ → ℕ
u32_at mem p = u16_at mem p + u16_at mem (p + 2) * 2 ^ 16

unfoldable pub acpi_add_cpu : (apic_id flags : ℕ) → Cmd Acpi Bool
acpi_add_cpu apic_id flags s =
    if bit_and flags 1 == 0
    then ok true s
    else if apic_id == s.lapic_phys_ids s.pcpu_id
    then ok false s
    else if not (ltb s.g_cpus max_cpus)
    then faulted
    else if ltb max_cpus ((s.g_cpus + 1) % 2 ^ 16)
    then panicked
    else ok true (record s {
      lapic_ids = store s.lapic_ids s.g_cpus apic_id;
      g_cpus = (s.g_cpus + 1) % 2 ^ 16;
    })

-- A structure of the table, by its type.
pub data Entry : Type 0 where
  lapic : (apic_id flags : ℕ) → Entry
  ioapic : (address gsi_base : ℕ) → Entry
  interrupt_override : (bus irq gsi flags : ℕ) → Entry
  unsupported : Entry

unfoldable pub entry_at : Memory → ℕ → Entry
entry_at mem p =
    if mem p == 0
    then lapic (mem (p + 3)) (u32_at mem (p + 4))
    else if mem p == 1
    then ioapic (u32_at mem (p + 4)) (u32_at mem (p + 8))
    else if mem p == 2
    then interrupt_override (mem (p + 2)) (mem (p + 3)) (u32_at mem (p + 4)) (u16_at mem (p + 8))
    else unsupported

unfoldable pub put_override : (ℕ → Override) → ℕ → Override → ℕ → Override
put_override map n o j = if n == j then o else map j

-- The body of the loop of acpi_parse_apic.
unfoldable pub handle : Entry → Cmd Acpi (Unit {0})
handle (lapic apic_id flags) = do acpi_add_cpu apic_id flags; pure tt
handle (ioapic address gsi_base) = λ s.
    if ltb 1 ((s.num_ioapic + 1) % 2 ^ 16)
    then panicked
    else ok tt (record s {
      ioapic_addr = address;
      gsi_base = gsi_base;
      num_ioapic = (s.num_ioapic + 1) % 2 ^ 16;
    })
handle (interrupt_override bus irq gsi flags) = λ s.
    if not (bus == 0)
    then panicked
    else if not (ltb s.num_overrides max_irq_overrides)
    then faulted
    else if ltb max_irq_overrides ((s.num_overrides + 1) % 2 ^ 8)
    then panicked
    else ok tt (record s {
      irq_map =
          put_override s.irq_map s.num_overrides (record { irq = irq; flags = flags; gsi = gsi });
      num_overrides = (s.num_overrides + 1) % 2 ^ 8;
    })
handle unsupported = pure tt

-- The loop over `[p, fin)`. A structure of length 0 keeps it where it is.
unfoldable pub parse_entries : Memory → (fuel p fin : ℕ) → Cmd Acpi (Unit {0})
parse_entries mem zero p fin = λ s. if ltb p fin then out_of_fuel else ok tt s
parse_entries mem (suc fuel) p fin = λ s.
    (if ltb p fin
        then (do handle (entry_at mem p); parse_entries mem fuel (p + mem (p + 1)) fin)
        else pure tt)
      s

-- The table begins with a header of 36 bytes, whose length stands at byte 4, and two words.
unfoldable pub acpi_parse_apic : Memory → ℕ → Cmd Acpi (Unit {0})
acpi_parse_apic mem madt = do
  λ s. ok tt (record s { lapic_addr = u32_at mem (madt + 36) })
  parse_entries mem (u32_at mem (madt + 4)) (madt + 44) (madt + u32_at mem (madt + 4))

unfoldable pub read_override : ℕ → Cmd Acpi Override
read_override i s = if ltb i max_irq_overrides then ok (s.irq_map i) s else faulted

-- The loop of acpi_irq_to_gsi, with `left` overrides to go: the result and what it stores in `*flags`.
unfoldable pub find_override : (left i irq : ℕ) → Cmd Acpi (ℕ × ℕ)
find_override zero i irq = pure (irq, 0)
find_override (suc left) i irq = do
  o ← read_override i
  if o.irq == irq then pure (o.gsi, o.flags) else find_override left (i + 1) irq

unfoldable pub acpi_irq_to_gsi : ℕ → Cmd Acpi (ℕ × ℕ)
acpi_irq_to_gsi irq s = find_override s.num_overrides 0 irq s
