-- ===== src/Tests/Tables.antt =====
-- The MADT.
use rtv.Base.{ℕ, ◌+◌, ◌≤◌, ◌≡◌, refl, arith, ◌==◌, if◌then◌else◌, [], ◌∷◌, List}
use rtv.Base.Run.{ok}
use rtv.Acpi.Madt.{Acpi, Memory, acpi_parse_apic, acpi_irq_to_gsi}
use rtv.Acpi.Layout.{
  Structure, source_override, bytes, four_bytes, two_bytes, IsSound, Written, no_more, one_more,
  override_for, other_processors, io_apics, last_io_apic, source_overrides, AllOnIsa,
}
use rtv.Acpi.Parse.{acpi_irq_to_gsi-acpi_parse_apic}

-- A table at address 0 of 54 bytes: its header, and an override of interrupt 0 by interrupt 2.
abbrev table : Memory
table p =
    if p == 4
    then 54
    else if p == 44
    then 2
    else if p == 45
    then 10
    else if p == 48
    then 2
    else if p == 52
    then 5
    else 0

abbrev fresh : Acpi
fresh = record {
  g_cpus = 1;
  irq_map = λ _. record { irq = 0; flags = 0; gsi = 0 };
  num_overrides = 0;
  num_ioapic = 0;
  lapic_ids = λ _. 0;
  lapic_addr = 0xFEE00000;
  ioapic_addr = 0xFEC00000;
  gsi_base = 0;
  lapic_phys_ids = λ _. 0;
  pcpu_id = 0;
}

abbrev structures : List Structure
structures = source_override 0 0 2 5 ∷ []

structures-Written : Written table 54 44 structures
unfolding bytes four_bytes two_bytes IsSound
structures-Written =
    one_more 44 (source_override 0 0 2 5) [] (omega arith) (omega arith, omega arith)
      (refl, (refl, (refl, (refl, (refl, (refl, (refl, (refl, (refl, (refl, tt))))))))))
      (no_more 54 (omega arith))

timer : override_for structures 0 (0, 0) ≡ (2, 5)
unfolding override_for
timer = refl

structures-AllOnIsa : AllOnIsa structures
unfolding AllOnIsa
structures-AllOnIsa = (refl, tt)

processors_fit : 1 + other_processors 0 structures ≤ 16
unfolding other_processors
processors_fit = omega arith

io_apics_fit : 0 + io_apics structures ≤ 1
unfolding io_apics
io_apics_fit = omega arith

overrides_fit : source_overrides structures ≤ 32
unfolding source_overrides
overrides_fit = omega arith

acpi_irq_to_gsi-acpi_parse_apic_example :
    (s' : Acpi) × (acpi_parse_apic table 0 fresh ≡ ok tt s')
    × (s'.g_cpus ≡ 1 + other_processors 0 structures)
    × ((s'.ioapic_addr, s'.gsi_base) ≡ last_io_apic structures (0xFEC00000, 0))
    × ((irq : ℕ) → acpi_irq_to_gsi irq s' ≡ ok (override_for structures irq (irq, 0)) s')
acpi_irq_to_gsi-acpi_parse_apic_example =
    acpi_irq_to_gsi-acpi_parse_apic table 0 structures fresh structures-Written refl
      structures-AllOnIsa processors_fit io_apics_fit overrides_fit
