-- ===== src/Interrupt/IoApic.antt =====
-- The I/O APIC in arch/x86_64/interrupt/apic.c: ioapic_write64, ioapic_map_gsi and ioapic_init.
--
-- The driver reaches the device through a page of virtual memory, so an access needs the processor's
-- walk to lead to the device's frame. The device is as its manual describes it: a select register at
-- offset 0 and a window at offset 16 that shows the register selected.
use rtv.Base.{
  ℕ, zero, suc, ◌+◌, ◌-◌, ◌*◌, ◌/◌, ◌%◌, ◌^◌, bit_and, bit_or, ◌||◌, ◌==◌, ltb, leb, if◌then◌else◌,
  List, ◌∷◌, none, some,
}
use rtv.Base.Run.{ok, panicked, faulted, Cmd, pure, ◌>>=◌, ◌>>◌, on_part}
use rtv.Word.{shr}
use rtv.Bits.{Words, store}
use rtv.Physical.Defs.{pg_size}
use rtv.Acpi.Madt.{Acpi, acpi_irq_to_gsi}
use rtv.Vm.Tables.{Machine, walk, vm_map_page_unrestricted}

-- `history` holds the registers as they were before each write through the window, the last one first.
pub record IoApic : Type 0 where
  pub regsel : ℕ
  pub registers : Words
  pub history : List Words

-- The driver's variables, with those of acpi.c, the memory and the writes to the PICs.
pub record Controller : Type 0 where
  pub ioapic : IoApic
  pub num_gsi : ℕ
  pub acpi : Acpi
  pub machine : Machine
  pub ports : List (ℕ × ℕ)

unfoldable pub device_write : (offset word : ℕ) → IoApic → IoApic
device_write offset word d =
    if offset == 0
    then record d { regsel = word % 2 ^ 8 }
    else if offset == 16
    then record d { registers = store d.registers d.regsel word; history = d.registers ∷ d.history }
    else d

unfoldable pub device_read : ℕ → IoApic → ℕ
device_read offset d =
    if offset == 0 then d.regsel else if offset == 16 then d.registers d.regsel else 0

-- A 4-byte access at `ioapic_addr + offset`.
unfoldable pub reach : ℕ → Cmd Controller (Unit {0})
reach offset s = elim (walk s.machine.frames s.machine.root (s.acpi.ioapic_addr + offset)) [
  | none ↦ faulted
  | some f ↦ if f == s.acpi.ioapic_addr / pg_size then ok tt s else faulted
]

unfoldable pub ioapic_write32_raw : (offset word : ℕ) → Cmd Controller (Unit {0})
ioapic_write32_raw offset word = do
  reach offset
  λ s. ok tt (record s { ioapic = device_write offset word s.ioapic })

unfoldable pub ioapic_read32_raw : ℕ → Cmd Controller ℕ
ioapic_read32_raw offset = do reach offset; λ s. ok (device_read offset s.ioapic) s

unfoldable pub ioapic_read32 : ℕ → Cmd Controller ℕ
ioapic_read32 reg = do ioapic_write32_raw 0 reg; ioapic_read32_raw 16

unfoldable pub ioapic_write64 : (reg word : ℕ) → Cmd Controller (Unit {0})
ioapic_write64 reg word = do
  ioapic_write32_raw 0 reg
  ioapic_write32_raw 16 0x10000
  ioapic_write32_raw 0 (reg + 1)
  ioapic_write32_raw 16 (shr word 32 % 2 ^ 32)
  ioapic_write32_raw 0 reg
  ioapic_write32_raw 16 (bit_and word 0xFFFFFFFF)

-- `IOAPIC_REDTBL(n)`, cut to the parameter's `uint8_t`
abbrev pub ioapic_redtbl : ℕ → ℕ
ioapic_redtbl n = (0x10 + 2 * n) % 2 ^ 8

unfoldable pub ioapic_map_gsi : (gsi vector flags : ℕ) → Cmd Controller (Unit {0})
ioapic_map_gsi gsi vector flags = λ s.
    (if ltb gsi s.acpi.gsi_base || leb ((s.acpi.gsi_base + s.num_gsi) % 2 ^ 32) gsi
        then (λ t. panicked)
        else ioapic_write64 (ioapic_redtbl (gsi - s.acpi.gsi_base)) (bit_or flags vector))
      s

unfoldable pub outb : (port val : ℕ) → Cmd Controller (Unit {0})
outb port val s = ok tt (record s { ports = (port, val) ∷ s.ports })

-- PGT_P | PGT_RW | PGT_PCD | PGT_PWT | PGT_XD
abbrev pub device_flags : ℕ
device_flags = 1 + 2 + 16 + 8 + 2 ^ 63

unfoldable pub map_device : ℕ → Cmd Controller (Unit {0})
map_device addr =
    on_part (λ s. s.machine) (λ m s. record s { machine = m })
      (vm_map_page_unrestricted addr device_flags addr)

-- The loop that masks every entry, with `left` entries to go.
unfoldable pub mask_entries : (left i : ℕ) → Cmd Controller (Unit {0})
mask_entries zero i = pure tt
mask_entries (suc left) i = do ioapic_write64 (ioapic_redtbl i) 0x10000; mask_entries left (i + 1)

-- The entry for the timer: physical mode, broadcast, with the polarity and the trigger mode.
unfoldable pub timer_flags : ℕ → ℕ
timer_flags flags =
    let active_low =
      if bit_and flags 2 == 0 then 0xFF00000000000000 else bit_or 0xFF00000000000000 0x2000 in
    if bit_and flags 8 == 0 then active_low else bit_or active_low 0x8000

unfoldable pub irq_to_gsi : ℕ → Cmd Controller (ℕ × ℕ)
irq_to_gsi irq = on_part (λ s. s.acpi) (λ a s. record s { acpi = a }) (acpi_irq_to_gsi irq)

unfoldable pub ioapic_init : Cmd Controller (Unit {0})
ioapic_init = do
  outb 0x21 0xFF
  outb 0xA1 0xFF
  λ s. map_device s.acpi.ioapic_addr s
  version ← ioapic_read32 1
  λ s. ok tt (record s { num_gsi = shr version 16 % 2 ^ 8 + 1 })
  λ s. mask_entries s.num_gsi 0 s
  timer ← irq_to_gsi 0
  ioapic_map_gsi timer.0 0x20 (timer_flags timer.1)
