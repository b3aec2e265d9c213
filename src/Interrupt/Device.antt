-- ===== src/Interrupt/Device.antt =====
-- What the driver's writes do to the device, and when they reach it.
use rtv.Base.{ℕ, ◌+◌, ◌/◌, ◌%◌, ◌^◌, ◌<◌, ◌≡◌, refl, true, ◌==◌, bit_and, arith, some, ◌∷◌, ◌∙◌}
use rtv.Base.Run.{ok}
use rtv.Word.{shr}
use rtv.Word.Laws.{bit_and_mask}
use rtv.Bits.{Words, store}
use rtv.Physical.Defs.{pg_size}
use rtv.Vm.Tables.{walk, index}
use rtv.Interrupt.IoApic.{
  IoApic, Controller, device_write, device_read, reach, ioapic_write32_raw, ioapic_read32_raw,
  ioapic_read32, ioapic_write64,
}

-- Both registers of the device show at their addresses.
abbrev pub IsMapped : Controller → Type 0
IsMapped s =
    (walk s.machine.frames s.machine.root s.acpi.ioapic_addr ≡ some (s.acpi.ioapic_addr / pg_size))
    × (s.acpi.ioapic_addr % pg_size ≡ 0)

-- An address in the same page.
walk-page :
    (frames : ℕ → Words) (root a j : ℕ)
    → a % 4096 ≡ 0
    → j < 4096
    → walk frames root (a + j) ≡ walk frames root a
unfolding walk
walk-page frames root a j aligned lt = rw (i0, i1, i2, i3, page) refl
  where
    i0 : index 0 (a + j) ≡ index 0 a
    i0 = omega arith

    i1 : index 1 (a + j) ≡ index 1 a
    i1 = omega arith

    i2 : index 2 (a + j) ≡ index 2 a
    i2 = omega arith

    i3 : index 3 (a + j) ≡ index 3 a
    i3 = omega arith

    page : shr (a + j) 12 ≡ shr a 12
    page = omega arith

-- The registers while a redirection entry is written, and the device at the end.
abbrev pub masked : (reg : ℕ) → Words → Words
masked reg r = store r reg 0x10000

abbrev pub half_written : (reg word : ℕ) → Words → Words
half_written reg word r = store (masked reg r) (reg + 1) (shr word 32 % 2 ^ 32)

abbrev pub rewritten : (reg word : ℕ) → IoApic → IoApic
rewritten reg word d = record {
  regsel = reg;
  registers = store (half_written reg word d.registers) reg (word % 2 ^ 32);
  history =
      half_written reg word d.registers ∷ (masked reg d.registers ∷ (d.registers ∷ d.history));
}

module _ (s : Controller) (mapped : IsMapped s) where
  reach_lem : (offset : ℕ) → offset < 4096 → reach offset s ≡ ok tt s
  unfolding reach
  reach_lem offset lt = rw (reach, here, same)
    where
      same : (s.acpi.ioapic_addr / pg_size == s.acpi.ioapic_addr / pg_size) ≡ true
      same = ground arith

      here :
          walk s.machine.frames s.machine.root (s.acpi.ioapic_addr + offset)
          ≡ some (s.acpi.ioapic_addr / pg_size)
      here =
          walk-page s.machine.frames s.machine.root s.acpi.ioapic_addr offset mapped.1 lt ∙ mapped.0

  pub write_lem :
      (offset word : ℕ)
      → offset < 4096
      → ioapic_write32_raw offset word s
        ≡ ok tt (record s { ioapic = device_write offset word s.ioapic })
  unfolding ioapic_write32_raw
  write_lem offset word lt = rw (reach_lem offset lt)

  read_lem :
      (offset : ℕ) → offset < 4096 → ioapic_read32_raw offset s ≡ ok (device_read offset s.ioapic) s
  unfolding ioapic_read32_raw
  read_lem offset lt = rw (reach_lem offset lt)

module _ (s : Controller) (mapped : IsMapped s) where
  abbrev with_device : IoApic → Controller
  with_device d = record s { ioapic = d }

  pub ioapic_read32_lem :
      (reg : ℕ)
      → ioapic_read32 reg s
        ≡ ok
            (s.ioapic.registers (reg % 2 ^ 8))
            (with_device (record s.ioapic { regsel = reg % 2 ^ 8 }))
  unfolding ioapic_read32 device_write device_read
  ioapic_read32_lem reg = rw (
    write_lem s mapped 0 reg (omega arith),
    read_lem (with_device (record s.ioapic { regsel = reg % 2 ^ 8 })) mapped 16 (omega arith),
  )

  -- The device after a select and a write through the window.
  abbrev stepped : (reg word : ℕ) → IoApic → IoApic
  stepped reg word d = device_write 16 word (device_write 0 reg d)

  steps :
      (reg word : ℕ)
      → ioapic_write64 reg word s
        ≡ ok tt (
            with_device (
              stepped reg
                (bit_and word 0xFFFFFFFF)
                (stepped (reg + 1) (shr word 32 % 2 ^ 32) (stepped reg 0x10000 s.ioapic))))
  unfolding ioapic_write64
  steps reg word =
      let d1 = device_write 0 reg s.ioapic in
      let d2 = device_write 16 0x10000 d1 in
      let d3 = device_write 0 (reg + 1) d2 in
      let d4 = device_write 16 (shr word 32 % 2 ^ 32) d3 in
      let d5 = device_write 0 reg d4 in
      rw
        (
          write_lem s mapped 0 reg (omega arith),
          write_lem (with_device d1) mapped 16 0x10000 (omega arith),
          write_lem (with_device d2) mapped 0 (reg + 1) (omega arith),
          write_lem (with_device d3) mapped 16 (shr word 32 % 2 ^ 32) (omega arith),
          write_lem (with_device d4) mapped 0 reg (omega arith),
          write_lem (with_device d5) mapped 16 (bit_and word 0xFFFFFFFF) (omega arith),
        )
        refl

  -- The device behind the six writes of a redirection entry.
  pub ioapic_write64_lem :
      (reg word : ℕ)
      → reg + 1 < 2 ^ 8
      → ioapic_write64 reg word s ≡ ok tt (with_device (rewritten reg word s.ioapic))
  ioapic_write64_lem reg word fits =
      steps reg word ∙ unfold device_write in rw (low, high, half) refl
    where
      low : reg % 2 ^ 8 ≡ reg
      low = omega arith

      high : (reg + 1) % 2 ^ 8 ≡ reg + 1
      high = omega arith

      half : bit_and word 0xFFFFFFFF ≡ word % 2 ^ 32
      half = bit_and_mask 32 word
