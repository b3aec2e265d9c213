-- ===== src/Tests/Machines.antt =====
-- The I/O APIC and the barrier of the processors.
use rtv.Base.{
  ℕ, Option, none, some, sym, ap, ◌∙◌, ◌+◌, ◌-◌, ◌≤◌, ◌<◌, ◌≡◌, ◌⊎◌, refl, ◌&&◌, ◌==◌, bit_or,
  if◌then◌else◌, [], arith,
}
use rtv.Base.Run.{Run, ok, panicked, faulted, spinning, out_of_fuel}
use rtv.Spinlock.{spin_lock, spin_unlock}
use rtv.Bits.{store, clear_bit64}
use rtv.Physical.Defs.{
  alloc_phys_frame, acquire, release, first_frame, read_word, clear_word_bit, lowest_bit,
  count_shifts,
}
use rtv.Acpi.Madt.{Acpi}
use rtv.Vm.Defs.{absent, put_entry, get_paging_struct_vaddr}
use rtv.Vm.Tables.{
  Machine, walk, translate, load, write, lock_tables, unlock_tables, alloc_table, entry_index,
  ensure_table, fill_entry, vm_map_page_unrestricted,
}
use rtv.Interrupt.IoApic.{Controller, ioapic_map_gsi, ioapic_init}
use rtv.Interrupt.Device.{IsMapped}
use rtv.Interrupt.Redirection.{Redirected, ioapic_map_gsi-Redirected}
use rtv.Interrupt.Initial.{mapping, IsPrepared, Follows, ioapic_init-Initialised}
use rtv.Acpi.Overrides.{search}
use rtv.Smp.{
  Barrier, arriving, waiting_all, configuring, put_phase, arrive, all_here, Reach, here, next,
  start,
}
use rtv.Smp.Ordered.{IsOrdered, Reach-IsOrdered}
use rtv.Smp.Deadlock.{IsStuck, start-IsStuck}

-- The timer comes in at interrupt 2, active low.
abbrev tables : Acpi
tables = record {
  g_cpus = 1;
  irq_map = λ i. record { irq = 0; flags = 2; gsi = 2 };
  num_overrides = 1;
  num_ioapic = 1;
  lapic_ids = λ i. 0;
  lapic_addr = 0xFEE00000;
  ioapic_addr = 0xFEC00000;
  gsi_base = 0;
  lapic_phys_ids = λ i. 0;
  pcpu_id = 0;
}

-- The top table and the one below it, in the frames 1 and 2, as at boot: they lead to the first GB and
-- to the tables themselves. The frames 256 and 257 are free, for the two tables that are missing.
abbrev without_device : Machine
without_device = record {
  frames = λ f i.
      if f == 1 && i == 511
      then 0x1003
      else if f == 1 && i == 0
      then 0x2003
      else if f == 2 && i == 0
      then 0x3003
      else 0;
  root = 1;
  pg_lock = record { next = 0; owner = 0 };
  phys = record {
    mm_table = λ i. if i == 4 then 3 else 0;
    mm_limit = 512;
    entry_end = 8;
    phy_lock = record { next = 0; owner = 0 };
  };
}

abbrev at_boot : Controller
at_boot = record {
  ioapic = record { regsel = 0; registers = λ r. if r == 1 then 0x170011 else 0; history = [] };
  num_gsi = 0;
  acpi = tables;
  machine = without_device;
  ports = [];
}

-- The walk of the device's address after the mapping.
abbrev device_frame : Run Machine (Unit {0}) → Option ℕ
device_frame (ok _ m) = walk m.frames m.root 0xFEC00000
device_frame panicked = none
device_frame faulted = none
device_frame spinning = none
device_frame out_of_fuel = none

at_boot-mapping : device_frame (mapping at_boot) ≡ some 0xFEC00
unfolding vm_map_page_unrestricted lock_tables unlock_tables spin_lock spin_unlock ensure_table
    fill_entry alloc_table load write translate walk entry_index get_paging_struct_vaddr absent
    put_entry alloc_phys_frame acquire release first_frame read_word clear_word_bit lowest_bit
    count_shifts clear_bit64 store
at_boot-mapping = refl

at_boot-IsPrepared : IsPrepared at_boot
unfolding search
at_boot-IsPrepared = record {
  shows = λ m e. ap device_frame (sym e) ∙ at_boot-mapping;
  aligned = refl;
  overrides = omega arith;
  few = omega arith;
  small = omega arith;
  from = omega arith;
  below = omega arith;
}

ioapic_init-Initialised_example : Follows at_boot (mapping at_boot) (ioapic_init at_boot)
ioapic_init-Initialised_example = ioapic_init-Initialised at_boot at_boot-IsPrepared

-- The device shows, with 24 entries.
abbrev with_device : Controller
with_device = record at_boot {
  num_gsi = 24;
  machine = record without_device {
    frames = λ f i.
        if f == 2 && i == 3
        then 0x4003
        else if f == 4 && i == 502
        then 0x5003
        else if f == 5 && i == 0
        then 0xFEC00003
        else without_device.frames f i;
  };
}

with_device-IsMapped : IsMapped with_device
unfolding walk absent
with_device-IsMapped = (refl, refl)

ioapic_map_gsi-Redirected_example :
    ((with_device.acpi.gsi_base ≤ 5)
      × (5 < with_device.acpi.gsi_base + with_device.num_gsi)
      × Redirected with_device
          (5 - with_device.acpi.gsi_base)
          (bit_or 0x2000 0x31)
          (ioapic_map_gsi 5 0x31 0x2000 with_device))
    ⊎ (((5 < with_device.acpi.gsi_base) ⊎ (with_device.acpi.gsi_base + with_device.num_gsi ≤ 5))
        × (ioapic_map_gsi 5 0x31 0x2000 with_device ≡ panicked))
ioapic_map_gsi-Redirected_example =
    ioapic_map_gsi-Redirected with_device with_device-IsMapped 5 0x31 0x2000 (omega arith)
      (omega arith)

-- One processor of one, in the first wait and in mtrr_config.
abbrev arrived_one : Barrier
arrived_one = record { mtrr_sync = 1; phase = put_phase (λ i. arriving) 0 waiting_all }

abbrev passed_one : Barrier
passed_one = record { mtrr_sync = 1; phase = put_phase arrived_one.phase 0 configuring }

one-Reach : Reach 1 start passed_one
unfolding start put_phase
one-Reach = next (next here (arrive 0 (omega arith) refl)) (all_here 0 (omega arith) refl refl)

Reach-IsOrdered_example : IsOrdered 1 passed_one
Reach-IsOrdered_example = Reach-IsOrdered 1 (omega arith) one-Reach

start-IsStuck_example : (s : Barrier) × Reach 4 start s × IsStuck 4 s
start-IsStuck_example = start-IsStuck 4 (omega arith) (omega arith)
