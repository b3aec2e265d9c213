-- ===== src/Interrupt/Initial.antt =====
-- ioapic_init: the mapping of the device, the overrides of the ACPI table and the redirection entries
-- together.
use rtv.Base.{
  ℕ, ◌+◌, ◌-◌, ◌*◌, ◌/◌, ◌%◌, ◌^◌, ◌≤◌, ◌<◌, ◌≡◌, ◌≢◌, ◌⊎◌, ◌∙◌, ap, inl, inr, refl, bit_and,
  bit_or, List, ◌∷◌, arith, some,
}
use rtv.Base.Run.{Run, ok, panicked, faulted, spinning, out_of_fuel, on_part, on_part-ok}
use rtv.Word.{shr}
use rtv.Word.Step.{bit_and_step}
use rtv.Word.Laws.{bit_and_mask}
use rtv.Physical.Defs.{pg_size}
use rtv.Acpi.Madt.{acpi_irq_to_gsi, max_irq_overrides}
use rtv.Acpi.Overrides.{search}
use rtv.Acpi.Parse.{find_override_lem}
use rtv.Vm.Tables.{Machine, walk, vm_map_page_unrestricted}
use rtv.Interrupt.IoApic.{
  Controller, outb, device_flags, map_device, timer_flags, irq_to_gsi, ioapic_init,
}
use rtv.Interrupt.Device.{IsMapped, ioapic_read32_lem}
use rtv.Interrupt.Redirection.{entry_of, mask_entries-Masked, ioapic_map_gsi-Redirected}

-- The number of entries that the device reports, and the interrupt of the timer with its flags.
abbrev pub entry_count : Controller → ℕ
entry_count s = shr (s.ioapic.registers 1) 16 % 2 ^ 8 + 1

abbrev pub timer : Controller → ℕ × ℕ
timer s = search s.acpi.irq_map s.acpi.num_overrides 0 0 (0, 0)

-- The mapping of the device's page, with the upper tables that are missing allocated.
abbrev pub mapping : Controller → Run Machine (Unit {0})
mapping s = vm_map_page_unrestricted s.acpi.ioapic_addr device_flags s.acpi.ioapic_addr s.machine

-- A mapping that ends normally makes the processor's walk of the address lead to the device; the
-- address begins a page, the table of overrides is in order, and the timer's interrupt is one of the
-- device's.
pub record IsPrepared (s : Controller) : Type 0 where
  pub shows :
      (m : Machine)
      → mapping s ≡ ok tt m
      → walk m.frames m.root s.acpi.ioapic_addr ≡ some (s.acpi.ioapic_addr / pg_size)
  pub aligned : s.acpi.ioapic_addr % pg_size ≡ 0
  pub overrides : s.acpi.num_overrides ≤ max_irq_overrides
  pub few : entry_count s ≤ 120
  pub small : s.acpi.gsi_base + entry_count s < 2 ^ 32
  pub from : s.acpi.gsi_base ≤ (timer s).0
  pub below : (timer s).0 < s.acpi.gsi_base + entry_count s

-- A redirection entry for an interrupt in physical mode to all processors: the vector in the digits
-- from 0 on, the polarity in digit 13, active low where digit 1 of the flags is set, the trigger mode
-- in digit 15, level where digit 3 is set, and the destination 0xFF from digit 56 on. The delivery mode
-- in digits 8 to 10 is 0, and so is the mask, digit 16.
abbrev pub broadcast : (vector flags : ℕ) → ℕ
broadcast vector flags = vector + flags / 2 % 2 * 2 ^ 13 + flags / 8 % 2 * 2 ^ 15 + 0xFF * 2 ^ 56

-- The entry of the timer is on vector 0x20, every other entry is masked, both PICs are off, and the
-- memory is that which the mapping left.
pub record Initialised (s : Controller) (m : Machine) (r : Run Controller (Unit {0})) : Type 0 where
  pub state : Controller
  pub returns : r ≡ ok tt state
  pub machine : state.machine ≡ m
  pub pics : state.ports ≡ (0xA1, 0xFF) ∷ ((0x21, 0xFF) ∷ s.ports)
  pub entries : state.num_gsi ≡ entry_count s
  pub timer_entry :
      entry_of state.ioapic.registers ((timer s).0 - s.acpi.gsi_base) ≡ broadcast 0x20 (timer s).1
  pub other_entries :
      (n : ℕ)
      → n < entry_count s
      → ◌≢◌ {A = ℕ} n ((timer s).0 - s.acpi.gsi_base)
      → entry_of state.ioapic.registers n ≡ 0x10000

-- What comes of ioapic_init, by what came of the mapping.
pub data Follows (s : Controller)
    : Run Machine (Unit {0}) → Run Controller (Unit {0}) → Type 0 where
  initialised :
      (m : Machine) (r : Run Controller (Unit {0})) → Initialised s m r → Follows s (ok tt m) r
  panics : Follows s panicked panicked
  faults : Follows s faulted faulted
  waits : Follows s spinning spinning
  runs_out : Follows s out_of_fuel out_of_fuel

-- The digits of the flags that are tested.
bit_and_2 : (f : ℕ) → bit_and f 2 ≡ f / 2 % 2 * 2
bit_and_2 f = omega (arith, bit_and_step f 2, bit_and_step (f / 2) 1, bit_and_mask 1 (f / 2))

bit_and_8 : (f : ℕ) → bit_and f 8 ≡ f / 8 % 2 * 8
bit_and_8 f = omega (
  arith,
  bit_and_step f 8,
  bit_and_step (f / 2) 4,
  bit_and_step (f / 2 / 2) 2,
  bit_and_mask 1 (f / 2 / 2 / 2),
)

digit-cases : (n : ℕ) → (n % 2 ≡ 0) ⊎ (n % 2 ≡ 1)
digit-cases n = ground arith

timer_flags_lem : (f : ℕ) → bit_or (timer_flags f) 0x20 % 2 ^ 64 ≡ broadcast 0x20 f
unfolding timer_flags
timer_flags_lem f = elim (digit-cases (f / 2)) [
  | inl a ↦ elim (digit-cases (f / 8)) [
    | inl b ↦ rw (bit_and_2 f, bit_and_8 f, a, b) refl
    | inr b ↦ rw (bit_and_2 f, bit_and_8 f, a, b) refl
  ]
  | inr a ↦ elim (digit-cases (f / 8)) [
    | inl b ↦ rw (bit_and_2 f, bit_and_8 f, a, b) refl
    | inr b ↦ rw (bit_and_2 f, bit_and_8 f, a, b) refl
  ]
]

-- A run on the memory alone, for the driver.
abbrev with_memory : Controller → Run Machine (Unit {0}) → Run Controller (Unit {0})
with_memory s (ok _ m) = ok tt (record s { machine = m })
with_memory s panicked = panicked
with_memory s faulted = faulted
with_memory s spinning = spinning
with_memory s out_of_fuel = out_of_fuel

map_device_lem :
    (s : Controller) (o : Run Machine (Unit {0}))
    → mapping s ≡ o
    → (ports : List (ℕ × ℕ))
    → map_device s.acpi.ioapic_addr (record s { ports = ports })
      ≡ with_memory (record s { ports = ports }) o
unfolding map_device
map_device_lem s o e ports = unfolded (mapping s) ∙ ap (with_memory (record s { ports = ports })) e
  where
    unfolded :
        (r : Run Machine (Unit {0}))
        → on_part
            (λ t. t.machine)
            (λ m t. record t { machine = m })
            (λ _. r)
            (record s { ports = ports })
          ≡ with_memory (record s { ports = ports }) r
    unfolded (ok _ m) = refl
    unfolded panicked = refl
    unfolded faulted = refl
    unfolded spinning = refl
    unfolded out_of_fuel = refl

irq_to_gsi_lem :
    (s : Controller) → s.acpi.num_overrides ≤ max_irq_overrides → irq_to_gsi 0 s ≡ ok (timer s) s
irq_to_gsi_lem s few =
    unfold irq_to_gsi in
    on_part-ok (λ t. t.acpi) (λ a t. record t { acpi = a }) (acpi_irq_to_gsi 0) s (timer s) s.acpi
      found
  where
    found : acpi_irq_to_gsi 0 s.acpi ≡ ok (timer s) s.acpi
    found =
        unfold acpi_irq_to_gsi in find_override_lem s.acpi s.acpi.num_overrides 0 0 (omega arith)

after-mapping :
    (s : Controller) (m : Machine)
    → IsPrepared s
    → mapping s ≡ ok tt m
    → Initialised s m (ioapic_init s)
unfolding ioapic_init outb
after-mapping s m prepared maps =
    let few = prepared.few in
    let from = prepared.from in
    let below = prepared.below in
    let begun : Controller = record s { ports = (0xA1, 0xFF) ∷ ((0x21, 0xFF) ∷ s.ports) } in
    let reached : Controller = record begun { machine = m } in
    let shows : IsMapped reached = (prepared.shows m maps, prepared.aligned) in
    let counted : Controller = record reached {
      ioapic = record s.ioapic { regsel = 1 };
      num_gsi = entry_count s;
    } in
    let loop = mask_entries-Masked (entry_count s) 0 counted shows (omega arith) in
    let masked : Controller = record counted { ioapic = loop.device } in
    elim (ioapic_map_gsi-Redirected masked shows (timer s).0 0x20 (timer_flags (timer s).1) few
      prepared.small) [
        | inl (_, _, r) ↦ record {
          state = record masked { ioapic = r.device };
          returns =
              rw
                (
                  map_device_lem s (ok tt m) maps begun.ports,
                  ioapic_read32_lem reached shows 1,
                  loop.returns,
                  irq_to_gsi_lem masked prepared.overrides,
                )
                r.returns;
          machine = refl;
          pics = refl;
          entries = refl;
          timer_entry = r.entry ∙ timer_flags_lem (timer s).1;
          other_entries = λ n lt ne.
              rw
                (
                  r.others (0x10 + 2 * n) (ground arith) (ground arith),
                  r.others (0x11 + 2 * n) (ground arith) (ground arith),
                )
                (loop.entries n (omega arith) (omega arith));
        }
        | inr (out, _) ↦ absurd (ground arith)
      ]

-- Where a mapping of the device's page that ends normally makes the walk of its address lead to the
-- device, the address begins a page, the table of overrides is in order and the timer's interrupt is one
-- of the device's, of no more than 120 below 2 ^ 32: if the mapping ends normally, `ioapic_init` does so with the memory as the mapping left it,
-- turns both PICs off, and masks every entry of the device but the timer's. That one is on vector 0x20,
-- in fixed delivery to all processors, not masked, active low where digit 1 of its override's flags is
-- set and level-triggered where digit 3 is set. If the mapping panics, raises a fault or does not end,
-- so does `ioapic_init`.
pub ioapic_init-Initialised :
    (s : Controller) → IsPrepared s → Follows s (mapping s) (ioapic_init s)
unfolding ioapic_init outb
ioapic_init-Initialised s prepared = outcome (mapping s) refl
  where
    ports : List (ℕ × ℕ)
    ports = (0xA1, 0xFF) ∷ ((0x21, 0xFF) ∷ s.ports)

    outcome : (o : Run Machine (Unit {0})) → mapping s ≡ o → Follows s o (ioapic_init s)
    outcome (ok _ m) e = initialised m (ioapic_init s) (after-mapping s m prepared e)
    outcome panicked e = rw (map_device_lem s panicked e ports) panics
    outcome faulted e = rw (map_device_lem s faulted e ports) faults
    outcome spinning e = rw (map_device_lem s spinning e ports) waits
    outcome out_of_fuel e = rw (map_device_lem s out_of_fuel e ports) runs_out
