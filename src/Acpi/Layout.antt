-- ===== src/Acpi/Layout.antt =====
-- The structures of a MADT as the ACPI specification lays them out, byte by byte, and what it says of the
-- interrupts, the processors and the I/O APICs.
use rtv.Base.{
  ℕ, suc, ◌+◌, ◌/◌, ◌%◌, ◌^◌, ◌≤◌, ◌<◌, ◌≡◌, not, ◌&&◌, ◌==◌, if◌then◌else◌, List, [], ◌∷◌, ◌++◌,
}
use rtv.Acpi.Madt.{Memory}

-- Types 0, 1 and 2 of the specification, and any other.
pub data Structure : Type 0 where
  local_apic : (processor_id apic_id flags : ℕ) → Structure
  io_apic : (io_apic_id address gsi_base : ℕ) → Structure
  source_override : (bus source gsi flags : ℕ) → Structure
  other : (type_ : ℕ) (content : List ℕ) → Structure

-- Two and four bytes of a number, the lowest first.
unfoldable pub two_bytes : ℕ → List ℕ
two_bytes n = (n % 2 ^ 8) ∷ (n / 2 ^ 8 % 2 ^ 8) ∷ []

unfoldable pub four_bytes : ℕ → List ℕ
four_bytes n = (n % 2 ^ 8) ∷ (n / 2 ^ 8 % 2 ^ 8) ∷ (n / 2 ^ 16 % 2 ^ 8) ∷ (n / 2 ^ 24 % 2 ^ 8) ∷ []

abbrev pub size_of : List ℕ → ℕ
size_of [] = 0
size_of (b ∷ bs) = suc (size_of bs)

unfoldable pub bytes : Structure → List ℕ
bytes (local_apic processor_id apic_id flags) = 0 ∷ 8 ∷ processor_id ∷ apic_id ∷ four_bytes flags
bytes (io_apic io_apic_id address gsi_base) =
    1 ∷ 12 ∷ io_apic_id ∷ 0 ∷ four_bytes address ++ four_bytes gsi_base
bytes (source_override bus source gsi flags) =
    2 ∷ 10 ∷ bus ∷ source ∷ four_bytes gsi ++ two_bytes flags
bytes (other type_ content) = type_ ∷ ((2 + size_of content) ∷ content)

-- The fields that are wider than a byte fit, and a structure of another type has a type of its own.
unfoldable pub IsSound : Structure → Type 0
IsSound (local_apic processor_id apic_id flags) = flags < 2 ^ 32
IsSound (io_apic io_apic_id address gsi_base) = (address < 2 ^ 32) × (gsi_base < 2 ^ 32)
IsSound (source_override bus source gsi flags) = (gsi < 2 ^ 32) × (flags < 2 ^ 16)
IsSound (other type_ content) = 3 ≤ type_

-- The bytes stand in memory from `p` on.
abbrev pub Holds : Memory → (p : ℕ) → List ℕ → Type 0
Holds mem p [] = Unit {0}
Holds mem p (b ∷ bs) = (mem p ≡ b) × Holds mem (p + 1) bs

-- The table has the structures from `p` on, and ends at `fin`, or in the last one of them.
pub data Written (mem : Memory) (fin : ℕ) : ℕ → List Structure → Type 0 where
  no_more : (p : ℕ) → fin ≤ p → Written mem fin p []
  one_more :
      (p : ℕ) (st : Structure) (sts : List Structure)
      → p < fin
      → IsSound st
      → Holds mem p (bytes st)
      → Written mem fin (p + size_of (bytes st)) sts
      → Written mem fin p (st ∷ sts)

-- The interrupt and the flags of the first override for `irq`, or `d` where there is none.
unfoldable pub override_for : List Structure → (irq : ℕ) → ℕ × ℕ → ℕ × ℕ
override_for [] irq d = d
override_for (local_apic processor_id apic_id flags ∷ sts) irq d = override_for sts irq d
override_for (io_apic io_apic_id address gsi_base ∷ sts) irq d = override_for sts irq d
override_for (source_override bus source gsi flags ∷ sts) irq d =
    if source == irq then (gsi, flags) else override_for sts irq d
override_for (other type_ content ∷ sts) irq d = override_for sts irq d

-- The processors that are enabled, but for the one with the identifier `boot`; the I/O APICs; the
-- overrides; and whether these are all of bus 0, the ISA bus.
unfoldable pub other_processors : (boot : ℕ) → List Structure → ℕ
other_processors boot [] = 0
other_processors boot (local_apic processor_id apic_id flags ∷ sts) =
    if (flags % 2 == 1) && not (apic_id == boot)
    then 1 + other_processors boot sts
    else other_processors boot sts
other_processors boot (io_apic io_apic_id address gsi_base ∷ sts) = other_processors boot sts
other_processors boot (source_override bus source gsi flags ∷ sts) = other_processors boot sts
other_processors boot (other type_ content ∷ sts) = other_processors boot sts

unfoldable pub io_apics : List Structure → ℕ
io_apics [] = 0
io_apics (local_apic processor_id apic_id flags ∷ sts) = io_apics sts
io_apics (io_apic io_apic_id address gsi_base ∷ sts) = 1 + io_apics sts
io_apics (source_override bus source gsi flags ∷ sts) = io_apics sts
io_apics (other type_ content ∷ sts) = io_apics sts

-- The address and the first interrupt of the last I/O APIC, or `d` where there is none.
unfoldable pub last_io_apic : List Structure → ℕ × ℕ → ℕ × ℕ
last_io_apic [] d = d
last_io_apic (local_apic processor_id apic_id flags ∷ sts) d = last_io_apic sts d
last_io_apic (io_apic io_apic_id address gsi_base ∷ sts) d = last_io_apic sts (address, gsi_base)
last_io_apic (source_override bus source gsi flags ∷ sts) d = last_io_apic sts d
last_io_apic (other type_ content ∷ sts) d = last_io_apic sts d

unfoldable pub source_overrides : List Structure → ℕ
source_overrides [] = 0
source_overrides (local_apic processor_id apic_id flags ∷ sts) = source_overrides sts
source_overrides (io_apic io_apic_id address gsi_base ∷ sts) = source_overrides sts
source_overrides (source_override bus source gsi flags ∷ sts) = 1 + source_overrides sts
source_overrides (other type_ content ∷ sts) = source_overrides sts

unfoldable pub AllOnIsa : List Structure → Type 0
AllOnIsa [] = Unit {0}
AllOnIsa (local_apic processor_id apic_id flags ∷ sts) = AllOnIsa sts
AllOnIsa (io_apic io_apic_id address gsi_base ∷ sts) = AllOnIsa sts
AllOnIsa (source_override bus source gsi flags ∷ sts) = (bus ≡ 0) × AllOnIsa sts
AllOnIsa (other type_ content ∷ sts) = AllOnIsa sts
