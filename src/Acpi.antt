-- ===== src/Acpi.antt =====
-- kernel/acpi.c: the processors, the I/O APIC and the interrupt overrides of the MADT.
pub mod Madt
pub mod Overrides
pub mod Layout
pub mod Decoded
pub mod Parse
