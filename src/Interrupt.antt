-- ===== src/Interrupt.antt =====
-- The interrupt controllers and the interrupt descriptors: apic.c and interrupt.c of arch/x86_64/interrupt.
pub mod IoApic
pub mod Device
pub mod Redirection
pub mod Initial
pub mod Gates
pub mod Dispatch
pub mod LocalApic
