-- ===== src/Vm.antt =====
-- arch/x86_64/mm/vm.c: the windows of kernel virtual memory in which 4 KB and 2 MB pages are mapped.
pub mod Defs
pub mod Pages
pub mod State
pub mod Single
pub mod Runs
pub mod Unmap
pub mod UnmapRuns
pub mod Skipped
pub mod Tables
pub mod Walk
pub mod Entries
pub mod Unrestricted
