-- ===== src/Physical.antt =====
-- kernel/mm/physical.c: the allocator of page frames, a bitmap `mm_table` with one bit for each
-- frame, set while the frame is free, under the lock `phy_lock`. The functions that print the table
-- are left out. A function of C takes the state and gives its result with the new state.
pub mod Defs
pub mod State
pub mod Blocks
pub mod Ranges
pub mod Next
pub mod Cycle
pub mod Frame
unfoldable pub use Defs.*
