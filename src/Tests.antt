-- ===== src/Tests.antt =====
-- Runs of the model on small inputs, and each theorem at an input that meets its hypotheses.
pub mod Bitmaps
pub mod Frames
pub mod Locks
pub mod Windows
pub mod Output
pub mod Walks
pub mod Ranges
pub mod Machines
pub mod Vectors
pub mod Booting
pub mod Routines
pub mod Tables
pub mod Descriptors
pub mod Buddies
