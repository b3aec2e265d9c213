-- ===== src/Base.antt =====
-- What the components share: library names, Boolean tests, well-founded order, the outcome of a
-- kernel routine and the memory that it works on.
mod Names
mod Tests
pub mod Order
pub mod Pigeonhole
pub mod Run
pub use Names.*
pub use Tests.*
