-- ===== src/Float64.antt =====
-- The type of floating-point numbers, as a parameter with named laws, and an instance for tests.
mod Defs
pub mod Scaled
pub use Defs.*
