-- ===== src/Exceptions.antt =====
-- Exceptions and their arbitration, passed on from the children.
mod State
mod Vector
mod Reference
pub mod Round
pub mod Selection
pub mod Priority
pub mod Unrolled
pub mod Active
unfoldable pub use State.*
unfoldable pub use Vector.*
unfoldable pub use Reference.*
