-- ===== src/Registers.antt =====
-- The registers of the processor, passed on from the children.
mod State
mod Core
mod Status
pub mod File
unfoldable pub use State.*
unfoldable pub use Core.*
unfoldable pub use Status.*
