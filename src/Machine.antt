-- ===== src/Machine.antt =====
-- The microcontroller as one state, and its memory, passed on from the children.
mod State
mod Devices
pub mod Memory
pub mod Outcome
unfoldable pub use State.*
unfoldable pub use Devices.*
unfoldable pub use Memory.*
