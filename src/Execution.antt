-- ===== src/Execution.antt =====
-- micromachine/execution: what each instruction does, taking and returning from exceptions, and
-- the dispatch of a decoded instruction.
pub mod Arithmetic
pub mod Moves
pub mod Context
pub mod Transfers
pub mod Stack
pub mod Status
pub mod Dispatch
pub mod Flags
pub mod Compare
pub mod LongAdd
pub mod LoadStore
pub mod Frame
pub mod Return
pub mod Restore
pub mod RoundTrip
pub mod PushPop
pub mod Saved
pub mod SaveRestore
pub mod Multiple
pub mod Reload
pub mod Defined
pub mod Lists
pub mod Returns
pub mod Effects
pub mod Runs
