-- ===== src/Tests.antt =====
-- Runs of the definitions on concrete inputs.
mod Arithmetic
mod Exception
mod System
mod Round
mod Ends
mod Control
mod Loading
