-- ===== src/Decoder/Words.antt =====
-- The halfwords that the tests of micromachine/instruction/instruction_decoder.hpp take, as ranges.
pub mod Arithmetic
pub mod Special
pub mod Transfer
