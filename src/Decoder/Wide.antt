-- ===== src/Decoder/Wide.antt =====
-- The tests of micromachine/instruction/instruction_decoder.hpp on 32-bit instructions.
use micromachine.Base.{ℕ, Bool, bit_and, ◌&&◌, ◌==◌}
use micromachine.Bits.{extract}
use micromachine.Instruction.{first, second}
use micromachine.Decoder.Transfer.{is_32bit_thumb_encoding}

unfoldable pub is_32bit_thumb_br_misc_ctl : ℕ → Bool
unfolding is_32bit_thumb_encoding
is_32bit_thumb_br_misc_ctl pair =
    is_32bit_thumb_encoding (first pair)
    && extract 16 11 2 (first pair) == 0b10
    && extract 16 15 1 (second pair) == 0b1

unfoldable pub is_32bit_thumb_msr : ℕ → Bool
unfolding is_32bit_thumb_br_misc_ctl
is_32bit_thumb_msr pair =
    is_32bit_thumb_br_misc_ctl pair
    && extract 16 5 6 (first pair) == 0b011100
    && bit_and (extract 16 12 3 (second pair)) 0b101 == 0

unfoldable pub is_32bit_thumb_mrs : ℕ → Bool
unfolding is_32bit_thumb_br_misc_ctl
is_32bit_thumb_mrs pair =
    is_32bit_thumb_br_misc_ctl pair
    && extract 16 5 6 (first pair) == 0b011111
    && bit_and (extract 16 12 3 (second pair)) 0b101 == 0

unfoldable pub is_32bit_thumb_udf : ℕ → Bool
unfolding is_32bit_thumb_br_misc_ctl
is_32bit_thumb_udf pair =
    is_32bit_thumb_br_misc_ctl pair
    && extract 16 4 7 (first pair) == 0b1111111
    && bit_and (extract 16 12 3 (second pair)) 0b101 == 0

unfoldable pub is_32bit_thumb_misc_ctl : ℕ → Bool
unfolding is_32bit_thumb_br_misc_ctl
is_32bit_thumb_misc_ctl pair =
    is_32bit_thumb_br_misc_ctl pair
    && extract 16 4 7 (first pair) == 0b0111011
    && bit_and (extract 16 12 3 (second pair)) 0b101 == 0

unfoldable pub is_32bit_thumb_misc_ctl_dsb : ℕ → Bool
unfolding is_32bit_thumb_misc_ctl
is_32bit_thumb_misc_ctl_dsb pair =
    is_32bit_thumb_misc_ctl pair && extract 16 4 4 (second pair) == 0b0100

unfoldable pub is_32bit_thumb_misc_ctl_dmb : ℕ → Bool
unfolding is_32bit_thumb_misc_ctl
is_32bit_thumb_misc_ctl_dmb pair =
    is_32bit_thumb_misc_ctl pair && extract 16 4 4 (second pair) == 0b0101

unfoldable pub is_32bit_thumb_misc_ctl_isb : ℕ → Bool
unfolding is_32bit_thumb_misc_ctl
is_32bit_thumb_misc_ctl_isb pair =
    is_32bit_thumb_misc_ctl pair && extract 16 4 4 (second pair) == 0b0110

unfoldable pub is_32bit_thumb_bl : ℕ → Bool
unfolding is_32bit_thumb_br_misc_ctl
is_32bit_thumb_bl pair =
    is_32bit_thumb_br_misc_ctl pair && bit_and (extract 16 12 3 (second pair)) 0b101 == 0b101

unfoldable pub is_undefined32 : ℕ → Bool
unfolding is_32bit_thumb_encoding
is_undefined32 pair =
    is_32bit_thumb_encoding (first pair)
    && extract 16 4 12 (first pair) == 0b111101111111
    && extract 16 12 4 (second pair) == 0b1010
