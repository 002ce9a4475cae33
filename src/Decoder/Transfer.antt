-- ===== src/Decoder/Transfer.antt =====
-- The tests of micromachine/instruction/instruction_decoder.hpp: loads and stores, the other
-- 16-bit instructions, and branches.
use micromachine.Base.{ℕ, Bool, not, ◌&&◌, ◌==◌}
use micromachine.Bits.{extract}

unfoldable pub is_ldr_literal : ℕ → Bool
is_ldr_literal instr = extract 16 11 5 instr == 0b01001

unfoldable pub is_str_reg : ℕ → Bool
is_str_reg instr = extract 16 9 7 instr == 0b0101000

unfoldable pub is_strh_reg : ℕ → Bool
is_strh_reg instr = extract 16 9 7 instr == 0b0101001

unfoldable pub is_strb_reg : ℕ → Bool
is_strb_reg instr = extract 16 9 7 instr == 0b0101010

unfoldable pub is_ldrsb_reg : ℕ → Bool
is_ldrsb_reg instr = extract 16 9 7 instr == 0b0101011

unfoldable pub is_ldr_reg : ℕ → Bool
is_ldr_reg instr = extract 16 9 7 instr == 0b0101100

unfoldable pub is_ldrh_reg : ℕ → Bool
is_ldrh_reg instr = extract 16 9 7 instr == 0b0101101

unfoldable pub is_ldrb_reg : ℕ → Bool
is_ldrb_reg instr = extract 16 9 7 instr == 0b0101110

unfoldable pub is_ldrsh_reg : ℕ → Bool
is_ldrsh_reg instr = extract 16 9 7 instr == 0b0101111

unfoldable pub is_str_imm : ℕ → Bool
is_str_imm instr = extract 16 11 5 instr == 0b01100

unfoldable pub is_ldr_imm : ℕ → Bool
is_ldr_imm instr = extract 16 11 5 instr == 0b01101

unfoldable pub is_strb_imm : ℕ → Bool
is_strb_imm instr = extract 16 11 5 instr == 0b01110

unfoldable pub is_ldrb_imm : ℕ → Bool
is_ldrb_imm instr = extract 16 11 5 instr == 0b01111

unfoldable pub is_strh_imm : ℕ → Bool
is_strh_imm instr = extract 16 11 5 instr == 0b10000

unfoldable pub is_ldrh_imm : ℕ → Bool
is_ldrh_imm instr = extract 16 11 5 instr == 0b10001

unfoldable pub is_str_sp_imm : ℕ → Bool
is_str_sp_imm instr = extract 16 11 5 instr == 0b10010

unfoldable pub is_ldr_sp_imm : ℕ → Bool
is_ldr_sp_imm instr = extract 16 11 5 instr == 0b10011

unfoldable pub is_adr : ℕ → Bool
is_adr instr = extract 16 11 5 instr == 0b10100

unfoldable pub is_add_sp_imm : ℕ → Bool
is_add_sp_imm instr = extract 16 11 5 instr == 0b10101

unfoldable pub is_add_sp_imm_t2 : ℕ → Bool
is_add_sp_imm_t2 instr = extract 16 7 9 instr == 0b101100000

unfoldable pub is_sub_sp_imm : ℕ → Bool
is_sub_sp_imm instr = extract 16 7 9 instr == 0b101100001

unfoldable pub is_sxth : ℕ → Bool
is_sxth instr = extract 16 6 10 instr == 0b1011001000

unfoldable pub is_sxtb : ℕ → Bool
is_sxtb instr = extract 16 6 10 instr == 0b1011001001

unfoldable pub is_uxth : ℕ → Bool
is_uxth instr = extract 16 6 10 instr == 0b1011001010

unfoldable pub is_uxtb : ℕ → Bool
is_uxtb instr = extract 16 6 10 instr == 0b1011001011

unfoldable pub is_push : ℕ → Bool
is_push instr = extract 16 9 7 instr == 0b1011010

unfoldable pub is_cps : ℕ → Bool
is_cps instr = extract 16 5 11 instr == 0b10110110011

unfoldable pub is_rev_word : ℕ → Bool
is_rev_word instr = extract 16 6 10 instr == 0b1011101000

unfoldable pub is_rev16 : ℕ → Bool
is_rev16 instr = extract 16 6 10 instr == 0b1011101001

unfoldable pub is_revsh : ℕ → Bool
is_revsh instr = extract 16 6 10 instr == 0b1011101011

unfoldable pub is_pop : ℕ → Bool
is_pop instr = extract 16 9 7 instr == 0b1011110

unfoldable pub is_breakpoint : ℕ → Bool
is_breakpoint instr = extract 16 8 8 instr == 0b10111110

unfoldable pub is_hints : ℕ → Bool
is_hints instr = extract 16 8 8 instr == 0b10111111

unfoldable pub is_nop : ℕ → Bool
is_nop instr = instr == 0b1011111100000000

unfoldable pub is_stm : ℕ → Bool
is_stm instr = extract 16 11 5 instr == 0b11000

unfoldable pub is_ldm : ℕ → Bool
is_ldm instr = extract 16 11 5 instr == 0b11001

unfoldable pub is_branch : ℕ → Bool
is_branch instr = extract 16 12 4 instr == 0b1101 && not (extract 16 9 3 instr == 0b111)

unfoldable pub is_svc : ℕ → Bool
is_svc instr = extract 16 12 4 instr == 0b1101 && extract 16 8 4 instr == 0b1111

unfoldable pub is_unconditional_branch : ℕ → Bool
is_unconditional_branch instr = extract 16 11 5 instr == 0b11100

unfoldable pub is_32bit_thumb_encoding : ℕ → Bool
is_32bit_thumb_encoding instr =
    extract 16 13 3 instr == 0b111 && not (extract 16 11 2 instr == 0b00)

unfoldable pub is_undefined : ℕ → Bool
is_undefined instr = extract 16 8 8 instr == 0b11011110
