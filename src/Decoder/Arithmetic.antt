-- ===== src/Decoder/Arithmetic.antt =====
-- The tests of micromachine/instruction/instruction_decoder.hpp: shifts, arithmetic, data
-- processing, and the instructions on high registers.
use micromachine.Base.{ℕ, Bool, ◌&&◌, ◌||◌, ◌==◌}
use micromachine.Bits.{extract}

unfoldable pub is_siadsumoco : ℕ → Bool
is_siadsumoco instr = extract 16 14 2 instr == 0

unfoldable pub is_data_processing : ℕ → Bool
is_data_processing instr = extract 16 10 6 instr == 0b010000

unfoldable pub is_sdibe : ℕ → Bool
is_sdibe instr = extract 16 10 6 instr == 0b010001

unfoldable pub is_lsl_imm : ℕ → Bool
unfolding is_siadsumoco
is_lsl_imm instr = is_siadsumoco instr && extract 16 11 3 instr == 0b000

unfoldable pub is_lsr_imm : ℕ → Bool
unfolding is_siadsumoco
is_lsr_imm instr = is_siadsumoco instr && extract 16 11 3 instr == 0b001

unfoldable pub is_asr_imm : ℕ → Bool
unfolding is_siadsumoco
is_asr_imm instr = is_siadsumoco instr && extract 16 11 3 instr == 0b010

unfoldable pub is_add_reg : ℕ → Bool
unfolding is_siadsumoco
is_add_reg instr = is_siadsumoco instr && extract 16 9 5 instr == 0b01100

unfoldable pub is_subs_reg : ℕ → Bool
unfolding is_siadsumoco
is_subs_reg instr = is_siadsumoco instr && extract 16 9 5 instr == 0b01101

unfoldable pub is_add_imm : ℕ → Bool
unfolding is_siadsumoco
is_add_imm instr = is_siadsumoco instr && extract 16 9 5 instr == 0b01110

unfoldable pub is_subs_imm : ℕ → Bool
unfolding is_siadsumoco
is_subs_imm instr = is_siadsumoco instr && extract 16 9 5 instr == 0b01111

unfoldable pub is_mov_imm : ℕ → Bool
unfolding is_siadsumoco
is_mov_imm instr = is_siadsumoco instr && extract 16 11 3 instr == 0b100

unfoldable pub is_cmp_imm : ℕ → Bool
unfolding is_siadsumoco
is_cmp_imm instr = is_siadsumoco instr && extract 16 11 3 instr == 0b101

unfoldable pub is_add_imm_t2 : ℕ → Bool
unfolding is_siadsumoco
is_add_imm_t2 instr = is_siadsumoco instr && extract 16 11 3 instr == 0b110

unfoldable pub is_subs_imm8 : ℕ → Bool
unfolding is_siadsumoco
is_subs_imm8 instr = is_siadsumoco instr && extract 16 11 3 instr == 0b111

unfoldable pub is_and_reg : ℕ → Bool
unfolding is_data_processing
is_and_reg instr = is_data_processing instr && extract 16 6 4 instr == 0b0000

unfoldable pub is_xor_reg : ℕ → Bool
unfolding is_data_processing
is_xor_reg instr = is_data_processing instr && extract 16 6 4 instr == 0b0001

unfoldable pub is_lsl_reg : ℕ → Bool
unfolding is_data_processing
is_lsl_reg instr = is_data_processing instr && extract 16 6 4 instr == 0b0010

unfoldable pub is_lsr_reg : ℕ → Bool
unfolding is_data_processing
is_lsr_reg instr = is_data_processing instr && extract 16 6 4 instr == 0b0011

unfoldable pub is_asr_reg : ℕ → Bool
unfolding is_data_processing
is_asr_reg instr = is_data_processing instr && extract 16 6 4 instr == 0b0100

unfoldable pub is_adc_reg : ℕ → Bool
unfolding is_data_processing
is_adc_reg instr = is_data_processing instr && extract 16 6 4 instr == 0b0101

unfoldable pub is_sbc : ℕ → Bool
unfolding is_data_processing
is_sbc instr = is_data_processing instr && extract 16 6 4 instr == 0b0110

unfoldable pub is_ror_reg : ℕ → Bool
unfolding is_data_processing
is_ror_reg instr = is_data_processing instr && extract 16 6 4 instr == 0b0111

unfoldable pub is_tst_reg : ℕ → Bool
unfolding is_data_processing
is_tst_reg instr = is_data_processing instr && extract 16 6 4 instr == 0b1000

unfoldable pub is_rsb_imm : ℕ → Bool
unfolding is_data_processing
is_rsb_imm instr = is_data_processing instr && extract 16 6 4 instr == 0b1001

unfoldable pub is_cmn_reg : ℕ → Bool
unfolding is_data_processing
is_cmn_reg instr = is_data_processing instr && extract 16 6 4 instr == 0b1011

unfoldable pub is_cmp_reg : ℕ → Bool
unfolding is_data_processing
is_cmp_reg instr = is_data_processing instr && extract 16 6 4 instr == 0b1010

unfoldable pub is_orr_reg : ℕ → Bool
unfolding is_data_processing
is_orr_reg instr = is_data_processing instr && extract 16 6 4 instr == 0b1100

unfoldable pub is_mul_reg : ℕ → Bool
unfolding is_data_processing
is_mul_reg instr = is_data_processing instr && extract 16 6 4 instr == 0b1101

unfoldable pub is_bitclear_reg : ℕ → Bool
unfolding is_data_processing
is_bitclear_reg instr = is_data_processing instr && extract 16 6 4 instr == 0b1110

unfoldable pub is_not_reg : ℕ → Bool
unfolding is_data_processing
is_not_reg instr = is_data_processing instr && extract 16 6 4 instr == 0b1111

unfoldable pub is_add_highreg : ℕ → Bool
unfolding is_sdibe
is_add_highreg instr = is_sdibe instr && extract 16 8 2 instr == 0b00

unfoldable pub is_sdibe_unpredictable_0 : ℕ → Bool
unfolding is_sdibe
is_sdibe_unpredictable_0 instr = is_sdibe instr && extract 16 6 4 instr == 0b0100

unfoldable pub is_cmp_highreg : ℕ → Bool
unfolding is_sdibe
is_cmp_highreg instr =
    is_sdibe instr && (extract 16 6 4 instr == 0b0101 || extract 16 7 3 instr == 0b011)

unfoldable pub is_mov_highreg : ℕ → Bool
unfolding is_sdibe
is_mov_highreg instr = is_sdibe instr && extract 16 8 2 instr == 0b10

unfoldable pub is_bx : ℕ → Bool
unfolding is_sdibe
is_bx instr = is_sdibe instr && extract 16 7 3 instr == 0b110

unfoldable pub is_blx : ℕ → Bool
unfolding is_sdibe
is_blx instr = is_sdibe instr && extract 16 7 3 instr == 0b111
