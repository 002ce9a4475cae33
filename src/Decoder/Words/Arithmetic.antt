-- ===== src/Decoder/Words/Arithmetic.antt =====
-- Which halfwords each test of micromachine/instruction/instruction_decoder.hpp takes: shifts,
-- arithmetic and data processing.
use micromachine.Base.{ℕ, ◌^◌, ◌<◌, ◌≡◌, arith, ◌&&◌, ltb, leb}
use micromachine.Bits.Laws.{extract_arith}
use micromachine.Decoder.Arithmetic.{
  is_lsl_imm, is_lsr_imm, is_asr_imm, is_add_reg, is_subs_reg, is_add_imm, is_subs_imm, is_mov_imm,
  is_cmp_imm, is_add_imm_t2, is_subs_imm8, is_and_reg, is_xor_reg, is_lsl_reg, is_lsr_reg,
  is_asr_reg, is_adc_reg, is_sbc, is_ror_reg, is_tst_reg, is_rsb_imm, is_cmp_reg, is_cmn_reg,
  is_orr_reg, is_mul_reg, is_bitclear_reg, is_not_reg, is_data_processing, is_siadsumoco,
}

module _ (w : ℕ) (small : w < 2 ^ 16) where
  pub is_lsl_imm_lem : is_lsl_imm w ≡ leb 0x0000 w && ltb w 0x0800
  unfolding is_lsl_imm is_siadsumoco
  is_lsl_imm_lem =
      ground (arith, extract_arith 16 11 3 w (omega arith), extract_arith 16 14 2 w (omega arith))

  pub is_lsr_imm_lem : is_lsr_imm w ≡ leb 0x0800 w && ltb w 0x1000
  unfolding is_lsr_imm is_siadsumoco
  is_lsr_imm_lem =
      ground (arith, extract_arith 16 11 3 w (omega arith), extract_arith 16 14 2 w (omega arith))

  pub is_asr_imm_lem : is_asr_imm w ≡ leb 0x1000 w && ltb w 0x1800
  unfolding is_asr_imm is_siadsumoco
  is_asr_imm_lem =
      ground (arith, extract_arith 16 11 3 w (omega arith), extract_arith 16 14 2 w (omega arith))

  pub is_add_reg_lem : is_add_reg w ≡ leb 0x1800 w && ltb w 0x1a00
  unfolding is_add_reg is_siadsumoco
  is_add_reg_lem =
      ground (arith, extract_arith 16 14 2 w (omega arith), extract_arith 16 9 5 w (omega arith))

  pub is_subs_reg_lem : is_subs_reg w ≡ leb 0x1a00 w && ltb w 0x1c00
  unfolding is_subs_reg is_siadsumoco
  is_subs_reg_lem =
      ground (arith, extract_arith 16 14 2 w (omega arith), extract_arith 16 9 5 w (omega arith))

  pub is_add_imm_lem : is_add_imm w ≡ leb 0x1c00 w && ltb w 0x1e00
  unfolding is_add_imm is_siadsumoco
  is_add_imm_lem =
      ground (arith, extract_arith 16 14 2 w (omega arith), extract_arith 16 9 5 w (omega arith))

  pub is_subs_imm_lem : is_subs_imm w ≡ leb 0x1e00 w && ltb w 0x2000
  unfolding is_subs_imm is_siadsumoco
  is_subs_imm_lem =
      ground (arith, extract_arith 16 14 2 w (omega arith), extract_arith 16 9 5 w (omega arith))

  pub is_mov_imm_lem : is_mov_imm w ≡ leb 0x2000 w && ltb w 0x2800
  unfolding is_mov_imm is_siadsumoco
  is_mov_imm_lem =
      ground (arith, extract_arith 16 11 3 w (omega arith), extract_arith 16 14 2 w (omega arith))

  pub is_cmp_imm_lem : is_cmp_imm w ≡ leb 0x2800 w && ltb w 0x3000
  unfolding is_cmp_imm is_siadsumoco
  is_cmp_imm_lem =
      ground (arith, extract_arith 16 11 3 w (omega arith), extract_arith 16 14 2 w (omega arith))

  pub is_add_imm_t2_lem : is_add_imm_t2 w ≡ leb 0x3000 w && ltb w 0x3800
  unfolding is_add_imm_t2 is_siadsumoco
  is_add_imm_t2_lem =
      ground (arith, extract_arith 16 11 3 w (omega arith), extract_arith 16 14 2 w (omega arith))

  pub is_subs_imm8_lem : is_subs_imm8 w ≡ leb 0x3800 w && ltb w 0x4000
  unfolding is_subs_imm8 is_siadsumoco
  is_subs_imm8_lem =
      ground (arith, extract_arith 16 11 3 w (omega arith), extract_arith 16 14 2 w (omega arith))

  pub is_and_reg_lem : is_and_reg w ≡ leb 0x4000 w && ltb w 0x4040
  unfolding is_and_reg is_data_processing
  is_and_reg_lem =
      ground (arith, extract_arith 16 10 6 w (omega arith), extract_arith 16 6 4 w (omega arith))

  pub is_xor_reg_lem : is_xor_reg w ≡ leb 0x4040 w && ltb w 0x4080
  unfolding is_xor_reg is_data_processing
  is_xor_reg_lem =
      ground (arith, extract_arith 16 10 6 w (omega arith), extract_arith 16 6 4 w (omega arith))

  pub is_lsl_reg_lem : is_lsl_reg w ≡ leb 0x4080 w && ltb w 0x40c0
  unfolding is_lsl_reg is_data_processing
  is_lsl_reg_lem =
      ground (arith, extract_arith 16 10 6 w (omega arith), extract_arith 16 6 4 w (omega arith))

  pub is_lsr_reg_lem : is_lsr_reg w ≡ leb 0x40c0 w && ltb w 0x4100
  unfolding is_lsr_reg is_data_processing
  is_lsr_reg_lem =
      ground (arith, extract_arith 16 10 6 w (omega arith), extract_arith 16 6 4 w (omega arith))

  pub is_asr_reg_lem : is_asr_reg w ≡ leb 0x4100 w && ltb w 0x4140
  unfolding is_asr_reg is_data_processing
  is_asr_reg_lem =
      ground (arith, extract_arith 16 10 6 w (omega arith), extract_arith 16 6 4 w (omega arith))

  pub is_adc_reg_lem : is_adc_reg w ≡ leb 0x4140 w && ltb w 0x4180
  unfolding is_adc_reg is_data_processing
  is_adc_reg_lem =
      ground (arith, extract_arith 16 10 6 w (omega arith), extract_arith 16 6 4 w (omega arith))

  pub is_sbc_lem : is_sbc w ≡ leb 0x4180 w && ltb w 0x41c0
  unfolding is_sbc is_data_processing
  is_sbc_lem =
      ground (arith, extract_arith 16 10 6 w (omega arith), extract_arith 16 6 4 w (omega arith))

  pub is_ror_reg_lem : is_ror_reg w ≡ leb 0x41c0 w && ltb w 0x4200
  unfolding is_ror_reg is_data_processing
  is_ror_reg_lem =
      ground (arith, extract_arith 16 10 6 w (omega arith), extract_arith 16 6 4 w (omega arith))

  pub is_tst_reg_lem : is_tst_reg w ≡ leb 0x4200 w && ltb w 0x4240
  unfolding is_tst_reg is_data_processing
  is_tst_reg_lem =
      ground (arith, extract_arith 16 10 6 w (omega arith), extract_arith 16 6 4 w (omega arith))

  pub is_rsb_imm_lem : is_rsb_imm w ≡ leb 0x4240 w && ltb w 0x4280
  unfolding is_rsb_imm is_data_processing
  is_rsb_imm_lem =
      ground (arith, extract_arith 16 10 6 w (omega arith), extract_arith 16 6 4 w (omega arith))

  pub is_cmp_reg_lem : is_cmp_reg w ≡ leb 0x4280 w && ltb w 0x42c0
  unfolding is_cmp_reg is_data_processing
  is_cmp_reg_lem =
      ground (arith, extract_arith 16 10 6 w (omega arith), extract_arith 16 6 4 w (omega arith))

  pub is_cmn_reg_lem : is_cmn_reg w ≡ leb 0x42c0 w && ltb w 0x4300
  unfolding is_cmn_reg is_data_processing
  is_cmn_reg_lem =
      ground (arith, extract_arith 16 10 6 w (omega arith), extract_arith 16 6 4 w (omega arith))

  pub is_orr_reg_lem : is_orr_reg w ≡ leb 0x4300 w && ltb w 0x4340
  unfolding is_orr_reg is_data_processing
  is_orr_reg_lem =
      ground (arith, extract_arith 16 10 6 w (omega arith), extract_arith 16 6 4 w (omega arith))

  pub is_mul_reg_lem : is_mul_reg w ≡ leb 0x4340 w && ltb w 0x4380
  unfolding is_mul_reg is_data_processing
  is_mul_reg_lem =
      ground (arith, extract_arith 16 10 6 w (omega arith), extract_arith 16 6 4 w (omega arith))

  pub is_bitclear_reg_lem : is_bitclear_reg w ≡ leb 0x4380 w && ltb w 0x43c0
  unfolding is_bitclear_reg is_data_processing
  is_bitclear_reg_lem =
      ground (arith, extract_arith 16 10 6 w (omega arith), extract_arith 16 6 4 w (omega arith))

  pub is_not_reg_lem : is_not_reg w ≡ leb 0x43c0 w && ltb w 0x4400
  unfolding is_not_reg is_data_processing
  is_not_reg_lem =
      ground (arith, extract_arith 16 10 6 w (omega arith), extract_arith 16 6 4 w (omega arith))
