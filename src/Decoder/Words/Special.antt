-- ===== src/Decoder/Words/Special.antt =====
-- Which halfwords each test of micromachine/instruction/instruction_decoder.hpp takes: high
-- registers, loads and stores.
use micromachine.Base.{ℕ, ◌^◌, ◌<◌, ◌≡◌, arith, ◌&&◌, ltb, leb}
use micromachine.Bits.Laws.{extract_arith}
use micromachine.Decoder.Arithmetic.{
  is_add_highreg, is_sdibe_unpredictable_0, is_cmp_highreg, is_mov_highreg, is_bx, is_blx, is_sdibe,
}
use micromachine.Decoder.Transfer.{
  is_ldr_literal, is_str_reg, is_strh_reg, is_strb_reg, is_ldrsb_reg, is_ldr_reg, is_ldrh_reg,
  is_ldrb_reg, is_ldrsh_reg, is_str_imm, is_ldr_imm, is_strb_imm, is_ldrb_imm, is_strh_imm,
  is_ldrh_imm, is_str_sp_imm, is_ldr_sp_imm, is_adr, is_add_sp_imm,
}

module _ (w : ℕ) (small : w < 2 ^ 16) where
  pub is_add_highreg_lem : is_add_highreg w ≡ leb 0x4400 w && ltb w 0x4500
  unfolding is_add_highreg is_sdibe
  is_add_highreg_lem =
      ground (arith, extract_arith 16 10 6 w (omega arith), extract_arith 16 8 2 w (omega arith))

  pub is_sdibe_unpredictable_0_lem : is_sdibe_unpredictable_0 w ≡ leb 0x4500 w && ltb w 0x4540
  unfolding is_sdibe_unpredictable_0 is_sdibe
  is_sdibe_unpredictable_0_lem =
      ground (arith, extract_arith 16 10 6 w (omega arith), extract_arith 16 6 4 w (omega arith))

  pub is_cmp_highreg_lem : is_cmp_highreg w ≡ leb 0x4540 w && ltb w 0x4600
  unfolding is_cmp_highreg is_sdibe
  is_cmp_highreg_lem = ground (
    arith,
    extract_arith 16 10 6 w (omega arith),
    extract_arith 16 6 4 w (omega arith),
    extract_arith 16 7 3 w (omega arith),
  )

  pub is_mov_highreg_lem : is_mov_highreg w ≡ leb 0x4600 w && ltb w 0x4700
  unfolding is_mov_highreg is_sdibe
  is_mov_highreg_lem =
      ground (arith, extract_arith 16 10 6 w (omega arith), extract_arith 16 8 2 w (omega arith))

  pub is_bx_lem : is_bx w ≡ leb 0x4700 w && ltb w 0x4780
  unfolding is_bx is_sdibe
  is_bx_lem =
      ground (arith, extract_arith 16 10 6 w (omega arith), extract_arith 16 7 3 w (omega arith))

  pub is_blx_lem : is_blx w ≡ leb 0x4780 w && ltb w 0x4800
  unfolding is_blx is_sdibe
  is_blx_lem =
      ground (arith, extract_arith 16 10 6 w (omega arith), extract_arith 16 7 3 w (omega arith))

  pub is_ldr_literal_lem : is_ldr_literal w ≡ leb 0x4800 w && ltb w 0x5000
  unfolding is_ldr_literal
  is_ldr_literal_lem = ground (arith, extract_arith 16 11 5 w (omega arith))

  pub is_str_reg_lem : is_str_reg w ≡ leb 0x5000 w && ltb w 0x5200
  unfolding is_str_reg
  is_str_reg_lem = ground (arith, extract_arith 16 9 7 w (omega arith))

  pub is_strh_reg_lem : is_strh_reg w ≡ leb 0x5200 w && ltb w 0x5400
  unfolding is_strh_reg
  is_strh_reg_lem = ground (arith, extract_arith 16 9 7 w (omega arith))

  pub is_strb_reg_lem : is_strb_reg w ≡ leb 0x5400 w && ltb w 0x5600
  unfolding is_strb_reg
  is_strb_reg_lem = ground (arith, extract_arith 16 9 7 w (omega arith))

  pub is_ldrsb_reg_lem : is_ldrsb_reg w ≡ leb 0x5600 w && ltb w 0x5800
  unfolding is_ldrsb_reg
  is_ldrsb_reg_lem = ground (arith, extract_arith 16 9 7 w (omega arith))

  pub is_ldr_reg_lem : is_ldr_reg w ≡ leb 0x5800 w && ltb w 0x5a00
  unfolding is_ldr_reg
  is_ldr_reg_lem = ground (arith, extract_arith 16 9 7 w (omega arith))

  pub is_ldrh_reg_lem : is_ldrh_reg w ≡ leb 0x5a00 w && ltb w 0x5c00
  unfolding is_ldrh_reg
  is_ldrh_reg_lem = ground (arith, extract_arith 16 9 7 w (omega arith))

  pub is_ldrb_reg_lem : is_ldrb_reg w ≡ leb 0x5c00 w && ltb w 0x5e00
  unfolding is_ldrb_reg
  is_ldrb_reg_lem = ground (arith, extract_arith 16 9 7 w (omega arith))

  pub is_ldrsh_reg_lem : is_ldrsh_reg w ≡ leb 0x5e00 w && ltb w 0x6000
  unfolding is_ldrsh_reg
  is_ldrsh_reg_lem = ground (arith, extract_arith 16 9 7 w (omega arith))

  pub is_str_imm_lem : is_str_imm w ≡ leb 0x6000 w && ltb w 0x6800
  unfolding is_str_imm
  is_str_imm_lem = ground (arith, extract_arith 16 11 5 w (omega arith))

  pub is_ldr_imm_lem : is_ldr_imm w ≡ leb 0x6800 w && ltb w 0x7000
  unfolding is_ldr_imm
  is_ldr_imm_lem = ground (arith, extract_arith 16 11 5 w (omega arith))

  pub is_strb_imm_lem : is_strb_imm w ≡ leb 0x7000 w && ltb w 0x7800
  unfolding is_strb_imm
  is_strb_imm_lem = ground (arith, extract_arith 16 11 5 w (omega arith))

  pub is_ldrb_imm_lem : is_ldrb_imm w ≡ leb 0x7800 w && ltb w 0x8000
  unfolding is_ldrb_imm
  is_ldrb_imm_lem = ground (arith, extract_arith 16 11 5 w (omega arith))

  pub is_strh_imm_lem : is_strh_imm w ≡ leb 0x8000 w && ltb w 0x8800
  unfolding is_strh_imm
  is_strh_imm_lem = ground (arith, extract_arith 16 11 5 w (omega arith))

  pub is_ldrh_imm_lem : is_ldrh_imm w ≡ leb 0x8800 w && ltb w 0x9000
  unfolding is_ldrh_imm
  is_ldrh_imm_lem = ground (arith, extract_arith 16 11 5 w (omega arith))

  pub is_str_sp_imm_lem : is_str_sp_imm w ≡ leb 0x9000 w && ltb w 0x9800
  unfolding is_str_sp_imm
  is_str_sp_imm_lem = ground (arith, extract_arith 16 11 5 w (omega arith))

  pub is_ldr_sp_imm_lem : is_ldr_sp_imm w ≡ leb 0x9800 w && ltb w 0xa000
  unfolding is_ldr_sp_imm
  is_ldr_sp_imm_lem = ground (arith, extract_arith 16 11 5 w (omega arith))

  pub is_adr_lem : is_adr w ≡ leb 0xa000 w && ltb w 0xa800
  unfolding is_adr
  is_adr_lem = ground (arith, extract_arith 16 11 5 w (omega arith))

  pub is_add_sp_imm_lem : is_add_sp_imm w ≡ leb 0xa800 w && ltb w 0xb000
  unfolding is_add_sp_imm
  is_add_sp_imm_lem = ground (arith, extract_arith 16 11 5 w (omega arith))
