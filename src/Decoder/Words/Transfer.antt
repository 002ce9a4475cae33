-- ===== src/Decoder/Words/Transfer.antt =====
-- Which halfwords each test of micromachine/instruction/instruction_decoder.hpp takes: the other
-- 16-bit instructions.
use micromachine.Base.{ℕ, ◌^◌, ◌<◌, ◌≡◌, arith, ◌&&◌, ltb, leb}
use micromachine.Bits.Laws.{extract_arith}
use micromachine.Decoder.Transfer.{
  is_add_sp_imm_t2, is_sub_sp_imm, is_sxth, is_sxtb, is_uxth, is_uxtb, is_push, is_cps, is_rev_word,
  is_rev16, is_revsh, is_pop, is_breakpoint, is_hints, is_stm, is_ldm, is_branch, is_svc,
  is_unconditional_branch, is_32bit_thumb_encoding, is_undefined,
}

module _ (w : ℕ) (small : w < 2 ^ 16) where
  pub is_add_sp_imm_t2_lem : is_add_sp_imm_t2 w ≡ leb 0xb000 w && ltb w 0xb080
  unfolding is_add_sp_imm_t2
  is_add_sp_imm_t2_lem = ground (arith, extract_arith 16 7 9 w (omega arith))

  pub is_sub_sp_imm_lem : is_sub_sp_imm w ≡ leb 0xb080 w && ltb w 0xb100
  unfolding is_sub_sp_imm
  is_sub_sp_imm_lem = ground (arith, extract_arith 16 7 9 w (omega arith))

  pub is_sxth_lem : is_sxth w ≡ leb 0xb200 w && ltb w 0xb240
  unfolding is_sxth
  is_sxth_lem = ground (arith, extract_arith 16 6 10 w (omega arith))

  pub is_sxtb_lem : is_sxtb w ≡ leb 0xb240 w && ltb w 0xb280
  unfolding is_sxtb
  is_sxtb_lem = ground (arith, extract_arith 16 6 10 w (omega arith))

  pub is_uxth_lem : is_uxth w ≡ leb 0xb280 w && ltb w 0xb2c0
  unfolding is_uxth
  is_uxth_lem = ground (arith, extract_arith 16 6 10 w (omega arith))

  pub is_uxtb_lem : is_uxtb w ≡ leb 0xb2c0 w && ltb w 0xb300
  unfolding is_uxtb
  is_uxtb_lem = ground (arith, extract_arith 16 6 10 w (omega arith))

  pub is_push_lem : is_push w ≡ leb 0xb400 w && ltb w 0xb600
  unfolding is_push
  is_push_lem = ground (arith, extract_arith 16 9 7 w (omega arith))

  pub is_cps_lem : is_cps w ≡ leb 0xb660 w && ltb w 0xb680
  unfolding is_cps
  is_cps_lem = ground (arith, extract_arith 16 5 11 w (omega arith))

  pub is_rev_word_lem : is_rev_word w ≡ leb 0xba00 w && ltb w 0xba40
  unfolding is_rev_word
  is_rev_word_lem = ground (arith, extract_arith 16 6 10 w (omega arith))

  pub is_rev16_lem : is_rev16 w ≡ leb 0xba40 w && ltb w 0xba80
  unfolding is_rev16
  is_rev16_lem = ground (arith, extract_arith 16 6 10 w (omega arith))

  pub is_revsh_lem : is_revsh w ≡ leb 0xbac0 w && ltb w 0xbb00
  unfolding is_revsh
  is_revsh_lem = ground (arith, extract_arith 16 6 10 w (omega arith))

  pub is_pop_lem : is_pop w ≡ leb 0xbc00 w && ltb w 0xbe00
  unfolding is_pop
  is_pop_lem = ground (arith, extract_arith 16 9 7 w (omega arith))

  pub is_breakpoint_lem : is_breakpoint w ≡ leb 0xbe00 w && ltb w 0xbf00
  unfolding is_breakpoint
  is_breakpoint_lem = ground (arith, extract_arith 16 8 8 w (omega arith))

  pub is_hints_lem : is_hints w ≡ leb 0xbf00 w && ltb w 0xc000
  unfolding is_hints
  is_hints_lem = ground (arith, extract_arith 16 8 8 w (omega arith))

  pub is_stm_lem : is_stm w ≡ leb 0xc000 w && ltb w 0xc800
  unfolding is_stm
  is_stm_lem = ground (arith, extract_arith 16 11 5 w (omega arith))

  pub is_ldm_lem : is_ldm w ≡ leb 0xc800 w && ltb w 0xd000
  unfolding is_ldm
  is_ldm_lem = ground (arith, extract_arith 16 11 5 w (omega arith))

  pub is_branch_lem : is_branch w ≡ leb 0xd000 w && ltb w 0xde00
  unfolding is_branch
  is_branch_lem =
      ground (arith, extract_arith 16 12 4 w (omega arith), extract_arith 16 9 3 w (omega arith))

  pub is_svc_lem : is_svc w ≡ leb 0xdf00 w && ltb w 0xe000
  unfolding is_svc
  is_svc_lem =
      ground (arith, extract_arith 16 12 4 w (omega arith), extract_arith 16 8 4 w (omega arith))

  pub is_unconditional_branch_lem : is_unconditional_branch w ≡ leb 0xe000 w && ltb w 0xe800
  unfolding is_unconditional_branch
  is_unconditional_branch_lem = ground (arith, extract_arith 16 11 5 w (omega arith))

  pub is_32bit_thumb_encoding_lem : is_32bit_thumb_encoding w ≡ leb 0xe800 w && ltb w 0x10000
  unfolding is_32bit_thumb_encoding
  is_32bit_thumb_encoding_lem =
      ground (arith, extract_arith 16 11 2 w (omega arith), extract_arith 16 13 3 w (omega arith))

  pub is_undefined_lem : is_undefined w ≡ leb 0xde00 w && ltb w 0xdf00
  unfolding is_undefined
  is_undefined_lem = ground (arith, extract_arith 16 8 8 w (omega arith))
