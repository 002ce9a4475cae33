-- ===== src/Decoder/Reads/Special.antt =====
-- The instructions on high registers, the loads and the stores of one register, as
-- micromachine/instruction/instruction_decoder.hpp reads them.
use micromachine.Base.{ℕ, ◌^◌, ◌<◌, ◌≤◌}
use micromachine.Instruction.{first, second}
use micromachine.Decoder.Encoding.{Encodes}
use micromachine.Decoder.Reads.Steps.{takes_next}
use micromachine.Decoder.Arithmetic.{
  is_add_highreg, is_sdibe_unpredictable_0, is_cmp_highreg, is_mov_highreg, is_bx, is_blx,
}
use micromachine.Decoder.Transfer.{
  is_ldr_literal, is_str_reg, is_strh_reg, is_strb_reg, is_ldrsb_reg, is_ldr_reg, is_ldrh_reg,
  is_ldrb_reg, is_ldrsh_reg, is_str_imm, is_ldr_imm, is_strb_imm, is_ldrb_imm, is_strh_imm,
  is_ldrh_imm, is_str_sp_imm, is_ldr_sp_imm, is_adr, is_add_sp_imm,
}
use micromachine.Decoder.Words.Special.{
  is_add_highreg_lem, is_sdibe_unpredictable_0_lem, is_cmp_highreg_lem, is_mov_highreg_lem,
  is_bx_lem, is_blx_lem, is_ldr_literal_lem, is_str_reg_lem, is_strh_reg_lem, is_strb_reg_lem,
  is_ldrsb_reg_lem, is_ldr_reg_lem, is_ldrh_reg_lem, is_ldrb_reg_lem, is_ldrsh_reg_lem,
  is_str_imm_lem, is_ldr_imm_lem, is_strb_imm_lem, is_ldrb_imm_lem, is_strh_imm_lem,
  is_ldrh_imm_lem, is_str_sp_imm_lem, is_ldr_sp_imm_lem, is_adr_lem, is_add_sp_imm_lem,
}
use micromachine.Decoder.Reads.Layouts.{
  compared_registers, high_register, high_registers, prefix, register_imm8, three_registers,
  two_registers_imm5,
}
use micromachine.Decoder.{decode_special}
use micromachine.Decoder.Reads.Transfer.{transfer-Encodes}

pub special-Encodes :
    (pair : ℕ)
    → first pair < 2 ^ 16
    → 0x4400 ≤ first pair
    → Encodes (decode_special pair) (first pair) (second pair)
unfolding decode_special Encodes
special-Encodes pair small lo =
    takes_next (is_add_highreg w) 0x4400 0x4500 w x _ _ (is_add_highreg_lem w small) lo
      (high_registers w small 0x44)
      (λ lo.
        takes_next (is_sdibe_unpredictable_0 w) 0x4500 0x4540 w x _ _
          (is_sdibe_unpredictable_0_lem w small) lo (prefix w small 0x114)
          (λ lo.
            takes_next (is_cmp_highreg w) 0x4540 0x4600 w x _ _ (is_cmp_highreg_lem w small) lo
              (compared_registers w small)
              (λ lo.
                takes_next (is_mov_highreg w) 0x4600 0x4700 w x _ _ (is_mov_highreg_lem w small) lo
                  (high_registers w small 0x46)
                  (λ lo.
                    takes_next (is_bx w) 0x4700 0x4780 w x _ _ (is_bx_lem w small) lo
                      (high_register w small 0x8e)
                      (λ lo.
                        takes_next (is_blx w) 0x4780 0x4800 w x _ _ (is_blx_lem w small) lo
                          (high_register w small 0x8f)
                          (λ lo.
                            takes_next (is_ldr_literal w) 0x4800 0x5000 w x _ _
                              (is_ldr_literal_lem w small) lo (register_imm8 w small 0x9)
                              (λ lo.
                                takes_next (is_str_reg w) 0x5000 0x5200 w x _ _
                                  (is_str_reg_lem w small) lo (three_registers w small 0x28)
                                  (λ lo.
                                    takes_next (is_strh_reg w) 0x5200 0x5400 w x _ _
                                      (is_strh_reg_lem w small) lo (three_registers w small 0x29)
                                      (λ lo.
                                        takes_next (is_strb_reg w) 0x5400 0x5600 w x _ _
                                          (is_strb_reg_lem w small) lo
                                          (three_registers w small 0x2a)
                                          (λ lo.
                                            takes_next (is_ldrsb_reg w) 0x5600 0x5800 w x _ _
                                              (is_ldrsb_reg_lem w small) lo
                                              (three_registers w small 0x2b)
                                              (λ lo.
                                                takes_next (is_ldr_reg w) 0x5800 0x5a00 w x _ _
                                                  (is_ldr_reg_lem w small) lo
                                                  (three_registers w small 0x2c)
                                                  (λ lo.
                                                    takes_next (is_ldrh_reg w) 0x5a00 0x5c00 w x _ _
                                                      (is_ldrh_reg_lem w small) lo
                                                      (three_registers w small 0x2d)
                                                      (λ lo.
                                                        takes_next (is_ldrb_reg w) 0x5c00 0x5e00 w x
                                                          _ _ (is_ldrb_reg_lem w small) lo
                                                          (three_registers w small 0x2e)
                                                          (λ lo.
                                                            takes_next (is_ldrsh_reg w) 0x5e00
                                                            0x6000 w x _ _
                                                            (is_ldrsh_reg_lem w small) lo
                                                            (three_registers w small 0x2f)
                                                            (λ lo.
                                                            takes_next (is_str_imm w) 0x6000 0x6800
                                                            w x _ _ (is_str_imm_lem w small) lo
                                                            (two_registers_imm5 w small 0xc)
                                                            (λ lo.
                                                            takes_next (is_ldr_imm w) 0x6800 0x7000
                                                            w x _ _ (is_ldr_imm_lem w small) lo
                                                            (two_registers_imm5 w small 0xd)
                                                            (λ lo.
                                                            takes_next (is_strb_imm w) 0x7000 0x7800
                                                            w x _ _ (is_strb_imm_lem w small) lo
                                                            (two_registers_imm5 w small 0xe)
                                                            (λ lo.
                                                            takes_next (is_ldrb_imm w) 0x7800 0x8000
                                                            w x _ _ (is_ldrb_imm_lem w small) lo
                                                            (two_registers_imm5 w small 0xf)
                                                            (λ lo.
                                                            takes_next (is_strh_imm w) 0x8000 0x8800
                                                            w x _ _ (is_strh_imm_lem w small) lo
                                                            (two_registers_imm5 w small 0x10)
                                                            (λ lo.
                                                            takes_next (is_ldrh_imm w) 0x8800 0x9000
                                                            w x _ _ (is_ldrh_imm_lem w small) lo
                                                            (two_registers_imm5 w small 0x11)
                                                            (λ lo.
                                                            takes_next (is_str_sp_imm w) 0x9000
                                                            0x9800 w x _ _
                                                            (is_str_sp_imm_lem w small) lo
                                                            (register_imm8 w small 0x12)
                                                            (λ lo.
                                                            takes_next (is_ldr_sp_imm w) 0x9800
                                                            0xa000 w x _ _
                                                            (is_ldr_sp_imm_lem w small) lo
                                                            (register_imm8 w small 0x13)
                                                            (λ lo.
                                                            takes_next (is_adr w) 0xa000 0xa800 w x
                                                            _ _ (is_adr_lem w small) lo
                                                            (register_imm8 w small 0x14)
                                                            (λ lo.
                                                            takes_next (is_add_sp_imm w) 0xa800
                                                            0xb000 w x _ _
                                                            (is_add_sp_imm_lem w small) lo
                                                            (register_imm8 w small 0x15)
                                                            (λ lo.
                                                            transfer-Encodes pair small
                                                            lo)))))))))))))))))))))))))
  where
    w : ℕ
    w = first pair

    x : ℕ
    x = second pair
