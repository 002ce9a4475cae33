-- ===== src/Decoder/Fields/Special.antt =====
-- The fields of the special data instructions and of the loads and stores of one register.
use micromachine.Base.{ℕ, arith}
use micromachine.Instruction.{first}
use micromachine.Decoder.Arithmetic.{
  is_add_highreg, is_sdibe_unpredictable_0, is_cmp_highreg, is_mov_highreg, is_bx, is_blx,
}
use micromachine.Decoder.Transfer.{
  is_ldr_literal, is_str_reg, is_strh_reg, is_strb_reg, is_ldrsb_reg, is_ldr_reg, is_ldrh_reg,
  is_ldrb_reg, is_ldrsh_reg, is_str_imm, is_ldr_imm, is_strb_imm, is_ldrb_imm, is_strh_imm,
  is_ldrh_imm, is_str_sp_imm, is_ldr_sp_imm, is_adr, is_add_sp_imm,
}
use micromachine.Decoder.{decode_special}
use micromachine.Decoder.Fields.Ranges.{IsInstruction, either, field}
use micromachine.Decoder.Fields.Transfers.{transfer-IsInstruction}

pub special-IsInstruction : (pair : ℕ) → IsInstruction (decode_special pair)
unfolding decode_special IsInstruction
special-IsInstruction pair =
    either (is_add_highreg instr) _ _
      (field 0 3 instr (omega arith), field 3 4 instr (omega arith), field 7 1 instr (omega arith))
      (either (is_sdibe_unpredictable_0 instr) _ _ tt (
        either (is_cmp_highreg instr) _ _
          (
            field 0 3 instr (omega arith),
            field 3 4 instr (omega arith),
            field 7 1 instr (omega arith),
          )
          (either (is_mov_highreg instr) _ _
            (
              field 0 3 instr (omega arith),
              field 3 4 instr (omega arith),
              field 7 1 instr (omega arith),
            )
            (either (is_bx instr) _ _ (field 3 4 instr (omega arith)) (
              either (is_blx instr) _ _ (field 3 4 instr (omega arith)) (
                either (is_ldr_literal instr) _ _
                  (field 0 8 instr (omega arith), field 8 3 instr (omega arith))
                  (either (is_str_reg instr) _ _
                    (
                      field 0 3 instr (omega arith),
                      field 3 3 instr (omega arith),
                      field 6 3 instr (omega arith),
                    )
                    (either (is_strh_reg instr) _ _
                      (
                        field 0 3 instr (omega arith),
                        field 3 3 instr (omega arith),
                        field 6 3 instr (omega arith),
                      )
                      (either (is_strb_reg instr) _ _
                        (
                          field 0 3 instr (omega arith),
                          field 3 3 instr (omega arith),
                          field 6 3 instr (omega arith),
                        )
                        (either (is_ldrsb_reg instr) _ _
                          (
                            field 0 3 instr (omega arith),
                            field 3 3 instr (omega arith),
                            field 6 3 instr (omega arith),
                          )
                          (either (is_ldr_reg instr) _ _
                            (
                              field 0 3 instr (omega arith),
                              field 3 3 instr (omega arith),
                              field 6 3 instr (omega arith),
                            )
                            (either (is_ldrh_reg instr) _ _
                              (
                                field 0 3 instr (omega arith),
                                field 3 3 instr (omega arith),
                                field 6 3 instr (omega arith),
                              )
                              (either (is_ldrb_reg instr) _ _
                                (
                                  field 0 3 instr (omega arith),
                                  field 3 3 instr (omega arith),
                                  field 6 3 instr (omega arith),
                                )
                                (either (is_ldrsh_reg instr) _ _
                                  (
                                    field 0 3 instr (omega arith),
                                    field 3 3 instr (omega arith),
                                    field 6 3 instr (omega arith),
                                  )
                                  (either (is_str_imm instr) _ _
                                    (
                                      field 0 3 instr (omega arith),
                                      field 3 3 instr (omega arith),
                                      field 6 5 instr (omega arith),
                                    )
                                    (either (is_ldr_imm instr) _ _
                                      (
                                        field 0 3 instr (omega arith),
                                        field 3 3 instr (omega arith),
                                        field 6 5 instr (omega arith),
                                      )
                                      (either (is_strb_imm instr) _ _
                                        (
                                          field 0 3 instr (omega arith),
                                          field 3 3 instr (omega arith),
                                          field 6 5 instr (omega arith),
                                        )
                                        (either (is_ldrb_imm instr) _ _
                                          (
                                            field 0 3 instr (omega arith),
                                            field 3 3 instr (omega arith),
                                            field 6 5 instr (omega arith),
                                          )
                                          (either (is_strh_imm instr) _ _
                                            (
                                              field 0 3 instr (omega arith),
                                              field 3 3 instr (omega arith),
                                              field 6 5 instr (omega arith),
                                            )
                                            (either (is_ldrh_imm instr) _ _
                                              (
                                                field 0 3 instr (omega arith),
                                                field 3 3 instr (omega arith),
                                                field 6 5 instr (omega arith),
                                              )
                                              (either (is_str_sp_imm instr) _ _
                                                (
                                                  field 0 8 instr (omega arith),
                                                  field 8 3 instr (omega arith),
                                                )
                                                (either (is_ldr_sp_imm instr) _ _
                                                  (
                                                    field 0 8 instr (omega arith),
                                                    field 8 3 instr (omega arith),
                                                  )
                                                  (either (is_adr instr) _ _
                                                    (
                                                      field 0 8 instr (omega arith),
                                                      field 8 3 instr (omega arith),
                                                    )
                                                    (either (is_add_sp_imm instr) _ _
                                                      (
                                                        field 0 8 instr (omega arith),
                                                        field 8 3 instr (omega arith),
                                                      )
                                                      (transfer-IsInstruction
                                                        pair)))))))))))))))))))))))))
  where
    instr : ℕ
    instr = first pair
