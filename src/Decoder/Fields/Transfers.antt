-- ===== src/Decoder/Fields/Transfers.antt =====
-- The fields of the loads and stores of several registers, the branches and the 32-bit instructions.
use micromachine.Base.{ℕ, arith}
use micromachine.Bits.{extract}
use micromachine.Instruction.{first, second}
use micromachine.Decoder.Transfer.{
  is_add_sp_imm_t2, is_sub_sp_imm, is_sxth, is_sxtb, is_uxth, is_uxtb, is_push, is_cps, is_rev_word,
  is_rev16, is_revsh, is_pop, is_breakpoint, is_hints, is_stm, is_ldm, is_branch, is_svc,
  is_unconditional_branch, is_32bit_thumb_encoding, is_undefined,
}
use micromachine.Decoder.Wide.{
  is_32bit_thumb_br_misc_ctl, is_32bit_thumb_msr, is_32bit_thumb_mrs, is_32bit_thumb_udf,
  is_32bit_thumb_misc_ctl_dsb, is_32bit_thumb_misc_ctl_dmb, is_32bit_thumb_misc_ctl_isb,
  is_32bit_thumb_bl, is_undefined32,
}
use micromachine.Decoder.{decode_wide, decode_transfer}
use micromachine.Decoder.Fields.Ranges.{
  IsInstruction, either, field, push_list, pop_list, hint-IsInstruction, undefined_imm,
}

wide-IsInstruction : (pair : ℕ) → IsInstruction (decode_wide pair)
unfolding decode_wide IsInstruction
wide-IsInstruction pair =
    either (is_undefined32 pair) _ _ (undefined_imm (first pair) (second pair)) (
      either (is_32bit_thumb_br_misc_ctl pair) _ _
        (either (is_32bit_thumb_bl pair) _ _
          (field 0 10 (first pair) (omega arith), field 0 11 (second pair) (omega arith))
          (either (is_32bit_thumb_misc_ctl_dsb pair) _ _ tt (
            either (is_32bit_thumb_misc_ctl_dmb pair) _ _ tt (
              either (is_32bit_thumb_misc_ctl_isb pair) _ _ tt (
                either (is_32bit_thumb_udf pair) _ _ tt (
                  either (is_32bit_thumb_msr pair) _ _
                    (field 0 4 (first pair) (omega arith), field 0 8 (second pair) (omega arith))
                    (either (is_32bit_thumb_mrs pair) _ _
                      (field 8 4 (second pair) (omega arith), field 0 8 (second pair) (omega arith))
                      tt)))))))
        tt)

pub transfer-IsInstruction : (pair : ℕ) → IsInstruction (decode_transfer pair)
unfolding decode_transfer IsInstruction
transfer-IsInstruction pair = either (is_add_sp_imm_t2 instr) _ _ (field 0 7 instr (omega arith)) (
    either (is_sub_sp_imm instr) _ _ (field 0 7 instr (omega arith)) (
      either (is_sxth instr) _ _ (field 0 3 instr (omega arith), field 3 3 instr (omega arith))
        (either (is_sxtb instr) _ _ (field 0 3 instr (omega arith), field 3 3 instr (omega arith))
          (either (is_uxth instr) _ _ (field 0 3 instr (omega arith), field 3 3 instr (omega arith))
            (either (is_uxtb instr) _ _
              (field 0 3 instr (omega arith), field 3 3 instr (omega arith))
              (either (is_push instr) _ _ (push_list instr) (
                either (is_cps instr) _ _ tt (
                  either (is_rev_word instr) _ _
                    (field 0 3 instr (omega arith), field 3 3 instr (omega arith))
                    (either (is_rev16 instr) _ _
                      (field 0 3 instr (omega arith), field 3 3 instr (omega arith))
                      (either (is_revsh instr) _ _
                        (field 0 3 instr (omega arith), field 3 3 instr (omega arith))
                        (either (is_pop instr) _ _ (pop_list instr) (
                          either (is_breakpoint instr) _ _ (field 0 8 instr (omega arith)) (
                            either (is_hints instr) _ _
                              (hint-IsInstruction (extract 16 0 4 instr) (extract 16 4 4 instr))
                              (either (is_stm instr) _ _
                                (field 0 8 instr (omega arith), field 8 3 instr (omega arith))
                                (either (is_ldm instr) _ _
                                  (field 0 8 instr (omega arith), field 8 3 instr (omega arith))
                                  (either (is_branch instr) _ _
                                    (field 0 8 instr (omega arith), field 8 4 instr (omega arith))
                                    (either (is_svc instr) _ _ (field 0 8 instr (omega arith)) (
                                      either (is_unconditional_branch instr) _ _
                                        (field 0 11 instr (omega arith))
                                        (either (is_32bit_thumb_encoding instr) _ _
                                          (wide-IsInstruction pair)
                                          (either (is_undefined instr) _ _
                                            (field 0 8 instr (omega arith)) tt))))))))))))))))))))
  where
    instr : ℕ
    instr = first pair
