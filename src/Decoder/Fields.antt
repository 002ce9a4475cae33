-- ===== src/Decoder/Fields.antt =====
-- The ranges of the fields of the instructions that
-- micromachine/instruction/instruction_decoder.hpp dispatches.
pub mod Ranges
mod Transfers
mod Special
use native.Mathlib.Nat.{mod-lt}
use micromachine.Base.{
  ℕ, ◌+◌, ◌*◌, ◌/◌, ◌^◌, ◌≤◌, ◌<◌, arith, bit_or, Bool, true, false, not, ◌==◌, if◌then◌else◌,
  of_bool,
}
use micromachine.Bits.{extract, read_uint, get_bit, make_mask}
use micromachine.Bits.Laws.{extract_arith, bit_and-mask, two_pow_pos}
use micromachine.Bits.Joins.{bit_or-joins}
use micromachine.Instruction.{
  Instruction, first, second, push_register_list, pop_register_list, nop, yield, wfe, wfi, sev, dsb,
  dmb, isb, undefined_hint, unpredictable, invalid_instruction, udf, udfw, lsl_imm, lsr_imm,
  asr_imm, add_reg, subs_reg, add_imm, subs_imm, mov_imm, add_sp_imm, adr, cmp_imm, add_imm_t2,
  subs_imm8, and_reg, eor_reg, lsl_reg, lsr_reg, asr_reg, adc, sbc, ror_reg, orr_reg, bic_reg,
  mul_reg, tst_reg, cmp_reg, cmn_reg, rsb_imm, mvn, movs, sxth, sxtb, uxth, uxtb, rev_word, rev16,
  revsh, add_highreg, cmp_highreg, mov_highreg, bx, blx, ldr_literal, str_sp_imm, ldr_sp_imm,
  str_reg, strh_reg, strb_reg, ldrsb_reg, ldr_reg, ldrh_reg, ldrb_reg, ldrsh_reg, str_imm, ldr_imm,
  strb_imm, ldrb_imm, strh_imm, ldrh_imm, add_sp_imm_t2, sub_sp_imm, stm, ldm, branch,
  unconditional_branch, svc, bkpt, push, pop, cps, bl_imm, msr, mrs,
}
use micromachine.Decoder.Arithmetic.{
  is_lsl_imm, is_lsr_imm, is_asr_imm, is_add_reg, is_subs_reg, is_add_imm, is_subs_imm, is_mov_imm,
  is_cmp_imm, is_add_imm_t2, is_subs_imm8, is_and_reg, is_xor_reg, is_lsl_reg, is_lsr_reg,
  is_asr_reg, is_adc_reg, is_sbc, is_ror_reg, is_tst_reg, is_rsb_imm, is_cmn_reg, is_cmp_reg,
  is_orr_reg, is_mul_reg, is_bitclear_reg, is_not_reg, is_add_highreg, is_sdibe_unpredictable_0,
  is_cmp_highreg, is_mov_highreg, is_bx, is_blx,
}
use micromachine.Decoder.Transfer.{
  is_ldr_literal, is_str_reg, is_strh_reg, is_strb_reg, is_ldrsb_reg, is_ldr_reg, is_ldrh_reg,
  is_ldrb_reg, is_ldrsh_reg, is_str_imm, is_ldr_imm, is_strb_imm, is_ldrb_imm, is_strh_imm,
  is_ldrh_imm, is_str_sp_imm, is_ldr_sp_imm, is_adr, is_add_sp_imm, is_add_sp_imm_t2, is_sub_sp_imm,
  is_sxth, is_sxtb, is_uxth, is_uxtb, is_push, is_cps, is_rev_word, is_rev16, is_revsh, is_pop,
  is_breakpoint, is_hints, is_stm, is_ldm, is_branch, is_svc, is_unconditional_branch,
  is_32bit_thumb_encoding, is_undefined,
}
use micromachine.Decoder.Wide.{
  is_32bit_thumb_br_misc_ctl, is_32bit_thumb_msr, is_32bit_thumb_mrs, is_32bit_thumb_udf,
  is_32bit_thumb_misc_ctl_dsb, is_32bit_thumb_misc_ctl_dmb, is_32bit_thumb_misc_ctl_isb,
  is_32bit_thumb_bl, is_undefined32,
}
use micromachine.Decoder.{
  decode_hint, decode_wide, decode_transfer, decode_special, decode_data_processing, decode,
}
use micromachine.Decoder.Fields.Ranges.{
  IsInstruction, either, field, push_list, pop_list, hint-IsInstruction,
}
use micromachine.Decoder.Fields.Special.{special-IsInstruction}

data_processing-IsInstruction : (pair : ℕ) → IsInstruction (decode_data_processing pair)
unfolding decode_data_processing IsInstruction
data_processing-IsInstruction pair =
    either (is_and_reg instr) _ _ (field 0 3 instr (omega arith), field 3 3 instr (omega arith))
      (either (is_xor_reg instr) _ _ (field 0 3 instr (omega arith), field 3 3 instr (omega arith))
        (either (is_lsl_reg instr) _ _
          (field 0 3 instr (omega arith), field 3 3 instr (omega arith))
          (either (is_lsr_reg instr) _ _
            (field 0 3 instr (omega arith), field 3 3 instr (omega arith))
            (either (is_asr_reg instr) _ _
              (field 0 3 instr (omega arith), field 3 3 instr (omega arith))
              (either (is_adc_reg instr) _ _
                (field 0 3 instr (omega arith), field 3 3 instr (omega arith))
                (either (is_sbc instr) _ _
                  (field 0 3 instr (omega arith), field 3 3 instr (omega arith))
                  (either (is_ror_reg instr) _ _
                    (field 0 3 instr (omega arith), field 3 3 instr (omega arith))
                    (either (is_tst_reg instr) _ _
                      (field 0 3 instr (omega arith), field 3 3 instr (omega arith))
                      (either (is_rsb_imm instr) _ _
                        (field 0 3 instr (omega arith), field 3 3 instr (omega arith))
                        (either (is_cmp_reg instr) _ _
                          (field 0 3 instr (omega arith), field 3 3 instr (omega arith))
                          (either (is_cmn_reg instr) _ _
                            (field 0 3 instr (omega arith), field 3 3 instr (omega arith))
                            (either (is_orr_reg instr) _ _
                              (field 0 3 instr (omega arith), field 3 3 instr (omega arith))
                              (either (is_mul_reg instr) _ _
                                (field 0 3 instr (omega arith), field 3 3 instr (omega arith))
                                (either (is_bitclear_reg instr) _ _
                                  (field 0 3 instr (omega arith), field 3 3 instr (omega arith))
                                  (either (is_not_reg instr) _ _
                                    (field 0 3 instr (omega arith), field 3 3 instr (omega arith))
                                    (special-IsInstruction pair))))))))))))))))
  where
    instr : ℕ
    instr = first pair

pub decode-IsInstruction : (pair : ℕ) → IsInstruction (decode pair)
unfolding decode IsInstruction
decode-IsInstruction pair =
    either (is_lsl_imm instr) _ _
      (either (extract 16 6 5 instr == 0) (movs (extract 16 0 3 instr) (extract 16 3 3 instr))
        (lsl_imm (extract 16 0 3 instr) (extract 16 3 3 instr) (extract 16 6 5 instr))
        (field 0 3 instr (omega arith), field 3 3 instr (omega arith))
        (
          field 0 3 instr (omega arith),
          field 3 3 instr (omega arith),
          field 6 5 instr (omega arith),
        ))
      (either (is_lsr_imm instr) _ _
        (
          field 0 3 instr (omega arith),
          field 3 3 instr (omega arith),
          field 6 5 instr (omega arith),
        )
        (either (is_asr_imm instr) _ _
          (
            field 0 3 instr (omega arith),
            field 3 3 instr (omega arith),
            field 6 5 instr (omega arith),
          )
          (either (is_add_reg instr) _ _
            (
              field 0 3 instr (omega arith),
              field 3 3 instr (omega arith),
              field 6 3 instr (omega arith),
            )
            (either (is_subs_reg instr) _ _
              (
                field 0 3 instr (omega arith),
                field 3 3 instr (omega arith),
                field 6 3 instr (omega arith),
              )
              (either (is_add_imm instr) _ _
                (
                  field 0 3 instr (omega arith),
                  field 3 3 instr (omega arith),
                  field 6 3 instr (omega arith),
                )
                (either (is_subs_imm instr) _ _
                  (
                    field 0 3 instr (omega arith),
                    field 3 3 instr (omega arith),
                    field 6 3 instr (omega arith),
                  )
                  (either (is_mov_imm instr) _ _
                    (field 0 8 instr (omega arith), field 8 3 instr (omega arith))
                    (either (is_cmp_imm instr) _ _
                      (field 0 8 instr (omega arith), field 8 3 instr (omega arith))
                      (either (is_add_imm_t2 instr) _ _
                        (field 0 8 instr (omega arith), field 8 3 instr (omega arith))
                        (either (is_subs_imm8 instr) _ _
                          (field 0 8 instr (omega arith), field 8 3 instr (omega arith))
                          (data_processing-IsInstruction pair)))))))))))
  where
    instr : ℕ
    instr = first pair
