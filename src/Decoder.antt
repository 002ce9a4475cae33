-- ===== src/Decoder.antt =====
-- The decoder of micromachine/instruction/instruction_decoder.hpp. `decode` is the instruction that
-- `decode_instruction` dispatches; its two chains of tests are one chain here, in pieces.
-- NOP, which the source dispatches once more before them, to no effect, is dispatched once.
pub mod Arithmetic
pub mod Transfer
pub mod Wide
pub mod Words
pub mod Encoding
pub mod Reads
pub mod Fields
use micromachine.Base.{ℕ, ◌+◌, ◌*◌, ◌^◌, bit_or, not, ◌==◌, if◌then◌else◌}
use micromachine.Bits.{extract, bit_of}
use micromachine.Instruction.{
  Instruction, first, second, push_register_list, pop_register_list, nop, yield, wfe, wfi, sev, dsb,
  dmb, isb, undefined_hint, unpredictable, invalid_instruction, udf, udfw, lsl_imm, lsr_imm,
  asr_imm, add_reg, subs_reg, add_imm, subs_imm, mov_imm, add_sp_imm, adr, cmp_imm, add_imm_t2,
  subs_imm8, and_reg, eor_reg, lsl_reg, lsr_reg, asr_reg, adc, sbc, ror_reg, orr_reg, bic_reg,
  mul_reg, tst_reg, cmp_reg, cmn_reg, rsb_imm, mvn, movs, sxth, sxtb, uxth, uxtb, rev_word, rev16,
  revsh, add_highreg, cmp_highreg, mov_highreg, bx, blx, ldr_literal, str_sp_imm, ldr_sp_imm,
  str_reg, strh_reg, strb_reg, ldrsb_reg, ldr_reg, ldrh_reg, ldrb_reg, ldrsh_reg, str_imm, ldr_imm,
  strb_imm, ldrb_imm, strh_imm, ldrh_imm, add_sp_imm_t2, sub_sp_imm, stm, ldm, branch,
  unconditional_branch, svc, bkpt, push, pop, cps, bl_imm, msr, mrs,
}
use micromachine.Decoder.Arithmetic.{
  is_siadsumoco, is_data_processing, is_sdibe, is_lsl_imm, is_lsr_imm, is_asr_imm, is_add_reg,
  is_subs_reg, is_add_imm, is_subs_imm, is_mov_imm, is_cmp_imm, is_add_imm_t2, is_subs_imm8,
  is_and_reg, is_xor_reg, is_lsl_reg, is_lsr_reg, is_asr_reg, is_adc_reg, is_sbc, is_ror_reg,
  is_tst_reg, is_rsb_imm, is_cmn_reg, is_cmp_reg, is_orr_reg, is_mul_reg, is_bitclear_reg,
  is_not_reg, is_add_highreg, is_sdibe_unpredictable_0, is_cmp_highreg, is_mov_highreg, is_bx,
  is_blx,
}
use micromachine.Decoder.Transfer.{
  is_ldr_literal, is_str_reg, is_strh_reg, is_strb_reg, is_ldrsb_reg, is_ldr_reg, is_ldrh_reg,
  is_ldrb_reg, is_ldrsh_reg, is_str_imm, is_ldr_imm, is_strb_imm, is_ldrb_imm, is_strh_imm,
  is_ldrh_imm, is_str_sp_imm, is_ldr_sp_imm, is_adr, is_add_sp_imm, is_add_sp_imm_t2, is_sub_sp_imm,
  is_sxth, is_sxtb, is_uxth, is_uxtb, is_push, is_cps, is_rev_word, is_rev16, is_revsh, is_pop,
  is_breakpoint, is_hints, is_nop, is_stm, is_ldm, is_branch, is_svc, is_unconditional_branch,
  is_32bit_thumb_encoding, is_undefined,
}
use micromachine.Decoder.Wide.{
  is_32bit_thumb_br_misc_ctl, is_32bit_thumb_msr, is_32bit_thumb_mrs, is_32bit_thumb_udf,
  is_32bit_thumb_misc_ctl, is_32bit_thumb_misc_ctl_dsb, is_32bit_thumb_misc_ctl_dmb,
  is_32bit_thumb_misc_ctl_isb, is_32bit_thumb_bl, is_undefined32,
}

unfoldable pub decode_hint : ℕ → ℕ → Instruction
decode_hint opa opb =
    if not (opb == 0)
    then undefined_hint
    else if opa == 0
    then nop
    else if opa == 1
    then yield
    else if opa == 2
    then wfe
    else if opa == 3
    then wfi
    else if opa == 4
    then sev
    else undefined_hint

-- The 32-bit encodings.
unfoldable pub decode_wide : ℕ → Instruction
unfolding is_undefined32 is_32bit_thumb_br_misc_ctl is_32bit_thumb_bl is_32bit_thumb_misc_ctl_dsb
    is_32bit_thumb_misc_ctl_dmb is_32bit_thumb_misc_ctl_isb is_32bit_thumb_udf is_32bit_thumb_msr
    is_32bit_thumb_mrs first second bit_of
decode_wide pair =
    if is_undefined32 pair
    then udfw (bit_or (extract 16 0 4 (first pair) * 2 ^ 12) (extract 16 0 12 (second pair)))
    else if is_32bit_thumb_br_misc_ctl pair
    then (if is_32bit_thumb_bl pair
        then bl_imm (bit_of 13 (second pair)) (bit_of 11 (second pair)) (bit_of 10 (first pair))
            (extract 16 0 10 (first pair)) (extract 16 0 11 (second pair))
        else if is_32bit_thumb_misc_ctl_dsb pair
        then dsb
        else if is_32bit_thumb_misc_ctl_dmb pair
        then dmb
        else if is_32bit_thumb_misc_ctl_isb pair
        then isb
        else if is_32bit_thumb_udf pair
        then isb
        else if is_32bit_thumb_msr pair
        then msr (extract 16 0 4 (first pair)) (extract 16 0 8 (second pair))
        else if is_32bit_thumb_mrs pair
        then mrs (extract 16 8 4 (second pair)) (extract 16 0 8 (second pair))
        else invalid_instruction)
    else invalid_instruction

-- Miscellaneous 16-bit instructions, and what follows them.
unfoldable pub decode_transfer : ℕ → Instruction
unfolding is_add_sp_imm_t2 is_sub_sp_imm is_sxth is_sxtb is_uxth is_uxtb is_push is_cps is_rev_word
    is_rev16 is_revsh is_pop is_breakpoint is_hints is_stm is_ldm is_branch is_svc
    is_unconditional_branch is_32bit_thumb_encoding is_undefined decode_wide decode_hint first
    push_register_list pop_register_list bit_of
decode_transfer pair =
    if is_add_sp_imm_t2 instr
    then add_sp_imm_t2 (extract 16 0 7 instr)
    else if is_sub_sp_imm instr
    then sub_sp_imm (extract 16 0 7 instr)
    else if is_sxth instr
    then sxth (extract 16 0 3 instr) (extract 16 3 3 instr)
    else if is_sxtb instr
    then sxtb (extract 16 0 3 instr) (extract 16 3 3 instr)
    else if is_uxth instr
    then uxth (extract 16 0 3 instr) (extract 16 3 3 instr)
    else if is_uxtb instr
    then uxtb (extract 16 0 3 instr) (extract 16 3 3 instr)
    else if is_push instr
    then push (push_register_list instr)
    else if is_cps instr
    then cps (bit_of 4 instr)
    else if is_rev_word instr
    then rev_word (extract 16 0 3 instr) (extract 16 3 3 instr)
    else if is_rev16 instr
    then rev16 (extract 16 0 3 instr) (extract 16 3 3 instr)
    else if is_revsh instr
    then revsh (extract 16 0 3 instr) (extract 16 3 3 instr)
    else if is_pop instr
    then pop (pop_register_list instr)
    else if is_breakpoint instr
    then bkpt (extract 16 0 8 instr)
    else if is_hints instr
    then decode_hint (extract 16 0 4 instr) (extract 16 4 4 instr)
    else if is_stm instr
    then stm (extract 16 0 8 instr) (extract 16 8 3 instr)
    else if is_ldm instr
    then ldm (extract 16 0 8 instr) (extract 16 8 3 instr)
    else if is_branch instr
    then branch (extract 16 0 8 instr) (extract 16 8 4 instr)
    else if is_svc instr
    then svc (extract 16 0 8 instr)
    else if is_unconditional_branch instr
    then unconditional_branch (extract 16 0 11 instr)
    else if is_32bit_thumb_encoding instr
    then decode_wide pair
    else if is_undefined instr
    then udf (extract 16 0 8 instr)
    else invalid_instruction
  where
    instr : ℕ
    instr = first pair

-- Special data instructions, loads and stores.
unfoldable pub decode_special : ℕ → Instruction
unfolding is_add_highreg is_sdibe_unpredictable_0 is_cmp_highreg is_mov_highreg is_bx is_blx
    is_ldr_literal is_str_reg is_strh_reg is_strb_reg is_ldrsb_reg is_ldr_reg is_ldrh_reg
    is_ldrb_reg is_ldrsh_reg is_str_imm is_ldr_imm is_strb_imm is_ldrb_imm is_strh_imm is_ldrh_imm
    is_str_sp_imm is_ldr_sp_imm is_adr is_add_sp_imm first decode_transfer
decode_special pair =
    if is_add_highreg instr
    then add_highreg (extract 16 0 3 instr) (extract 16 3 4 instr) (extract 16 7 1 instr)
    else if is_sdibe_unpredictable_0 instr
    then unpredictable
    else if is_cmp_highreg instr
    then cmp_highreg (extract 16 0 3 instr) (extract 16 3 4 instr) (extract 16 7 1 instr)
    else if is_mov_highreg instr
    then mov_highreg (extract 16 0 3 instr) (extract 16 3 4 instr) (extract 16 7 1 instr)
    else if is_bx instr
    then bx (extract 16 3 4 instr)
    else if is_blx instr
    then blx (extract 16 3 4 instr)
    else if is_ldr_literal instr
    then ldr_literal (extract 16 0 8 instr) (extract 16 8 3 instr)
    else if is_str_reg instr
    then str_reg (extract 16 0 3 instr) (extract 16 3 3 instr) (extract 16 6 3 instr)
    else if is_strh_reg instr
    then strh_reg (extract 16 0 3 instr) (extract 16 3 3 instr) (extract 16 6 3 instr)
    else if is_strb_reg instr
    then strb_reg (extract 16 0 3 instr) (extract 16 3 3 instr) (extract 16 6 3 instr)
    else if is_ldrsb_reg instr
    then ldrsb_reg (extract 16 0 3 instr) (extract 16 3 3 instr) (extract 16 6 3 instr)
    else if is_ldr_reg instr
    then ldr_reg (extract 16 0 3 instr) (extract 16 3 3 instr) (extract 16 6 3 instr)
    else if is_ldrh_reg instr
    then ldrh_reg (extract 16 0 3 instr) (extract 16 3 3 instr) (extract 16 6 3 instr)
    else if is_ldrb_reg instr
    then ldrb_reg (extract 16 0 3 instr) (extract 16 3 3 instr) (extract 16 6 3 instr)
    else if is_ldrsh_reg instr
    then ldrsh_reg (extract 16 0 3 instr) (extract 16 3 3 instr) (extract 16 6 3 instr)
    else if is_str_imm instr
    then str_imm (extract 16 0 3 instr) (extract 16 3 3 instr) (extract 16 6 5 instr)
    else if is_ldr_imm instr
    then ldr_imm (extract 16 0 3 instr) (extract 16 3 3 instr) (extract 16 6 5 instr)
    else if is_strb_imm instr
    then strb_imm (extract 16 0 3 instr) (extract 16 3 3 instr) (extract 16 6 5 instr)
    else if is_ldrb_imm instr
    then ldrb_imm (extract 16 0 3 instr) (extract 16 3 3 instr) (extract 16 6 5 instr)
    else if is_strh_imm instr
    then strh_imm (extract 16 0 3 instr) (extract 16 3 3 instr) (extract 16 6 5 instr)
    else if is_ldrh_imm instr
    then ldrh_imm (extract 16 0 3 instr) (extract 16 3 3 instr) (extract 16 6 5 instr)
    else if is_str_sp_imm instr
    then str_sp_imm (extract 16 0 8 instr) (extract 16 8 3 instr)
    else if is_ldr_sp_imm instr
    then ldr_sp_imm (extract 16 0 8 instr) (extract 16 8 3 instr)
    else if is_adr instr
    then adr (extract 16 0 8 instr) (extract 16 8 3 instr)
    else if is_add_sp_imm instr
    then add_sp_imm (extract 16 0 8 instr) (extract 16 8 3 instr)
    else decode_transfer pair
  where
    instr : ℕ
    instr = first pair

unfoldable pub decode_data_processing : ℕ → Instruction
unfolding is_and_reg is_xor_reg is_lsl_reg is_lsr_reg is_asr_reg is_adc_reg is_sbc is_ror_reg
    is_tst_reg is_rsb_imm is_cmp_reg is_cmn_reg is_orr_reg is_mul_reg is_bitclear_reg is_not_reg
    first decode_special
decode_data_processing pair =
    if is_and_reg instr
    then and_reg (extract 16 0 3 instr) (extract 16 3 3 instr)
    else if is_xor_reg instr
    then eor_reg (extract 16 0 3 instr) (extract 16 3 3 instr)
    else if is_lsl_reg instr
    then lsl_reg (extract 16 0 3 instr) (extract 16 3 3 instr)
    else if is_lsr_reg instr
    then lsr_reg (extract 16 0 3 instr) (extract 16 3 3 instr)
    else if is_asr_reg instr
    then asr_reg (extract 16 0 3 instr) (extract 16 3 3 instr)
    else if is_adc_reg instr
    then adc (extract 16 0 3 instr) (extract 16 3 3 instr)
    else if is_sbc instr
    then sbc (extract 16 0 3 instr) (extract 16 3 3 instr)
    else if is_ror_reg instr
    then ror_reg (extract 16 0 3 instr) (extract 16 3 3 instr)
    else if is_tst_reg instr
    then tst_reg (extract 16 0 3 instr) (extract 16 3 3 instr)
    else if is_rsb_imm instr
    then rsb_imm (extract 16 0 3 instr) (extract 16 3 3 instr)
    else if is_cmp_reg instr
    then cmp_reg (extract 16 0 3 instr) (extract 16 3 3 instr)
    else if is_cmn_reg instr
    then cmn_reg (extract 16 0 3 instr) (extract 16 3 3 instr)
    else if is_orr_reg instr
    then orr_reg (extract 16 0 3 instr) (extract 16 3 3 instr)
    else if is_mul_reg instr
    then mul_reg (extract 16 0 3 instr) (extract 16 3 3 instr)
    else if is_bitclear_reg instr
    then bic_reg (extract 16 0 3 instr) (extract 16 3 3 instr)
    else if is_not_reg instr
    then mvn (extract 16 0 3 instr) (extract 16 3 3 instr)
    else decode_special pair
  where
    instr : ℕ
    instr = first pair

unfoldable pub decode : ℕ → Instruction
unfolding is_lsl_imm is_lsr_imm is_asr_imm is_add_reg is_subs_reg is_add_imm is_subs_imm is_mov_imm
    is_cmp_imm is_add_imm_t2 is_subs_imm8 first decode_data_processing
decode pair =
    if is_lsl_imm instr
    then (if extract 16 6 5 instr == 0
        then movs (extract 16 0 3 instr) (extract 16 3 3 instr)
        else lsl_imm (extract 16 0 3 instr) (extract 16 3 3 instr) (extract 16 6 5 instr))
    else if is_lsr_imm instr
    then lsr_imm (extract 16 0 3 instr) (extract 16 3 3 instr) (extract 16 6 5 instr)
    else if is_asr_imm instr
    then asr_imm (extract 16 0 3 instr) (extract 16 3 3 instr) (extract 16 6 5 instr)
    else if is_add_reg instr
    then add_reg (extract 16 0 3 instr) (extract 16 3 3 instr) (extract 16 6 3 instr)
    else if is_subs_reg instr
    then subs_reg (extract 16 0 3 instr) (extract 16 3 3 instr) (extract 16 6 3 instr)
    else if is_add_imm instr
    then add_imm (extract 16 0 3 instr) (extract 16 3 3 instr) (extract 16 6 3 instr)
    else if is_subs_imm instr
    then subs_imm (extract 16 0 3 instr) (extract 16 3 3 instr) (extract 16 6 3 instr)
    else if is_mov_imm instr
    then mov_imm (extract 16 0 8 instr) (extract 16 8 3 instr)
    else if is_cmp_imm instr
    then cmp_imm (extract 16 0 8 instr) (extract 16 8 3 instr)
    else if is_add_imm_t2 instr
    then add_imm_t2 (extract 16 0 8 instr) (extract 16 8 3 instr)
    else if is_subs_imm8 instr
    then subs_imm8 (extract 16 0 8 instr) (extract 16 8 3 instr)
    else decode_data_processing pair
  where
    instr : ℕ
    instr = first pair
