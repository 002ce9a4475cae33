-- ===== src/Decoder/Reads.antt =====
-- What `decode_instruction` of micromachine/instruction/instruction_decoder.hpp makes of a word.
pub mod Layouts
pub mod Steps
mod Wide
mod Transfer
mod Special
use micromachine.Base.{
  ℕ, ◌+◌, ◌*◌, ◌/◌, ◌%◌, ◌^◌, ◌<◌, ◌≤◌, ◌≡◌, refl, sym, ap, arith, ◌∙◌, Bool, true, false, not,
  ◌&&◌, ◌||◌, ltb, leb, ◌==◌, if◌then◌else◌,
}
use micromachine.Bits.{extract}
use micromachine.Bits.Laws.{extract_arith}
use micromachine.Instruction.{Instruction, first, second, movs, lsl_imm, udf}
use micromachine.Decoder.Encoding.{Encodes, unallocated, unallocated_wide}
use micromachine.Decoder.Reads.Steps.{choose, takes, takes_next, takes_from, From}
use micromachine.Decoder.Arithmetic.{
  is_lsl_imm, is_lsr_imm, is_asr_imm, is_add_reg, is_subs_reg, is_add_imm, is_subs_imm, is_mov_imm,
  is_cmp_imm, is_add_imm_t2, is_subs_imm8, is_and_reg, is_xor_reg, is_lsl_reg, is_lsr_reg,
  is_asr_reg, is_adc_reg, is_sbc, is_ror_reg, is_tst_reg, is_rsb_imm, is_cmp_reg, is_cmn_reg,
  is_orr_reg, is_mul_reg, is_bitclear_reg, is_not_reg,
}
use micromachine.Decoder.Words.Arithmetic.{
  is_lsl_imm_lem, is_lsr_imm_lem, is_asr_imm_lem, is_add_reg_lem, is_subs_reg_lem, is_add_imm_lem,
  is_subs_imm_lem, is_mov_imm_lem, is_cmp_imm_lem, is_add_imm_t2_lem, is_subs_imm8_lem,
  is_and_reg_lem, is_xor_reg_lem, is_lsl_reg_lem, is_lsr_reg_lem, is_asr_reg_lem, is_adc_reg_lem,
  is_sbc_lem, is_ror_reg_lem, is_tst_reg_lem, is_rsb_imm_lem, is_cmp_reg_lem, is_cmn_reg_lem,
  is_orr_reg_lem, is_mul_reg_lem, is_bitclear_reg_lem, is_not_reg_lem,
}
use micromachine.Decoder.Reads.Layouts.{
  condition_imm8, immediate7, immediate8, interrupt_mask, popped_list, pushed_list, register_imm8,
  three_registers, two_registers, two_registers_imm5,
}
use micromachine.Decoder.{decode_data_processing, decode}
use micromachine.Decoder.Fields.Ranges.{IsInstruction}
use micromachine.Decoder.Fields.{decode-IsInstruction}
use micromachine.Decoder.Reads.Special.{special-Encodes}

data_processing-Encodes :
    (pair : ℕ)
    → first pair < 2 ^ 16
    → 0x4000 ≤ first pair
    → Encodes (decode_data_processing pair) (first pair) (second pair)
unfolding decode_data_processing Encodes
data_processing-Encodes pair small lo =
    takes_next (is_and_reg w) 0x4000 0x4040 w x _ _ (is_and_reg_lem w small) lo
      (two_registers w small 0x100)
      (λ lo.
        takes_next (is_xor_reg w) 0x4040 0x4080 w x _ _ (is_xor_reg_lem w small) lo
          (two_registers w small 0x101)
          (λ lo.
            takes_next (is_lsl_reg w) 0x4080 0x40c0 w x _ _ (is_lsl_reg_lem w small) lo
              (two_registers w small 0x102)
              (λ lo.
                takes_next (is_lsr_reg w) 0x40c0 0x4100 w x _ _ (is_lsr_reg_lem w small) lo
                  (two_registers w small 0x103)
                  (λ lo.
                    takes_next (is_asr_reg w) 0x4100 0x4140 w x _ _ (is_asr_reg_lem w small) lo
                      (two_registers w small 0x104)
                      (λ lo.
                        takes_next (is_adc_reg w) 0x4140 0x4180 w x _ _ (is_adc_reg_lem w small) lo
                          (two_registers w small 0x105)
                          (λ lo.
                            takes_next (is_sbc w) 0x4180 0x41c0 w x _ _ (is_sbc_lem w small) lo
                              (two_registers w small 0x106)
                              (λ lo.
                                takes_next (is_ror_reg w) 0x41c0 0x4200 w x _ _
                                  (is_ror_reg_lem w small) lo (two_registers w small 0x107)
                                  (λ lo.
                                    takes_next (is_tst_reg w) 0x4200 0x4240 w x _ _
                                      (is_tst_reg_lem w small) lo (two_registers w small 0x108)
                                      (λ lo.
                                        takes_next (is_rsb_imm w) 0x4240 0x4280 w x _ _
                                          (is_rsb_imm_lem w small) lo (two_registers w small 0x109)
                                          (λ lo.
                                            takes_next (is_cmp_reg w) 0x4280 0x42c0 w x _ _
                                              (is_cmp_reg_lem w small) lo
                                              (two_registers w small 0x10a)
                                              (λ lo.
                                                takes_next (is_cmn_reg w) 0x42c0 0x4300 w x _ _
                                                  (is_cmn_reg_lem w small) lo
                                                  (two_registers w small 0x10b)
                                                  (λ lo.
                                                    takes_next (is_orr_reg w) 0x4300 0x4340 w x _ _
                                                      (is_orr_reg_lem w small) lo
                                                      (two_registers w small 0x10c)
                                                      (λ lo.
                                                        takes_next (is_mul_reg w) 0x4340 0x4380 w x
                                                          _ _ (is_mul_reg_lem w small) lo
                                                          (two_registers w small 0x10d)
                                                          (λ lo.
                                                            takes_next (is_bitclear_reg w) 0x4380
                                                            0x43c0 w x _ _
                                                            (is_bitclear_reg_lem w small) lo
                                                            (two_registers w small 0x10e)
                                                            (λ lo.
                                                            takes_next (is_not_reg w) 0x43c0 0x4400
                                                            w x _ _ (is_not_reg_lem w small) lo
                                                            (two_registers w small 0x10f)
                                                            (λ lo.
                                                            special-Encodes pair small
                                                            lo))))))))))))))))
  where
    w : ℕ
    w = first pair

    x : ℕ
    x = second pair

-- A shift by 0 is MOVS.
lsl_or_movs :
    (w x : ℕ)
    → w < 2 ^ 16
    → 0x0000 ≤ w
    → w < 0x0800
    → Encodes
        (if extract 16 6 5 w == 0
          then movs (extract 16 0 3 w) (extract 16 3 3 w)
          else lsl_imm (extract 16 0 3 w) (extract 16 3 3 w) (extract 16 6 5 w))
        w
        x
unfolding Encodes
lsl_or_movs w x small lo hi =
    choose (extract 16 6 5 w == 0) _ w x _ _ refl
      (λ h. ground (arith, two_registers_imm5 w small 0 lo hi))
      (λ h. (ground arith, two_registers_imm5 w small 0 lo hi))

small_first : (pair : ℕ) → first pair < 2 ^ 16
unfolding first
small_first pair = omega (arith, extract_arith 32 0 16 pair (omega arith))

reads : (pair : ℕ) → first pair < 2 ^ 16 → Encodes (decode pair) (first pair) (second pair)
unfolding decode Encodes
reads pair small =
    takes_next (is_lsl_imm w) 0x0000 0x0800 w x _ _ (is_lsl_imm_lem w small) (omega arith)
      (lsl_or_movs w x small)
      (λ lo.
        takes_next (is_lsr_imm w) 0x0800 0x1000 w x _ _ (is_lsr_imm_lem w small) lo
          (two_registers_imm5 w small 0x1)
          (λ lo.
            takes_next (is_asr_imm w) 0x1000 0x1800 w x _ _ (is_asr_imm_lem w small) lo
              (two_registers_imm5 w small 0x2)
              (λ lo.
                takes_next (is_add_reg w) 0x1800 0x1a00 w x _ _ (is_add_reg_lem w small) lo
                  (three_registers w small 0xc)
                  (λ lo.
                    takes_next (is_subs_reg w) 0x1a00 0x1c00 w x _ _ (is_subs_reg_lem w small) lo
                      (three_registers w small 0xd)
                      (λ lo.
                        takes_next (is_add_imm w) 0x1c00 0x1e00 w x _ _ (is_add_imm_lem w small) lo
                          (three_registers w small 0xe)
                          (λ lo.
                            takes_next (is_subs_imm w) 0x1e00 0x2000 w x _ _
                              (is_subs_imm_lem w small) lo (three_registers w small 0xf)
                              (λ lo.
                                takes_next (is_mov_imm w) 0x2000 0x2800 w x _ _
                                  (is_mov_imm_lem w small) lo (register_imm8 w small 0x4)
                                  (λ lo.
                                    takes_next (is_cmp_imm w) 0x2800 0x3000 w x _ _
                                      (is_cmp_imm_lem w small) lo (register_imm8 w small 0x5)
                                      (λ lo.
                                        takes_next (is_add_imm_t2 w) 0x3000 0x3800 w x _ _
                                          (is_add_imm_t2_lem w small) lo (register_imm8 w small 0x6)
                                          (λ lo.
                                            takes_next (is_subs_imm8 w) 0x3800 0x4000 w x _ _
                                              (is_subs_imm8_lem w small) lo
                                              (register_imm8 w small 0x7)
                                              (λ lo.
                                                data_processing-Encodes pair small lo)))))))))))
  where
    w : ℕ
    w = first pair

    x : ℕ
    x = second pair

-- For every word of memory the decoder yields the instruction whose encoding the word is, with its
-- fields at their places and in range, and `invalid_instruction` only for a word that is the encoding
-- of none. The encodings are those of the program where it deviates from the architecture: a hint
-- has its number in the four low bits, and the 32-bit words of the permanently undefined space but
-- those of UDF are ISB. The reserved bits of BX, BLX, CPS, MSR, MRS and the barriers are not looked
-- at.
pub decode-Encodes :
    (pair : ℕ) → IsInstruction (decode pair) × Encodes (decode pair) (first pair) (second pair)
decode-Encodes pair = (decode-IsInstruction pair, reads pair (small_first pair))
