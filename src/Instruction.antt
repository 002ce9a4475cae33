-- ===== src/Instruction.antt =====
-- The instructions of micromachine/instruction/instructions.hpp with the fields that their bit layouts
-- select, and micromachine/instruction/instruction_pair.hpp.
pub mod Offsets
use micromachine.Base.{
  ℕ, ◌+◌, ◌*◌, ◌^◌, bit_or, Bool, not, ◌&&◌, ◌==◌, if◌then◌else◌, of_bool, bool_eq,
}
use micromachine.Bits.{extract, read_uint, get_bit, bit_of, sign}

-- `udf` is the 16-bit undefined instruction and `udfw` the wide one. `undefined_hint` and
-- `unpredictable` are the encodings on which the decoder dispatches nothing, and
-- `invalid_instruction` those that it hands to that function.
pub data Instruction : Type 0 where
  nop yield wfe wfi sev dsb dmb isb : Instruction
  undefined_hint unpredictable invalid_instruction : Instruction
  udf udfw : ℕ → Instruction
  lsl_imm lsr_imm asr_imm : (rd rm imm5 : ℕ) → Instruction
  add_reg subs_reg : (rd rn rm : ℕ) → Instruction
  add_imm subs_imm : (rd rn imm3 : ℕ) → Instruction
  mov_imm add_sp_imm adr : (imm8 rd : ℕ) → Instruction
  cmp_imm : (imm8 rn : ℕ) → Instruction
  add_imm_t2 subs_imm8 : (imm8 rdn : ℕ) → Instruction
  and_reg eor_reg lsl_reg lsr_reg asr_reg adc sbc ror_reg orr_reg bic_reg :
      (rdn rm : ℕ) → Instruction
  mul_reg : (rdm rn : ℕ) → Instruction
  tst_reg cmp_reg cmn_reg : (rn rm : ℕ) → Instruction
  rsb_imm : (rd rn : ℕ) → Instruction
  mvn movs sxth sxtb uxth uxtb rev_word rev16 revsh : (rd rm : ℕ) → Instruction
  add_highreg : (rdn rm dn : ℕ) → Instruction
  cmp_highreg : (rn rm dm : ℕ) → Instruction
  mov_highreg : (rd rm d : ℕ) → Instruction
  bx blx : (rm : ℕ) → Instruction
  ldr_literal str_sp_imm ldr_sp_imm : (imm8 rt : ℕ) → Instruction
  str_reg strh_reg strb_reg ldrsb_reg ldr_reg ldrh_reg ldrb_reg ldrsh_reg :
      (rt rn rm : ℕ) → Instruction
  str_imm ldr_imm strb_imm ldrb_imm strh_imm ldrh_imm : (rt rn imm5 : ℕ) → Instruction
  add_sp_imm_t2 sub_sp_imm : (imm7 : ℕ) → Instruction
  stm ldm : (register_list rn : ℕ) → Instruction
  branch : (imm8 cond : ℕ) → Instruction
  unconditional_branch : (imm11 : ℕ) → Instruction
  svc bkpt : (imm8 : ℕ) → Instruction
  push pop : (register_list : ℕ) → Instruction
  cps : (im : Bool) → Instruction
  bl_imm : (j1 j2 s : Bool) → (imm10 imm11 : ℕ) → Instruction
  msr : (rn sysn : ℕ) → Instruction
  mrs : (rd sysn : ℕ) → Instruction

-- instruction_pair
unfoldable pub first : ℕ → ℕ
unfolding extract
first pair = extract 32 0 16 pair

unfoldable pub second : ℕ → ℕ
unfolding extract
second pair = extract 32 16 16 pair

unfoldable pub is_wide_thumb_encoding : ℕ → Bool
unfolding extract
is_wide_thumb_encoding instr =
    extract 16 13 3 instr == 0b111
    && not (extract 16 11 2 instr == 0)
    && not (extract 16 11 1 instr == 1)

unfoldable pub instruction_size : ℕ → ℕ
unfolding is_wide_thumb_encoding first
instruction_size pair = 2 + of_bool (is_wide_thumb_encoding (first pair)) * 2

-- standard_push_register_list and standard_pop_register_list
unfoldable pub push_register_list : ℕ → ℕ
unfolding read_uint get_bit
push_register_list instr = bit_or (read_uint 16 instr 0 8) (of_bool (get_bit instr 8) * 2 ^ 14)

unfoldable pub pop_register_list : ℕ → ℕ
unfolding read_uint get_bit
pop_register_list instr = bit_or (read_uint 16 instr 0 8) (of_bool (get_bit instr 8) * 2 ^ 15)

-- `high_rd` and `high_rn`: the register that the four bits of two fields name.
unfoldable pub high_register : ℕ → ℕ → ℕ
high_register low d = d * 8 + low

-- The offsets of the branches, as 32-bit words in two's complement.
unfoldable pub branch_offset : ℕ → ℕ
unfolding sign
branch_offset imm8 = sign 32 (imm8 * 2) 9

unfoldable pub unconditional_branch_offset : ℕ → ℕ
unfolding sign
unconditional_branch_offset imm11 = sign 32 (imm11 * 2) 12

unfoldable pub bl_offset : Bool → Bool → Bool → ℕ → ℕ → ℕ
unfolding sign
bl_offset j1 j2 s imm10 imm11 =
    let i1 = bool_eq j1 s in
    let i2 = bool_eq j2 s in
    let high = bit_or (bit_or (of_bool i2 * 2 ^ 21) (of_bool i1 * 2 ^ 22)) (of_bool s * 2 ^ 23) in
    sign 32 (bit_or (bit_or imm11 (imm10 * 2 ^ 11)) high * 2) 25
