-- ===== src/Decoder/Fields/Ranges.antt =====
-- The ranges of the fields that micromachine/instruction/instruction_decoder.hpp
-- takes from a halfword.
use native.Mathlib.Nat.{mod-lt}
use micromachine.Base.{
  ℕ, ◌+◌, ◌*◌, ◌/◌, ◌^◌, ◌≤◌, ◌<◌, arith, bit_or, Bool, true, false, not, ◌==◌, if◌then◌else◌,
  of_bool,
}
use micromachine.Bits.{extract, read_uint, get_bit, make_mask}
use micromachine.Bits.Laws.{extract_arith, bit_and-mask, two_pow_pos}
use micromachine.Bits.Joins.{bit_or-joins, bit_or-joins_high}
use micromachine.Instruction.{
  Instruction, push_register_list, pop_register_list, nop, yield, wfe, wfi, sev, dsb, dmb, isb,
  undefined_hint, unpredictable, invalid_instruction, udf, udfw, lsl_imm, lsr_imm, asr_imm, add_reg,
  subs_reg, add_imm, subs_imm, mov_imm, add_sp_imm, adr, cmp_imm, add_imm_t2, subs_imm8, and_reg,
  eor_reg, lsl_reg, lsr_reg, asr_reg, adc, sbc, ror_reg, orr_reg, bic_reg, mul_reg, tst_reg,
  cmp_reg, cmn_reg, rsb_imm, mvn, movs, sxth, sxtb, uxth, uxtb, rev_word, rev16, revsh, add_highreg,
  cmp_highreg, mov_highreg, bx, blx, ldr_literal, str_sp_imm, ldr_sp_imm, str_reg, strh_reg,
  strb_reg, ldrsb_reg, ldr_reg, ldrh_reg, ldrb_reg, ldrsh_reg, str_imm, ldr_imm, strb_imm, ldrb_imm,
  strh_imm, ldrh_imm, add_sp_imm_t2, sub_sp_imm, stm, ldm, branch, unconditional_branch, svc, bkpt,
  push, pop, cps, bl_imm, msr, mrs,
}
use micromachine.Decoder.{decode_hint}

-- The fields are as wide as the bit layout says.
unfoldable pub IsInstruction : Instruction → Type 0
IsInstruction nop = Unit
IsInstruction yield = Unit
IsInstruction wfe = Unit
IsInstruction wfi = Unit
IsInstruction sev = Unit
IsInstruction dsb = Unit
IsInstruction dmb = Unit
IsInstruction isb = Unit
IsInstruction undefined_hint = Unit
IsInstruction unpredictable = Unit
IsInstruction invalid_instruction = Unit
IsInstruction (udf imm32) = imm32 < 2 ^ 8
IsInstruction (udfw imm32) = imm32 < 2 ^ 16
IsInstruction (lsl_imm rd rm imm5) = (rd < 2 ^ 3) × (rm < 2 ^ 3) × (imm5 < 2 ^ 5)
IsInstruction (lsr_imm rd rm imm5) = (rd < 2 ^ 3) × (rm < 2 ^ 3) × (imm5 < 2 ^ 5)
IsInstruction (asr_imm rd rm imm5) = (rd < 2 ^ 3) × (rm < 2 ^ 3) × (imm5 < 2 ^ 5)
IsInstruction (add_reg rd rn rm) = (rd < 2 ^ 3) × (rn < 2 ^ 3) × (rm < 2 ^ 3)
IsInstruction (subs_reg rd rn rm) = (rd < 2 ^ 3) × (rn < 2 ^ 3) × (rm < 2 ^ 3)
IsInstruction (add_imm rd rn imm3) = (rd < 2 ^ 3) × (rn < 2 ^ 3) × (imm3 < 2 ^ 3)
IsInstruction (subs_imm rd rn imm3) = (rd < 2 ^ 3) × (rn < 2 ^ 3) × (imm3 < 2 ^ 3)
IsInstruction (mov_imm imm8 rd) = (imm8 < 2 ^ 8) × (rd < 2 ^ 3)
IsInstruction (add_sp_imm imm8 rd) = (imm8 < 2 ^ 8) × (rd < 2 ^ 3)
IsInstruction (adr imm8 rd) = (imm8 < 2 ^ 8) × (rd < 2 ^ 3)
IsInstruction (cmp_imm imm8 rn) = (imm8 < 2 ^ 8) × (rn < 2 ^ 3)
IsInstruction (add_imm_t2 imm8 rdn) = (imm8 < 2 ^ 8) × (rdn < 2 ^ 3)
IsInstruction (subs_imm8 imm8 rdn) = (imm8 < 2 ^ 8) × (rdn < 2 ^ 3)
IsInstruction (and_reg rdn rm) = (rdn < 2 ^ 3) × (rm < 2 ^ 3)
IsInstruction (eor_reg rdn rm) = (rdn < 2 ^ 3) × (rm < 2 ^ 3)
IsInstruction (lsl_reg rdn rm) = (rdn < 2 ^ 3) × (rm < 2 ^ 3)
IsInstruction (lsr_reg rdn rm) = (rdn < 2 ^ 3) × (rm < 2 ^ 3)
IsInstruction (asr_reg rdn rm) = (rdn < 2 ^ 3) × (rm < 2 ^ 3)
IsInstruction (adc rdn rm) = (rdn < 2 ^ 3) × (rm < 2 ^ 3)
IsInstruction (sbc rdn rm) = (rdn < 2 ^ 3) × (rm < 2 ^ 3)
IsInstruction (ror_reg rdn rm) = (rdn < 2 ^ 3) × (rm < 2 ^ 3)
IsInstruction (orr_reg rdn rm) = (rdn < 2 ^ 3) × (rm < 2 ^ 3)
IsInstruction (bic_reg rdn rm) = (rdn < 2 ^ 3) × (rm < 2 ^ 3)
IsInstruction (mul_reg rdm rn) = (rdm < 2 ^ 3) × (rn < 2 ^ 3)
IsInstruction (tst_reg rn rm) = (rn < 2 ^ 3) × (rm < 2 ^ 3)
IsInstruction (cmp_reg rn rm) = (rn < 2 ^ 3) × (rm < 2 ^ 3)
IsInstruction (cmn_reg rn rm) = (rn < 2 ^ 3) × (rm < 2 ^ 3)
IsInstruction (rsb_imm rd rn) = (rd < 2 ^ 3) × (rn < 2 ^ 3)
IsInstruction (mvn rd rm) = (rd < 2 ^ 3) × (rm < 2 ^ 3)
IsInstruction (movs rd rm) = (rd < 2 ^ 3) × (rm < 2 ^ 3)
IsInstruction (sxth rd rm) = (rd < 2 ^ 3) × (rm < 2 ^ 3)
IsInstruction (sxtb rd rm) = (rd < 2 ^ 3) × (rm < 2 ^ 3)
IsInstruction (uxth rd rm) = (rd < 2 ^ 3) × (rm < 2 ^ 3)
IsInstruction (uxtb rd rm) = (rd < 2 ^ 3) × (rm < 2 ^ 3)
IsInstruction (rev_word rd rm) = (rd < 2 ^ 3) × (rm < 2 ^ 3)
IsInstruction (rev16 rd rm) = (rd < 2 ^ 3) × (rm < 2 ^ 3)
IsInstruction (revsh rd rm) = (rd < 2 ^ 3) × (rm < 2 ^ 3)
IsInstruction (add_highreg rdn rm dn) = (rdn < 2 ^ 3) × (rm < 2 ^ 4) × (dn < 2 ^ 1)
IsInstruction (cmp_highreg rn rm dm) = (rn < 2 ^ 3) × (rm < 2 ^ 4) × (dm < 2 ^ 1)
IsInstruction (mov_highreg rd rm d) = (rd < 2 ^ 3) × (rm < 2 ^ 4) × (d < 2 ^ 1)
IsInstruction (bx rm) = (rm < 2 ^ 4)
IsInstruction (blx rm) = (rm < 2 ^ 4)
IsInstruction (ldr_literal imm8 rt) = (imm8 < 2 ^ 8) × (rt < 2 ^ 3)
IsInstruction (str_sp_imm imm8 rt) = (imm8 < 2 ^ 8) × (rt < 2 ^ 3)
IsInstruction (ldr_sp_imm imm8 rt) = (imm8 < 2 ^ 8) × (rt < 2 ^ 3)
IsInstruction (str_reg rt rn rm) = (rt < 2 ^ 3) × (rn < 2 ^ 3) × (rm < 2 ^ 3)
IsInstruction (strh_reg rt rn rm) = (rt < 2 ^ 3) × (rn < 2 ^ 3) × (rm < 2 ^ 3)
IsInstruction (strb_reg rt rn rm) = (rt < 2 ^ 3) × (rn < 2 ^ 3) × (rm < 2 ^ 3)
IsInstruction (ldrsb_reg rt rn rm) = (rt < 2 ^ 3) × (rn < 2 ^ 3) × (rm < 2 ^ 3)
IsInstruction (ldr_reg rt rn rm) = (rt < 2 ^ 3) × (rn < 2 ^ 3) × (rm < 2 ^ 3)
IsInstruction (ldrh_reg rt rn rm) = (rt < 2 ^ 3) × (rn < 2 ^ 3) × (rm < 2 ^ 3)
IsInstruction (ldrb_reg rt rn rm) = (rt < 2 ^ 3) × (rn < 2 ^ 3) × (rm < 2 ^ 3)
IsInstruction (ldrsh_reg rt rn rm) = (rt < 2 ^ 3) × (rn < 2 ^ 3) × (rm < 2 ^ 3)
IsInstruction (str_imm rt rn imm5) = (rt < 2 ^ 3) × (rn < 2 ^ 3) × (imm5 < 2 ^ 5)
IsInstruction (ldr_imm rt rn imm5) = (rt < 2 ^ 3) × (rn < 2 ^ 3) × (imm5 < 2 ^ 5)
IsInstruction (strb_imm rt rn imm5) = (rt < 2 ^ 3) × (rn < 2 ^ 3) × (imm5 < 2 ^ 5)
IsInstruction (ldrb_imm rt rn imm5) = (rt < 2 ^ 3) × (rn < 2 ^ 3) × (imm5 < 2 ^ 5)
IsInstruction (strh_imm rt rn imm5) = (rt < 2 ^ 3) × (rn < 2 ^ 3) × (imm5 < 2 ^ 5)
IsInstruction (ldrh_imm rt rn imm5) = (rt < 2 ^ 3) × (rn < 2 ^ 3) × (imm5 < 2 ^ 5)
IsInstruction (add_sp_imm_t2 imm7) = (imm7 < 2 ^ 7)
IsInstruction (sub_sp_imm imm7) = (imm7 < 2 ^ 7)
IsInstruction (stm register_list rn) = (register_list < 2 ^ 8) × (rn < 2 ^ 3)
IsInstruction (ldm register_list rn) = (register_list < 2 ^ 8) × (rn < 2 ^ 3)
IsInstruction (branch imm8 cond) = (imm8 < 2 ^ 8) × (cond < 2 ^ 4)
IsInstruction (unconditional_branch imm11) = (imm11 < 2 ^ 11)
IsInstruction (svc imm8) = (imm8 < 2 ^ 8)
IsInstruction (bkpt imm8) = (imm8 < 2 ^ 8)
IsInstruction (push register_list) = register_list < 2 ^ 16
IsInstruction (pop register_list) = register_list < 2 ^ 16
IsInstruction (cps im) = Unit
IsInstruction (bl_imm j1 j2 s imm10 imm11) = (imm10 < 2 ^ 10) × (imm11 < 2 ^ 11)
IsInstruction (msr rn sysn) = (rn < 2 ^ 4) × (sysn < 2 ^ 8)
IsInstruction (mrs rd sysn) = (rd < 2 ^ 4) × (sysn < 2 ^ 8)

pub either :
    (b : Bool) (x y : Instruction)
    → IsInstruction x
    → IsInstruction y
    → IsInstruction (if b then x else y)
either true x y p q = p
either false x y p q = q

pub field : (o l x : ℕ) → l ≤ 16 → extract 16 o l x < 2 ^ l
field o l x h = omega (arith, extract_arith 16 o l x h, mod-lt (x / 2 ^ o) (two_pow_pos l))

-- A list of eight registers and one more.
list_small :
    (x n : ℕ) (b : Bool)
    → x < 2 ^ n
    → 2 ^ n + 2 ^ n ≤ 2 ^ 16
    → bit_or x (of_bool b * 2 ^ n) < 2 ^ 16
list_small x n b hx h = omega (arith, bit_or-joins n 1 x (of_bool b) hx (one b), width b)
  where
    one : (b : Bool) → of_bool b < 2 ^ 1
    one true = omega arith
    one false = omega arith

    width : (b : Bool) → of_bool b * 2 ^ n ≤ 2 ^ n
    width true = omega arith
    width false = omega arith

pub undefined_imm : (v v' : ℕ) → bit_or (extract 16 0 4 v * 2 ^ 12) (extract 16 0 12 v') < 2 ^ 16
undefined_imm v v' =
    omega
      (arith, high, low, bit_or-joins_high 12 4 (extract 16 0 12 v') (extract 16 0 4 v) low high)
  where
    high : extract 16 0 4 v < 2 ^ 4
    high = field 0 4 v (omega arith)

    low : extract 16 0 12 v' < 2 ^ 12
    low = field 0 12 v' (omega arith)

pub push_list : (instr : ℕ) → push_register_list instr < 2 ^ 16
unfolding push_register_list read_uint make_mask
push_list instr =
    list_small (read_uint 16 instr 0 8) 14 (get_bit instr 8)
      (omega (arith, bit_and-mask 8 (instr / 2 ^ 0))) (omega arith)

pub pop_list : (instr : ℕ) → pop_register_list instr < 2 ^ 16
unfolding pop_register_list read_uint make_mask
pop_list instr =
    list_small (read_uint 16 instr 0 8) 15 (get_bit instr 8)
      (omega (arith, bit_and-mask 8 (instr / 2 ^ 0))) (omega arith)

pub hint-IsInstruction : (opa opb : ℕ) → IsInstruction (decode_hint opa opb)
unfolding decode_hint IsInstruction
hint-IsInstruction opa opb = either (not (opb == 0)) _ _ tt (
    either (opa == 0) _ _ tt (
      either (opa == 1) _ _ tt
        (either (opa == 2) _ _ tt (either (opa == 3) _ _ tt (either (opa == 4) _ _ tt tt)))))
