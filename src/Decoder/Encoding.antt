-- ===== src/Decoder/Encoding.antt =====
-- The encodings of the ARMv6-M instructions, against which
-- micromachine/instruction/instruction_decoder.hpp is compared.
use micromachine.Base.{
  ℕ, ◌+◌, ◌*◌, ◌/◌, ◌%◌, ◌^◌, ◌<◌, ◌≤◌, ◌≡◌, Bool, true, not, ◌&&◌, ◌||◌, ltb, leb, ◌==◌, of_bool,
}
use micromachine.Instruction.{
  Instruction, nop, yield, wfe, wfi, sev, dsb, dmb, isb, undefined_hint, unpredictable,
  invalid_instruction, udf, udfw, lsl_imm, lsr_imm, asr_imm, add_reg, subs_reg, add_imm, subs_imm,
  mov_imm, add_sp_imm, adr, cmp_imm, add_imm_t2, subs_imm8, and_reg, eor_reg, lsl_reg, lsr_reg,
  asr_reg, adc, sbc, ror_reg, orr_reg, bic_reg, mul_reg, tst_reg, cmp_reg, cmn_reg, rsb_imm, mvn,
  movs, sxth, sxtb, uxth, uxtb, rev_word, rev16, revsh, add_highreg, cmp_highreg, mov_highreg, bx,
  blx, ldr_literal, str_sp_imm, ldr_sp_imm, str_reg, strh_reg, strb_reg, ldrsb_reg, ldr_reg,
  ldrh_reg, ldrb_reg, ldrsh_reg, str_imm, ldr_imm, strb_imm, ldrb_imm, strh_imm, ldrh_imm,
  add_sp_imm_t2, sub_sp_imm, stm, ldm, branch, unconditional_branch, svc, bkpt, push, pop, cps,
  bl_imm, msr, mrs,
}

-- The 16-bit words that stand for no instruction.
unfoldable pub unallocated : ℕ → Bool
unallocated w =
    leb 0xb100 w && ltb w 0xb200
    || leb 0xb300 w && ltb w 0xb400
    || leb 0xb600 w && ltb w 0xb660
    || leb 0xb680 w && ltb w 0xba00
    || leb 0xba80 w && ltb w 0xbac0
    || leb 0xbb00 w && ltb w 0xbc00

-- The forms of the 32-bit instructions, by their first and their second halfword.
unfoldable pub is_control : ℕ → Bool
is_control x = x / 2 ^ 14 == 2 && x / 2 ^ 12 % 2 == 0

unfoldable pub is_barrier : ℕ → ℕ → ℕ → Bool
unfolding is_control
is_barrier op w x = w / 2 ^ 4 == 0xf3b && is_control x && x / 2 ^ 4 % 2 ^ 4 == op

unfoldable pub is_udf_w : ℕ → ℕ → Bool
unfolding is_control
is_udf_w w x = w / 2 ^ 4 == 0xf7f && is_control x

unfoldable pub is_msr : ℕ → ℕ → Bool
unfolding is_control
is_msr w x = w / 2 ^ 5 == 0x79c && is_control x

unfoldable pub is_mrs : ℕ → ℕ → Bool
unfolding is_control
is_mrs w x = w / 2 ^ 5 == 0x79f && is_control x

unfoldable pub is_bl : ℕ → ℕ → Bool
is_bl w x = w / 2 ^ 11 == 0x1e && x / 2 ^ 14 == 3 && x / 2 ^ 12 % 2 == 1

-- The 32-bit words that stand for no instruction.
unfoldable pub unallocated_wide : ℕ → ℕ → Bool
unfolding is_barrier is_udf_w is_msr is_mrs is_bl
unallocated_wide w x =
    leb 0xe800 w
    && not (is_bl w x)
    && not (is_barrier 4 w x)
    && not (is_barrier 5 w x)
    && not (is_barrier 6 w x)
    && not (is_udf_w w x)
    && not (is_msr w x)
    && not (is_mrs w x)

-- The halfwords `w` and `x` stand for the instruction. A 16-bit instruction is `w` alone.
-- The hints are as the program reads them, with the number of the hint in the four low bits, and
-- ISB stands for the permanently undefined words of 32 bits too, but those of UDF.
unfoldable pub Encodes : Instruction → ℕ → ℕ → Type 0
unfolding unallocated unallocated_wide is_barrier is_udf_w is_msr is_mrs
Encodes (movs rd rm) w x = w ≡ 0x0000 + rm * 2 ^ 3 + rd
Encodes (lsl_imm rd rm imm5) w x = (1 ≤ imm5) × (w ≡ 0x0000 + imm5 * 2 ^ 6 + rm * 2 ^ 3 + rd)
Encodes (lsr_imm rd rm imm5) w x = w ≡ 0x0800 + imm5 * 2 ^ 6 + rm * 2 ^ 3 + rd
Encodes (asr_imm rd rm imm5) w x = w ≡ 0x1000 + imm5 * 2 ^ 6 + rm * 2 ^ 3 + rd
Encodes (add_reg rd rn rm) w x = w ≡ 0x1800 + rm * 2 ^ 6 + rn * 2 ^ 3 + rd
Encodes (subs_reg rd rn rm) w x = w ≡ 0x1a00 + rm * 2 ^ 6 + rn * 2 ^ 3 + rd
Encodes (add_imm rd rn imm3) w x = w ≡ 0x1c00 + imm3 * 2 ^ 6 + rn * 2 ^ 3 + rd
Encodes (subs_imm rd rn imm3) w x = w ≡ 0x1e00 + imm3 * 2 ^ 6 + rn * 2 ^ 3 + rd
Encodes (mov_imm imm8 rd) w x = w ≡ 0x2000 + rd * 2 ^ 8 + imm8
Encodes (cmp_imm imm8 rn) w x = w ≡ 0x2800 + rn * 2 ^ 8 + imm8
Encodes (add_imm_t2 imm8 rdn) w x = w ≡ 0x3000 + rdn * 2 ^ 8 + imm8
Encodes (subs_imm8 imm8 rdn) w x = w ≡ 0x3800 + rdn * 2 ^ 8 + imm8
Encodes (and_reg rdn rm) w x = w ≡ 0x4000 + rm * 2 ^ 3 + rdn
Encodes (eor_reg rdn rm) w x = w ≡ 0x4040 + rm * 2 ^ 3 + rdn
Encodes (lsl_reg rdn rm) w x = w ≡ 0x4080 + rm * 2 ^ 3 + rdn
Encodes (lsr_reg rdn rm) w x = w ≡ 0x40c0 + rm * 2 ^ 3 + rdn
Encodes (asr_reg rdn rm) w x = w ≡ 0x4100 + rm * 2 ^ 3 + rdn
Encodes (adc rdn rm) w x = w ≡ 0x4140 + rm * 2 ^ 3 + rdn
Encodes (sbc rdn rm) w x = w ≡ 0x4180 + rm * 2 ^ 3 + rdn
Encodes (ror_reg rdn rm) w x = w ≡ 0x41c0 + rm * 2 ^ 3 + rdn
Encodes (tst_reg rn rm) w x = w ≡ 0x4200 + rm * 2 ^ 3 + rn
Encodes (rsb_imm rd rn) w x = w ≡ 0x4240 + rn * 2 ^ 3 + rd
Encodes (cmp_reg rn rm) w x = w ≡ 0x4280 + rm * 2 ^ 3 + rn
Encodes (cmn_reg rn rm) w x = w ≡ 0x42c0 + rm * 2 ^ 3 + rn
Encodes (orr_reg rdn rm) w x = w ≡ 0x4300 + rm * 2 ^ 3 + rdn
Encodes (mul_reg rdm rn) w x = w ≡ 0x4340 + rn * 2 ^ 3 + rdm
Encodes (bic_reg rdn rm) w x = w ≡ 0x4380 + rm * 2 ^ 3 + rdn
Encodes (mvn rd rm) w x = w ≡ 0x43c0 + rm * 2 ^ 3 + rd
Encodes (add_highreg rdn rm dn) w x = w ≡ 0x4400 + dn * 2 ^ 7 + rm * 2 ^ 3 + rdn
Encodes unpredictable w x = w / 2 ^ 6 ≡ 0x114
Encodes (cmp_highreg rn rm dm) w x = (0x4540 ≤ w) × (w ≡ 0x4500 + dm * 2 ^ 7 + rm * 2 ^ 3 + rn)
Encodes (mov_highreg rd rm d) w x = w ≡ 0x4600 + d * 2 ^ 7 + rm * 2 ^ 3 + rd
Encodes (bx rm) w x = w / 2 ^ 3 ≡ 0x8e0 + rm
Encodes (blx rm) w x = w / 2 ^ 3 ≡ 0x8f0 + rm
Encodes (ldr_literal imm8 rt) w x = w ≡ 0x4800 + rt * 2 ^ 8 + imm8
Encodes (str_reg rt rn rm) w x = w ≡ 0x5000 + rm * 2 ^ 6 + rn * 2 ^ 3 + rt
Encodes (strh_reg rt rn rm) w x = w ≡ 0x5200 + rm * 2 ^ 6 + rn * 2 ^ 3 + rt
Encodes (strb_reg rt rn rm) w x = w ≡ 0x5400 + rm * 2 ^ 6 + rn * 2 ^ 3 + rt
Encodes (ldrsb_reg rt rn rm) w x = w ≡ 0x5600 + rm * 2 ^ 6 + rn * 2 ^ 3 + rt
Encodes (ldr_reg rt rn rm) w x = w ≡ 0x5800 + rm * 2 ^ 6 + rn * 2 ^ 3 + rt
Encodes (ldrh_reg rt rn rm) w x = w ≡ 0x5a00 + rm * 2 ^ 6 + rn * 2 ^ 3 + rt
Encodes (ldrb_reg rt rn rm) w x = w ≡ 0x5c00 + rm * 2 ^ 6 + rn * 2 ^ 3 + rt
Encodes (ldrsh_reg rt rn rm) w x = w ≡ 0x5e00 + rm * 2 ^ 6 + rn * 2 ^ 3 + rt
Encodes (str_imm rt rn imm5) w x = w ≡ 0x6000 + imm5 * 2 ^ 6 + rn * 2 ^ 3 + rt
Encodes (ldr_imm rt rn imm5) w x = w ≡ 0x6800 + imm5 * 2 ^ 6 + rn * 2 ^ 3 + rt
Encodes (strb_imm rt rn imm5) w x = w ≡ 0x7000 + imm5 * 2 ^ 6 + rn * 2 ^ 3 + rt
Encodes (ldrb_imm rt rn imm5) w x = w ≡ 0x7800 + imm5 * 2 ^ 6 + rn * 2 ^ 3 + rt
Encodes (strh_imm rt rn imm5) w x = w ≡ 0x8000 + imm5 * 2 ^ 6 + rn * 2 ^ 3 + rt
Encodes (ldrh_imm rt rn imm5) w x = w ≡ 0x8800 + imm5 * 2 ^ 6 + rn * 2 ^ 3 + rt
Encodes (str_sp_imm imm8 rt) w x = w ≡ 0x9000 + rt * 2 ^ 8 + imm8
Encodes (ldr_sp_imm imm8 rt) w x = w ≡ 0x9800 + rt * 2 ^ 8 + imm8
Encodes (adr imm8 rd) w x = w ≡ 0xa000 + rd * 2 ^ 8 + imm8
Encodes (add_sp_imm imm8 rd) w x = w ≡ 0xa800 + rd * 2 ^ 8 + imm8
Encodes (add_sp_imm_t2 imm7) w x = w ≡ 0xb000 + imm7
Encodes (sub_sp_imm imm7) w x = w ≡ 0xb080 + imm7
Encodes (sxth rd rm) w x = w ≡ 0xb200 + rm * 2 ^ 3 + rd
Encodes (sxtb rd rm) w x = w ≡ 0xb240 + rm * 2 ^ 3 + rd
Encodes (uxth rd rm) w x = w ≡ 0xb280 + rm * 2 ^ 3 + rd
Encodes (uxtb rd rm) w x = w ≡ 0xb2c0 + rm * 2 ^ 3 + rd
Encodes (push list) w x =
    (w ≡ 0xb400 + list / 2 ^ 14 * 2 ^ 8 + list % 2 ^ 8)
    × (list ≡ list / 2 ^ 14 * 2 ^ 14 + list % 2 ^ 8)
Encodes (pop list) w x =
    (w ≡ 0xbc00 + list / 2 ^ 15 * 2 ^ 8 + list % 2 ^ 8)
    × (list ≡ list / 2 ^ 15 * 2 ^ 15 + list % 2 ^ 8)
Encodes (cps im) w x = w / 2 ^ 4 ≡ 0xb66 + of_bool im
Encodes (rev_word rd rm) w x = w ≡ 0xba00 + rm * 2 ^ 3 + rd
Encodes (rev16 rd rm) w x = w ≡ 0xba40 + rm * 2 ^ 3 + rd
Encodes (revsh rd rm) w x = w ≡ 0xbac0 + rm * 2 ^ 3 + rd
Encodes (bkpt imm8) w x = w ≡ 0xbe00 + imm8
Encodes nop w x = w ≡ 0xbf00
Encodes yield w x = w ≡ 0xbf01
Encodes wfe w x = w ≡ 0xbf02
Encodes wfi w x = w ≡ 0xbf03
Encodes sev w x = w ≡ 0xbf04
Encodes undefined_hint w x = (0xbf05 ≤ w) × (w < 0xc000)
Encodes (stm list rn) w x = w ≡ 0xc000 + rn * 2 ^ 8 + list
Encodes (ldm list rn) w x = w ≡ 0xc800 + rn * 2 ^ 8 + list
Encodes (branch imm8 cond) w x = (w ≡ 0xd000 + cond * 2 ^ 8 + imm8) × (cond < 14)
Encodes (svc imm8) w x = w ≡ 0xdf00 + imm8
Encodes (udf imm32) w x = w ≡ 0xde00 + imm32
Encodes (unconditional_branch imm11) w x = w ≡ 0xe000 + imm11
Encodes (udfw imm32) w x = (w ≡ 0xf7f0 + imm32 / 2 ^ 12) × (x ≡ 0xa000 + imm32 % 2 ^ 12)
Encodes (bl_imm j1 j2 s imm10 imm11) w x =
    (w ≡ 0xf000 + of_bool s * 2 ^ 10 + imm10)
    × (x ≡ 0xd000 + of_bool j1 * 2 ^ 13 + of_bool j2 * 2 ^ 11 + imm11)
Encodes dsb w x = is_barrier 4 w x ≡ true
Encodes dmb w x = is_barrier 5 w x ≡ true
Encodes isb w x = is_barrier 6 w x || is_udf_w w x && not (x / 2 ^ 12 == 10) ≡ true
Encodes (msr rn sysn) w x = (is_msr w x ≡ true) × (rn ≡ w % 2 ^ 4) × (sysn ≡ x % 2 ^ 8)
Encodes (mrs rd sysn) w x = (is_mrs w x ≡ true) × (rd ≡ x / 2 ^ 8 % 2 ^ 4) × (sysn ≡ x % 2 ^ 8)
Encodes invalid_instruction w x = unallocated w || unallocated_wide w x ≡ true
