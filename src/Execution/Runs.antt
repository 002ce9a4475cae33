-- ===== src/Execution/Runs.antt =====
-- Every instruction runs to its end (micromachine/execution/exec_dispatcher.hpp).
use micromachine.Base.{ℕ, ◌+◌, ◌*◌, ◌<◌, ◌≡◌, refl, List, map, All, some}
use micromachine.Execution.Transfers.{sum_address, offset_address, of_int8, of_int16}
use micromachine.Bits.{u32, u16, u8, aligned}
use micromachine.Instruction.{
  Instruction, nop, yield, wfe, wfi, sev, dsb, dmb, isb, undefined_hint, unpredictable,
  invalid_instruction, udf, udfw, lsl_imm, lsr_imm, asr_imm, add_reg, subs_reg, add_imm, subs_imm,
  mov_imm, add_sp_imm, adr, cmp_imm, add_imm_t2, subs_imm8, and_reg, eor_reg, lsl_reg, lsr_reg,
  asr_reg, adc, sbc, ror_reg, orr_reg, bic_reg, mul_reg, tst_reg, cmp_reg, cmn_reg, rsb_imm, mvn,
  movs, sxth, sxtb, uxth, uxtb, rev_word, rev16, revsh, add_highreg, cmp_highreg, mov_highreg, bx,
  blx, ldr_literal, str_sp_imm, ldr_sp_imm, str_reg, strh_reg, strb_reg, ldrsb_reg, ldr_reg,
  ldrh_reg, ldrb_reg, ldrsh_reg, str_imm, ldr_imm, strb_imm, ldrb_imm, strh_imm, ldrh_imm,
  add_sp_imm_t2, sub_sp_imm, stm, ldm, branch, unconditional_branch, svc, bkpt, push, pop, cps,
  bl_imm, msr, mrs,
}
use micromachine.Registers.{get_reg, set_reg, get_sp, get_pc, exception_number}
use micromachine.Machine.{Machine, byte, halfword, word}
use micromachine.Machine.Outcome.{Ends, Keeps, ended}
use micromachine.Machine.Memory.Shapes.{shape, IsWhole}
use micromachine.Machine.Memory.Sound.{Holds}
use micromachine.Execution.Transfers
use micromachine.Execution.Stack
use micromachine.Execution.Dispatch.{dispatch}
use micromachine.Execution.Defined.{IsAny, Keeps-store}
use micromachine.Execution.Lists.{Keeps-push, Keeps-stm, Keeps-ldm}
use micromachine.Execution.Returns.{IsReturnable, Keeps-pop, Keeps-done}
use micromachine.Execution.Effects.{
  HasDefinedShift, loaded, relax, loads, loads32, Keeps-wfe, Keeps-bkpt, Keeps-bx, Keeps-blx,
  Keeps-ror,
}

module _ (shapes : List (ℕ × ℕ × ℕ)) (whole : All IsWhole shapes) where
  abbrev I : Machine → Type 0
  I = Holds IsAny shapes

  abbrev R : Machine → Type 0
  R = Holds IsReturnable shapes

  pub runs : (i : Instruction) (m : Machine) → HasDefinedShift i m.cpu → R m → Ends I (dispatch i m)
  unfolding Keeps dispatch Ends Holds IsAny
  runs nop m fits i = (Keeps-done shapes whole) m i
  runs yield m fits i = (Keeps-done shapes whole) m i
  runs wfe m fits i = Keeps-wfe shapes whole m i
  runs wfi m fits i = (Keeps-done shapes whole) m i
  runs sev m fits i = (Keeps-done shapes whole) m i
  runs dsb m fits i = (Keeps-done shapes whole) m i
  runs dmb m fits i = (Keeps-done shapes whole) m i
  runs isb m fits i = (Keeps-done shapes whole) m i
  runs undefined_hint m fits i = (Keeps-done shapes whole) m i
  runs unpredictable m fits i = (Keeps-done shapes whole) m i
  runs invalid_instruction m fits i = (i.0, tt)
  runs (udf _) m fits i = (i.0, tt)
  runs (udfw _) m fits i = (i.0, tt)
  runs (lsl_imm rd rm imm5) m fits i = (i.0, tt)
  runs (lsr_imm rd rm imm5) m fits i = (i.0, tt)
  runs (asr_imm rd rm imm5) m fits i = (i.0, tt)
  runs (add_reg rd rn rm) m fits i = (i.0, tt)
  runs (subs_reg rd rn rm) m fits i = (i.0, tt)
  runs (add_imm rd rn imm3) m fits i = (i.0, tt)
  runs (subs_imm rd rn imm3) m fits i = (i.0, tt)
  runs (mov_imm imm8 rd) m fits i = (i.0, tt)
  runs (add_sp_imm imm8 rd) m fits i = (i.0, tt)
  runs (adr imm8 rd) m fits i = (i.0, tt)
  runs (cmp_imm imm8 rn) m fits i = (i.0, tt)
  runs (add_imm_t2 imm8 rdn) m fits i = (i.0, tt)
  runs (subs_imm8 imm8 rdn) m fits i = (i.0, tt)
  runs (and_reg rdn rm) m fits i = (i.0, tt)
  runs (eor_reg rdn rm) m fits i = (i.0, tt)
  runs (lsl_reg rdn rm) m fits i = (i.0, tt)
  runs (lsr_reg rdn rm) m fits i = (i.0, tt)
  runs (asr_reg rdn rm) m fits i = (i.0, tt)
  runs (adc rdn rm) m fits i = (i.0, tt)
  runs (sbc rdn rm) m fits i = (i.0, tt)
  runs (orr_reg rdn rm) m fits i = (i.0, tt)
  runs (bic_reg rdn rm) m fits i = (i.0, tt)
  runs (mul_reg rdm rn) m fits i = (i.0, tt)
  runs (tst_reg rn rm) m fits i = (i.0, tt)
  runs (cmp_reg rn rm) m fits i = (i.0, tt)
  runs (cmn_reg rn rm) m fits i = (i.0, tt)
  runs (rsb_imm rd rn) m fits i = (i.0, tt)
  runs (mvn rd rm) m fits i = (i.0, tt)
  runs (movs rd rm) m fits i = (i.0, tt)
  runs (sxth rd rm) m fits i = (i.0, tt)
  runs (sxtb rd rm) m fits i = (i.0, tt)
  runs (uxth rd rm) m fits i = (i.0, tt)
  runs (uxtb rd rm) m fits i = (i.0, tt)
  runs (rev_word rd rm) m fits i = (i.0, tt)
  runs (rev16 rd rm) m fits i = (i.0, tt)
  runs (revsh rd rm) m fits i = (i.0, tt)
  runs (add_highreg rdn rm dn) m fits i = (i.0, tt)
  runs (cmp_highreg rn rm dm) m fits i = (i.0, tt)
  runs (mov_highreg rd rm d) m fits i = (i.0, tt)
  runs (bx rm) m fits i = (Keeps-bx shapes whole rm) m i
  runs (blx rm) m fits i = (Keeps-blx shapes whole rm) m i
  runs (ldr_literal imm8 rt) m fits i =
      relax shapes whole (Transfers.ldr_literal imm8 rt)
        (loads32 shapes whole (λ c. u32 (aligned 4 (get_pc c) + imm8 * 4)) (set_reg rt)) m i
  runs (str_sp_imm imm8 rt) m fits i =
      relax shapes whole (Transfers.str_sp_imm imm8 rt)
        (Keeps-store IsAny shapes whole word (λ c. u32 (get_sp c + imm8 * 4)) (get_reg rt)) m i
  runs (ldr_sp_imm imm8 rt) m fits i =
      relax shapes whole (Transfers.ldr_sp_imm imm8 rt)
        (loads32 shapes whole (λ c. u32 (get_sp c + imm8 * 4)) (set_reg rt)) m i
  runs (str_reg rt rn rm) m fits i =
      relax shapes whole (Transfers.str_reg rt rn rm)
        (Keeps-store IsAny shapes whole word (sum_address rn rm) (get_reg rt)) m i
  runs (strh_reg rt rn rm) m fits i =
      relax shapes whole (Transfers.strh_reg rt rn rm)
        (Keeps-store IsAny shapes whole halfword (sum_address rn rm)
          (λ c. u16 (u16 (get_reg rt c))))
        m i
  runs (strb_reg rt rn rm) m fits i =
      relax shapes whole (Transfers.strb_reg rt rn rm)
        (Keeps-store IsAny shapes whole byte (sum_address rn rm) (λ c. u8 (u8 (get_reg rt c)))) m i
  runs (ldrsb_reg rt rn rm) m fits i =
      relax shapes whole (Transfers.ldrsb_reg rt rn rm)
        (loads shapes whole byte (sum_address rn rm) (loaded of_int8 rt)) m i
  runs (ldr_reg rt rn rm) m fits i =
      relax shapes whole (Transfers.ldr_reg rt rn rm)
        (loads shapes whole word (sum_address rn rm) (loaded (λ v. v) rt)) m i
  runs (ldrh_reg rt rn rm) m fits i =
      relax shapes whole (Transfers.ldrh_reg rt rn rm)
        (loads shapes whole halfword (sum_address rn rm) (loaded (λ v. v) rt)) m i
  runs (ldrb_reg rt rn rm) m fits i =
      relax shapes whole (Transfers.ldrb_reg rt rn rm)
        (loads shapes whole byte (sum_address rn rm) (loaded (λ v. v) rt)) m i
  runs (ldrsh_reg rt rn rm) m fits i =
      relax shapes whole (Transfers.ldrsh_reg rt rn rm)
        (loads shapes whole halfword (sum_address rn rm) (loaded of_int16 rt)) m i
  runs (str_imm rt rn imm5) m fits i =
      relax shapes whole (Transfers.str_imm rt rn imm5)
        (Keeps-store IsAny shapes whole word (offset_address rn (imm5 * 4)) (get_reg rt)) m i
  runs (ldr_imm rt rn imm5) m fits i =
      relax shapes whole (Transfers.ldr_imm rt rn imm5)
        (loads shapes whole word (offset_address rn (imm5 * 4)) (loaded (λ v. v) rt)) m i
  runs (strb_imm rt rn imm5) m fits i =
      relax shapes whole (Transfers.strb_imm rt rn imm5)
        (Keeps-store IsAny shapes whole byte (offset_address rn imm5) (λ c. u8 (u8 (get_reg rt c))))
        m i
  runs (ldrb_imm rt rn imm5) m fits i =
      relax shapes whole (Transfers.ldrb_imm rt rn imm5)
        (loads shapes whole byte (offset_address rn imm5) (loaded (λ v. v) rt)) m i
  runs (strh_imm rt rn imm5) m fits i =
      relax shapes whole (Transfers.strh_imm rt rn imm5)
        (Keeps-store IsAny shapes whole halfword (offset_address rn (imm5 * 2))
          (λ c. u16 (u16 (get_reg rt c))))
        m i
  runs (ldrh_imm rt rn imm5) m fits i =
      relax shapes whole (Transfers.ldrh_imm rt rn imm5)
        (loads shapes whole halfword (offset_address rn (imm5 * 2)) (loaded (λ v. v) rt)) m i
  runs (add_sp_imm_t2 imm7) m fits i = (i.0, tt)
  runs (sub_sp_imm imm7) m fits i = (i.0, tt)
  runs (stm register_list rn) m fits i =
      relax shapes whole (Stack.stm register_list rn) (Keeps-stm shapes whole register_list rn) m i
  runs (ldm register_list rn) m fits i =
      relax shapes whole (Stack.ldm register_list rn) (Keeps-ldm shapes whole register_list rn) m i
  runs (branch imm8 cond) m fits i = (i.0, tt)
  runs (unconditional_branch imm11) m fits i = (i.0, tt)
  runs (svc _) m fits i = (i.0, tt)
  runs (bkpt _) m fits i = Keeps-bkpt shapes whole m i
  runs (push register_list) m fits i =
      relax shapes whole (Stack.push register_list) (Keeps-push shapes whole register_list) m i
  runs (pop register_list) m fits i = (Keeps-pop shapes whole register_list) m i
  runs (cps im) m fits i = (i.0, tt)
  runs (bl_imm j1 j2 s imm10 imm11) m fits i = (i.0, tt)
  runs (msr rn sysn) m fits i = (i.0, tt)
  runs (mrs rd sysn) m fits i = (i.0, tt)
  runs (ror_reg rdn rm) m fits i = Keeps-ror shapes whole rdn rm m fits i

-- An instruction runs to its end, with no access behind the host's memory, no shift out of range
-- and no exception of the host, from every state in which each mapping is made of whole words with
-- a byte of host memory behind every address, the exception number is below 32 and, for a rotation
-- by a register, the shift is below 32. The mappings keep their addresses and their sizes.
pub dispatch_ends :
    (i : Instruction) (m : Machine)
    → All IsWhole (map shape m.regions)
    → exception_number m.cpu < 32
    → HasDefinedShift i m.cpu
    → (m' : Machine) × (dispatch i m ≡ some (tt, m')) × (map shape m'.regions ≡ map shape m.regions)
unfolding IsReturnable Holds
dispatch_ends i m whole number fits =
    let e =
      ended (Holds IsAny (map shape m.regions)) (dispatch i m)
        (runs (map shape m.regions) whole i m fits (refl, number)) in
    (e.1, e.2, e.3.0)
