-- ===== src/Execution/Dispatch.antt =====
-- micromachine/execution/exec_dispatcher.hpp: what is run for each instruction. The registers of an
-- instruction that only reads and writes registers are a function of the processor's state.
use micromachine.Base.{Option, none, some}
use micromachine.Instruction.{
  Instruction, nop, yield, wfe, wfi, sev, dsb, dmb, isb, undefined_hint, unpredictable,
  invalid_instruction, udf, udfw, lsl_imm, lsr_imm, asr_imm, add_reg, subs_reg, add_imm, subs_imm,
  mov_imm, add_sp_imm, adr, cmp_imm, add_imm_t2, subs_imm8, and_reg, eor_reg, lsl_reg, lsr_reg,
  asr_reg, adc, sbc, ror_reg, orr_reg, bic_reg, mul_reg, tst_reg, cmp_reg, cmn_reg, rsb_imm, mvn,
  movs, sxth, sxtb, uxth, uxtb, rev_word, rev16, revsh, add_highreg, cmp_highreg, mov_highreg, bx,
  blx, ldr_literal, str_sp_imm, ldr_sp_imm, str_reg, strh_reg, strb_reg, ldrsb_reg, ldr_reg,
  ldrh_reg, ldrb_reg, ldrsh_reg, str_imm, ldr_imm, strb_imm, ldrb_imm, strh_imm, ldrh_imm,
  add_sp_imm_t2, sub_sp_imm, stm, ldm, branch, unconditional_branch, svc, bkpt, push, pop, cps,
  bl_imm, msr, mrs,
}
use micromachine.Registers.{Cpu}
use micromachine.Exceptions.{ex_hardfault, ex_svcall}
use micromachine.Machine.{M, on_cpu, raise_exception}
use micromachine.Execution.Arithmetic
use micromachine.Execution.Moves
use micromachine.Execution.Transfers
use micromachine.Execution.Stack
use micromachine.Execution.Status

unfoldable pub try_cpu : (Cpu → Option Cpu) → M Unit
try_cpu f m = elim (f m.cpu) [ none ↦ none | some c ↦ some (tt, record m { cpu = c }) ]

skip : M Unit
skip m = some (tt, m)

unfoldable pub dispatch : Instruction → M Unit
unfolding try_cpu skip raise_exception Status.wfe Arithmetic.lsl_imm Arithmetic.lsr_imm
    Arithmetic.asr_imm Arithmetic.add_reg Arithmetic.subs_reg Arithmetic.add_imm Arithmetic.subs_imm
    Moves.mov_imm Moves.add_sp_imm Moves.adr Arithmetic.cmp_imm Arithmetic.add_imm_t2
    Arithmetic.subs_imm8 Moves.and_reg Moves.eor_reg Arithmetic.lsl_reg Arithmetic.lsr_reg
    Arithmetic.asr_reg Arithmetic.adc Arithmetic.sbc Arithmetic.ror_reg Moves.orr_reg Moves.bic_reg
    Moves.mul_reg Moves.tst_reg Arithmetic.cmp_reg Arithmetic.cmn_reg Arithmetic.rsb_imm Moves.mvn
    Moves.movs Moves.sxth Moves.sxtb Moves.uxth Moves.uxtb Moves.rev_word Moves.rev16 Moves.revsh
    Moves.add_highreg Moves.cmp_highreg Moves.mov_highreg Status.bx Status.blx Transfers.ldr_literal
    Transfers.str_sp_imm Transfers.ldr_sp_imm Transfers.str_reg Transfers.strh_reg
    Transfers.strb_reg Transfers.ldrsb_reg Transfers.ldr_reg Transfers.ldrh_reg Transfers.ldrb_reg
    Transfers.ldrsh_reg Transfers.str_imm Transfers.ldr_imm Transfers.strb_imm Transfers.ldrb_imm
    Transfers.strh_imm Transfers.ldrh_imm Moves.add_sp_imm_t2 Moves.sub_sp_imm Stack.stm Stack.ldm
    Status.branch Status.unconditional_branch Status.bkpt Stack.push Stack.pop Status.cps
    Status.bl_imm Status.msr Status.mrs
dispatch nop = skip
dispatch yield = skip
dispatch wfe = Status.wfe
dispatch wfi = skip
dispatch sev = skip
dispatch dsb = skip
dispatch dmb = skip
dispatch isb = skip
dispatch undefined_hint = skip
dispatch unpredictable = skip
dispatch invalid_instruction = raise_exception ex_hardfault
dispatch (udf _) = raise_exception ex_hardfault
dispatch (udfw _) = raise_exception ex_hardfault
dispatch (lsl_imm rd rm imm5) = on_cpu (Arithmetic.lsl_imm rd rm imm5)
dispatch (lsr_imm rd rm imm5) = on_cpu (Arithmetic.lsr_imm rd rm imm5)
dispatch (asr_imm rd rm imm5) = on_cpu (Arithmetic.asr_imm rd rm imm5)
dispatch (add_reg rd rn rm) = on_cpu (Arithmetic.add_reg rd rn rm)
dispatch (subs_reg rd rn rm) = on_cpu (Arithmetic.subs_reg rd rn rm)
dispatch (add_imm rd rn imm3) = on_cpu (Arithmetic.add_imm rd rn imm3)
dispatch (subs_imm rd rn imm3) = on_cpu (Arithmetic.subs_imm rd rn imm3)
dispatch (mov_imm imm8 rd) = on_cpu (Moves.mov_imm imm8 rd)
dispatch (add_sp_imm imm8 rd) = on_cpu (Moves.add_sp_imm imm8 rd)
dispatch (adr imm8 rd) = on_cpu (Moves.adr imm8 rd)
dispatch (cmp_imm imm8 rn) = on_cpu (Arithmetic.cmp_imm imm8 rn)
dispatch (add_imm_t2 imm8 rdn) = on_cpu (Arithmetic.add_imm_t2 imm8 rdn)
dispatch (subs_imm8 imm8 rdn) = on_cpu (Arithmetic.subs_imm8 imm8 rdn)
dispatch (and_reg rdn rm) = on_cpu (Moves.and_reg rdn rm)
dispatch (eor_reg rdn rm) = on_cpu (Moves.eor_reg rdn rm)
dispatch (lsl_reg rdn rm) = on_cpu (Arithmetic.lsl_reg rdn rm)
dispatch (lsr_reg rdn rm) = on_cpu (Arithmetic.lsr_reg rdn rm)
dispatch (asr_reg rdn rm) = on_cpu (Arithmetic.asr_reg rdn rm)
dispatch (adc rdn rm) = on_cpu (Arithmetic.adc rdn rm)
dispatch (sbc rdn rm) = on_cpu (Arithmetic.sbc rdn rm)
dispatch (ror_reg rdn rm) = try_cpu (Arithmetic.ror_reg rdn rm)
dispatch (orr_reg rdn rm) = on_cpu (Moves.orr_reg rdn rm)
dispatch (bic_reg rdn rm) = on_cpu (Moves.bic_reg rdn rm)
dispatch (mul_reg rdm rn) = on_cpu (Moves.mul_reg rdm rn)
dispatch (tst_reg rn rm) = on_cpu (Moves.tst_reg rn rm)
dispatch (cmp_reg rn rm) = on_cpu (Arithmetic.cmp_reg rn rm)
dispatch (cmn_reg rn rm) = on_cpu (Arithmetic.cmn_reg rn rm)
dispatch (rsb_imm rd rn) = on_cpu (Arithmetic.rsb_imm rd rn)
dispatch (mvn rd rm) = on_cpu (Moves.mvn rd rm)
dispatch (movs rd rm) = on_cpu (Moves.movs rd rm)
dispatch (sxth rd rm) = on_cpu (Moves.sxth rd rm)
dispatch (sxtb rd rm) = on_cpu (Moves.sxtb rd rm)
dispatch (uxth rd rm) = on_cpu (Moves.uxth rd rm)
dispatch (uxtb rd rm) = on_cpu (Moves.uxtb rd rm)
dispatch (rev_word rd rm) = on_cpu (Moves.rev_word rd rm)
dispatch (rev16 rd rm) = on_cpu (Moves.rev16 rd rm)
dispatch (revsh rd rm) = on_cpu (Moves.revsh rd rm)
dispatch (add_highreg rdn rm dn) = on_cpu (Moves.add_highreg rdn rm dn)
dispatch (cmp_highreg rn rm dm) = on_cpu (Moves.cmp_highreg rn rm dm)
dispatch (mov_highreg rd rm d) = on_cpu (Moves.mov_highreg rd rm d)
dispatch (bx rm) = Status.bx rm
dispatch (blx rm) = Status.blx rm
dispatch (ldr_literal imm8 rt) = Transfers.ldr_literal imm8 rt
dispatch (str_sp_imm imm8 rt) = Transfers.str_sp_imm imm8 rt
dispatch (ldr_sp_imm imm8 rt) = Transfers.ldr_sp_imm imm8 rt
dispatch (str_reg rt rn rm) = Transfers.str_reg rt rn rm
dispatch (strh_reg rt rn rm) = Transfers.strh_reg rt rn rm
dispatch (strb_reg rt rn rm) = Transfers.strb_reg rt rn rm
dispatch (ldrsb_reg rt rn rm) = Transfers.ldrsb_reg rt rn rm
dispatch (ldr_reg rt rn rm) = Transfers.ldr_reg rt rn rm
dispatch (ldrh_reg rt rn rm) = Transfers.ldrh_reg rt rn rm
dispatch (ldrb_reg rt rn rm) = Transfers.ldrb_reg rt rn rm
dispatch (ldrsh_reg rt rn rm) = Transfers.ldrsh_reg rt rn rm
dispatch (str_imm rt rn imm5) = Transfers.str_imm rt rn imm5
dispatch (ldr_imm rt rn imm5) = Transfers.ldr_imm rt rn imm5
dispatch (strb_imm rt rn imm5) = Transfers.strb_imm rt rn imm5
dispatch (ldrb_imm rt rn imm5) = Transfers.ldrb_imm rt rn imm5
dispatch (strh_imm rt rn imm5) = Transfers.strh_imm rt rn imm5
dispatch (ldrh_imm rt rn imm5) = Transfers.ldrh_imm rt rn imm5
dispatch (add_sp_imm_t2 imm7) = on_cpu (Moves.add_sp_imm_t2 imm7)
dispatch (sub_sp_imm imm7) = on_cpu (Moves.sub_sp_imm imm7)
dispatch (stm register_list rn) = Stack.stm register_list rn
dispatch (ldm register_list rn) = Stack.ldm register_list rn
dispatch (branch imm8 cond) = on_cpu (Status.branch imm8 cond)
dispatch (unconditional_branch imm11) = on_cpu (Status.unconditional_branch imm11)
dispatch (svc _) = raise_exception ex_svcall
dispatch (bkpt _) = Status.bkpt
dispatch (push register_list) = Stack.push register_list
dispatch (pop register_list) = Stack.pop register_list
dispatch (cps im) = on_cpu (Status.cps im)
dispatch (bl_imm j1 j2 s imm10 imm11) = on_cpu (Status.bl_imm j1 j2 s imm10 imm11)
dispatch (msr rn sysn) = on_cpu (Status.msr rn sysn)
dispatch (mrs rd sysn) = on_cpu (Status.mrs rd sysn)
