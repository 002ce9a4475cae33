-- ===== src/Execution/Status.antt =====
-- micromachine/execution/exec.hpp: branches, the special registers, and the hints.
use micromachine.Base.{
  ℕ, ◌+◌, ◌-◌, ◌^◌, not, ltb, Bool, true, false, ◌==◌, if◌then◌else◌, of_bool, some,
}
use micromachine.Bits.{u32, extract, write_bits, aligned, bit_of, set_bit_of}
use micromachine.Instruction.{branch_offset, unconditional_branch_offset, bl_offset}
use micromachine.Registers.{
  Cpu, main, process, is_in_thread_mode, get_reg, set_reg, get_pc, set_pc, get_specific_banked_sp,
  set_specific_banked_sp, set_sp_sel, pm, set_pm, condition_passed, exception_number,
}
use micromachine.Machine.{M, modify, on_cpu, ask_cpu, ◌>>=◌, ◌>>◌}
use micromachine.Execution.Context.{branch_interworking, branch_link_interworking}

unfoldable pub bx : ℕ → M Unit
unfolding get_reg branch_interworking
bx rm = do address ← ask_cpu (get_reg rm); branch_interworking address

unfoldable pub blx : ℕ → M Unit
unfolding get_reg get_pc set_bit_of branch_link_interworking
blx rm = do
  pc ← ask_cpu get_pc
  jump_addr ← ask_cpu (get_reg rm)
  on_cpu (λ c. record c { lr = set_bit_of 0 (u32 (pc + (2 ^ 32 - 2))) true })
  branch_link_interworking jump_addr

unfoldable pub branch : ℕ → ℕ → Cpu → Cpu
unfolding condition_passed branch_offset get_pc set_pc
branch imm8 cond c =
    if not (condition_passed cond c) then c else set_pc (u32 (get_pc c + branch_offset imm8)) c

unfoldable pub unconditional_branch : ℕ → Cpu → Cpu
unfolding unconditional_branch_offset get_pc set_pc
unconditional_branch imm11 c = set_pc (u32 (get_pc c + unconditional_branch_offset imm11)) c

unfoldable pub bl_imm : Bool → Bool → Bool → ℕ → ℕ → Cpu → Cpu
unfolding bl_offset get_pc set_pc set_bit_of
bl_imm j1 j2 s imm10 imm11 c =
    let linked : Cpu = record c { lr = set_bit_of 0 (get_pc c) true } in
    set_pc (u32 (get_pc c + bl_offset j1 j2 s imm10 imm11)) linked

unfoldable pub cps : Bool → Cpu → Cpu
unfolding set_pm
cps im c = set_pm im c

-- The word that MRS reads from the program status register.
unfoldable pub status_of : ℕ → Cpu → ℕ
unfolding exception_number bit_of set_bit_of write_bits
status_of sysn c =
    let with_ipsr = if bit_of 0 sysn then write_bits 32 0 0 (exception_number c) 0 8 else 0 in
    let with_epsr = if bit_of 1 sysn then set_bit_of 24 with_ipsr false else with_ipsr in
    if not (bit_of 2 sysn) then write_bits 32 with_epsr 27 c.xpsr 27 5 else with_epsr

unfoldable pub mrs : ℕ → ℕ → Cpu → Cpu
unfolding extract status_of get_specific_banked_sp pm write_bits set_reg
mrs rd sysn c = set_reg rd val c
  where
    val : ℕ
    val =
        if extract 8 3 5 sysn == 0
        then status_of sysn c
        else if sysn == 0b00001000
        then get_specific_banked_sp main c
        else if sysn == 0b00001001
        then get_specific_banked_sp process c
        else if sysn == 0b00010000
        then of_bool (pm c)
        else if sysn == 0b00010100
        then write_bits 32 0 0 c.control 0 2
        else 0

-- `n_priv() = ...` and `sp_sel() = ...`
set_control : ℕ → Cpu → Cpu
unfolding bit_of set_bit_of set_sp_sel
set_control val c =
    set_sp_sel (bit_of 1 val) (record c { control = set_bit_of 0 c.control (bit_of 0 val) })

unfoldable pub msr : ℕ → ℕ → Cpu → Cpu
unfolding get_reg write_bits aligned set_specific_banked_sp set_pm bit_of set_control
msr rn sysn c =
    if ltb sysn 4
    then record c { xpsr = write_bits 32 c.xpsr 28 val 28 4 }
    else if sysn == 0b00001000
    then set_specific_banked_sp main (aligned 4 val) c
    else if sysn == 0b00001001
    then set_specific_banked_sp process (aligned 4 val) c
    else if sysn == 0b00010000
    then set_pm (bit_of 0 val) c
    else if sysn == 0b00010100
    then (if is_in_thread_mode c.mode then set_control val c else c)
    else c
  where
    val : ℕ
    val = get_reg rn c

unfoldable pub bkpt : M Unit
bkpt = modify (λ m. record m { signals = record m.signals { halt = true } })

unfoldable pub wfe : M Unit
wfe m =
    if m.cpu.event
    then some (tt, record m { cpu = record m.cpu { event = false } })
    else some (tt, record m { signals = record m.signals { enter_low_power = true } })
