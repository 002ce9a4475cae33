-- ===== src/Registers/Core.antt =====
-- micromachine/registers/core_registers: the banked stack pointer, the program counter and the
-- register file.
use micromachine.Base.{ℕ, zero, suc, ◌+◌, bit_and, true, false, ltb, ◌==◌, if◌then◌else◌, update}
use micromachine.Registers.State.{Cpu, is_in_thread_mode, sp_sel}

-- sp_reg
pub data StackType : Type 0 where
  main process : StackType

unfoldable pub get_specific_banked_sp : StackType → Cpu → ℕ
get_specific_banked_sp main c = c.sp_main
get_specific_banked_sp process c = c.sp_process

unfoldable pub set_specific_banked_sp : StackType → ℕ → Cpu → Cpu
set_specific_banked_sp main word c = record c { sp_main = word }
set_specific_banked_sp process word c = record c { sp_process = word }

-- Which bank `current_banked_value` refers to.
unfoldable pub current_bank : Cpu → StackType
unfolding sp_sel
current_bank c = if is_in_thread_mode c.mode then (if sp_sel c then process else main) else main

unfoldable pub get_sp : Cpu → ℕ
unfolding current_bank get_specific_banked_sp
get_sp c = bit_and 0xfffffffc (get_specific_banked_sp (current_bank c) c)

unfoldable pub set_sp : ℕ → Cpu → Cpu
unfolding current_bank set_specific_banked_sp
set_sp word c = set_specific_banked_sp (current_bank c) word c

-- pc_reg
unfoldable pub get_pc : Cpu → ℕ
get_pc c = bit_and 0xfffffffe c.pc_word

unfoldable pub set_pc : ℕ → Cpu → Cpu
set_pc word c = record c { pc_word = word; pc_dirty = true }

unfoldable pub branch_pc : ℕ → Cpu → Cpu
unfolding set_pc
branch_pc address c = set_pc (bit_and address 0xfffffffe) c

unfoldable pub clear_dirty_status : Cpu → Cpu
clear_dirty_status c = record c { pc_dirty = false }

-- core_registers
abbrev pub reg_sp : ℕ
reg_sp = 13

abbrev pub reg_lr : ℕ
reg_lr = 14

abbrev pub reg_pc : ℕ
reg_pc = 15

abbrev pub num_gp_regs : ℕ
num_gp_regs = 13

abbrev pub num_core_regs : ℕ
num_core_regs = 16

abbrev pub num_low_gp_regs : ℕ
num_low_gp_regs = 8

-- The program ends on an index above 15, which no instruction encodes: 0 here.
unfoldable pub get_reg : ℕ → Cpu → ℕ
unfolding get_sp get_pc
get_reg i c =
    if ltb i num_gp_regs
    then c.gp i
    else if i == reg_sp
    then get_sp c
    else if i == reg_lr
    then c.lr
    else if i == reg_pc
    then get_pc c
    else 0

-- An index above 15 changes nothing.
unfoldable pub set_reg : ℕ → ℕ → Cpu → Cpu
unfolding set_sp set_pc
set_reg i val c =
    if ltb i num_gp_regs
    then record c { gp = update c.gp i val }
    else if i == reg_sp
    then set_sp val c
    else if i == reg_lr
    then record c { lr = val }
    else if i == reg_pc
    then set_pc val c
    else c

-- The loop of `core_registers::reset`, with `left` rounds to go.
unfoldable pub reset_from : ℕ → ℕ → Cpu → Cpu
unfolding set_reg
reset_from zero i c = c
reset_from (suc left) i c = reset_from left (i + 1) (set_reg i 0 c)

unfoldable pub reset_core : Cpu → Cpu
unfolding reset_from
reset_core c = reset_from num_core_regs 0 c
