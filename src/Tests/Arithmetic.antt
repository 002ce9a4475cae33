-- ===== src/Tests/Arithmetic.antt =====
-- The shifts, the adder, the decoder and the instructions at concrete operands.
use micromachine.Base.{
  ℕ, ◌+◌, ◌-◌, ◌*◌, ◌/◌, ◌%◌, ◌^◌, ◌<◌, ◌≡◌, ◌↔◌, arith, false, if◌then◌else◌, ◌==◌, of_bool,
  to_bool, min, some, none, pos, signed32, ◌+ℤ◌, sub_ℕ, ltb,
}
use micromachine.Bits.{sign, write_bits}
use micromachine.Bits.Laws.{write_bits_arith}
use micromachine.Bits.Sign.{sign_lem}
use micromachine.Alu.{lsl_c, lsr_c, asr_c, ror_c, add_with_carry}
use micromachine.Alu.Add.{add_with_carry_lem}
use micromachine.Alu.Shift.{lsl_lem, lsr_lem, asr_lem, ror_lem}
use micromachine.Alu.SignCopies.{asr_value_of}
use micromachine.Registers.{Cpu, thread, get_reg, set_reg, reg_sp}
use micromachine.Registers.File.{kept, get_reg-set_reg}
use micromachine.Instruction.{first, second, branch_offset, unconditional_branch_offset}
use micromachine.Instruction.Offsets.{branch_offset_lem, unconditional_branch_offset_lem}
use micromachine.Decoder.{decode}
use micromachine.Decoder.Fields.Ranges.{IsInstruction}
use micromachine.Decoder.Encoding.{Encodes}
use micromachine.Decoder.Reads.{decode-Encodes}
use micromachine.Execution.Arithmetic.{add_reg, adc, cmp_reg, cmp_imm}
use micromachine.Execution.Compare.{Compares, cmp_reg-Compares, cmp_imm-Compares}
use micromachine.Execution.LongAdd.{adc-add_reg}

-- Registers 0 to 12 hold 2 ^ 32 - 1, 1, 2 and so on.
abbrev registers : ℕ → ℕ
registers i = if i == 0 then 0xffffffff else i

abbrev pub some_cpu : Cpu
some_cpu = record {
  gp = registers;
  sp_main = 0x20001000;
  sp_process = 0x20000800;
  lr = 0;
  pc_word = 0x100;
  pc_dirty = false;
  xpsr = 0x01000000;
  control = 0;
  primask = 0;
  mode = thread;
  event = false;
}

add_with_carry_lem_example :
    let s = add_with_carry 0x7fffffff 1 false in
    (s.res + 2 ^ 32 * of_bool s.carry_out ≡ 0x7fffffff + 1 + of_bool false)
    × (s.res < 2 ^ 32)
    × ((s.overflow_out ≡ false)
        ↔ (signed32 s.res ≡ signed32 0x7fffffff +ℤ signed32 1 +ℤ pos (of_bool false)))
add_with_carry_lem_example = add_with_carry_lem 0x7fffffff 1 false (omega arith) (omega arith)

lsl_lem_example :
    ((lsl_c 0x80000001 1 false).0 ≡ 0x80000001 * 2 ^ 1 % 2 ^ 32)
    × ((lsl_c 0x80000001 1 false).1
        ≡ (if 1 == 0 then false else to_bool (0x80000001 * 2 ^ 1 / 2 ^ 32 % 2)))
lsl_lem_example = lsl_lem 0x80000001 1 false (omega arith)

lsr_lem_example :
    ((lsr_c 5 1 false).0 ≡ 5 / 2 ^ 1)
    × ((lsr_c 5 1 false).1 ≡ (if 1 == 0 then false else to_bool (5 / 2 ^ (1 - 1) % 2)))
lsr_lem_example = lsr_lem 5 1 false (omega arith)

asr_lem_example :
    ((asr_c 0x80000000 4 false).0 ≡ asr_value_of 0x80000000 4)
    × ((asr_c 0x80000000 4 false).1
        ≡ (if 4 == 0 then false else to_bool (0x80000000 / 2 ^ min (4 - 1) 31 % 2)))
asr_lem_example = asr_lem 0x80000000 4 false (omega arith)

ror_lem_example : ror_c 0x12345678 8 false ≡ (
    if ltb 8 32
    then some (
      0x12345678 / 2 ^ 8 + 0x12345678 % 2 ^ 8 * 2 ^ (32 - 8),
      if 8 == 0 then false else to_bool (0x12345678 / 2 ^ (8 - 1) % 2),
    )
    else none)
ror_lem_example = ror_lem 0x12345678 8 false (omega arith)

write_bits_arith_example :
    write_bits 32 0xffff 4 0xa 0 4 + 0xffff / 2 ^ 4 % 2 ^ 4 * 2 ^ 4
    ≡ 0xffff + 0xa / 2 ^ 0 % 2 ^ 4 * 2 ^ 4
write_bits_arith_example = write_bits_arith 32 0xffff 4 0xa 0 4 (omega arith) (omega arith)

sign_lem_example :
    sign 32 0xff (7 + 1) ≡ 0xff % 2 ^ 7 + of_bool (to_bool (0xff / 2 ^ 7 % 2)) * (2 ^ 32 - 2 ^ 7)
sign_lem_example = sign_lem 32 0xff 7 (omega arith) (omega arith) (omega arith)

branch_offset_lem_example :
    signed32 (branch_offset 0xfe) ≡ sub_ℕ (2 * 0xfe) (if ltb 0xfe (2 ^ 7) then 0 else 2 ^ 9)
branch_offset_lem_example = branch_offset_lem 0xfe (omega arith)

unconditional_branch_offset_lem_example :
    signed32 (unconditional_branch_offset 0x7fe)
    ≡ sub_ℕ (2 * 0x7fe) (if ltb 0x7fe (2 ^ 10) then 0 else 2 ^ 12)
unconditional_branch_offset_lem_example = unconditional_branch_offset_lem 0x7fe (omega arith)

-- ADDS r0, r1, r2
decode-Encodes_example :
    IsInstruction (decode 0x1888) × Encodes (decode 0x1888) (first 0x1888) (second 0x1888)
decode-Encodes_example = decode-Encodes 0x1888

get_reg-set_reg_example :
    get_reg reg_sp (set_reg reg_sp 0x20000003 some_cpu)
    ≡ (if reg_sp == reg_sp then kept reg_sp 0x20000003 else get_reg reg_sp some_cpu)
get_reg-set_reg_example =
    get_reg-set_reg some_cpu 0x20000003 reg_sp reg_sp (omega arith) (omega arith)

cmp_reg-Compares_example : Compares (cmp_reg 0 1 some_cpu) (get_reg 0 some_cpu) (get_reg 1 some_cpu)
unfolding get_reg
cmp_reg-Compares_example = cmp_reg-Compares 0 1 some_cpu (omega arith) (omega arith) (omega arith)

cmp_imm-Compares_example : Compares (cmp_imm 7 0 some_cpu) (get_reg 0 some_cpu) 7
unfolding get_reg
cmp_imm-Compares_example = cmp_imm-Compares 7 0 some_cpu (omega arith) (omega arith) (omega arith)

adc-add_reg_example :
    let c' = adc 1 3 (add_reg 0 0 2 some_cpu) in
    c'.gp 0 + 2 ^ 32 * c'.gp 1
    ≡ (some_cpu.gp 0 + some_cpu.gp 2 + 2 ^ 32 * (some_cpu.gp 1 + some_cpu.gp 3)) % 2 ^ 64
adc-add_reg_example =
    adc-add_reg 0 1 2 3 some_cpu (omega arith) (omega arith) (omega arith) (omega arith)
      (omega arith) (omega arith) (omega arith) (omega arith) (omega arith)
