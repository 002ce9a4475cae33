-- ===== src/Tests/Ends.antt =====
-- Runs of an instruction and of the machine that end, at a concrete machine.
use micromachine.Base.{◌<◌, ◌≡◌, refl, arith, All, map, some}
use micromachine.Bits.{extract}
use micromachine.Registers.{get_pc, get_reg, exception_number}
use micromachine.Decoder.{decode}
use micromachine.Instruction.{ror_reg}
use micromachine.Machine.{
  Machine, word, in_range, find_region, read_region, unchecked, read_unchecked,
}
use micromachine.Machine.Memory.Shapes.{shape, IsWhole}
use micromachine.Execution.Dispatch.{dispatch}
use micromachine.Execution.Effects.{HasDefinedShift}
use micromachine.Execution.Runs.{dispatch_ends}
use micromachine.Processor.Ends.{started}
use micromachine.Mcu.{StepResult, step}
use micromachine.Mcu.Ends.{step_ends}
use micromachine.Tests.Round.{quiet_machine}

mappings-IsWhole : All IsWhole (map shape quiet_machine.regions)
unfolding IsWhole shape
mappings-IsWhole = ((refl, refl, omega arith), ((refl, refl, omega arith), tt))

number_is_small : exception_number quiet_machine.cpu < 32
unfolding exception_number extract
number_is_small = omega arith

-- The registers hold 5, which is the shift.
shift_is_defined : HasDefinedShift (ror_reg 0 1) quiet_machine.cpu
unfolding HasDefinedShift extract get_reg
shift_is_defined = omega arith

dispatch_ends_example :
    (m' : Machine) × (dispatch (ror_reg 0 1) quiet_machine ≡ some (tt, m'))
    × (map shape m'.regions ≡ map shape quiet_machine.regions)
dispatch_ends_example =
    dispatch_ends (ror_reg 0 1) quiet_machine mappings-IsWhole number_is_small shift_is_defined

-- The instruction is a shift by an immediate.
fetched : read_unchecked word (get_pc quiet_machine.cpu) quiet_machine ≡ some 0x01010101
unfolding read_unchecked unchecked find_region in_range read_region get_pc
fetched = refl

decoded : HasDefinedShift (decode 0x01010101) (started quiet_machine.cpu)
unfolding HasDefinedShift decode
decoded = tt

step_ends_example :
    (r : StepResult) × (m' : Machine) × (step quiet_machine ≡ some (r, m'))
    × (map shape m'.regions ≡ map shape quiet_machine.regions)
step_ends_example =
    step_ends 0x01010101 quiet_machine mappings-IsWhole number_is_small fetched decoded
