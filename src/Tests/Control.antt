-- ===== src/Tests/Control.antt =====
-- Stores to the interrupt controller, the choice of an exception, and STM and LDM, at concrete
-- machines.
use micromachine.Base.{
  ℕ, ◌+◌, ◌*◌, ◌/◌, ◌%◌, ◌^◌, ◌≡◌, refl, arith, true, ◌&&◌, ltb, ◌==◌, update, if◌then◌else◌,
  Option, none, some, ℤ, pos,
}
use micromachine.Registers.{get_reg}
use micromachine.RegisterMap.{
  find, hash_from, compute_all_keys_hash, is_not_a_mapped_address, get_register_at,
}
use micromachine.Exceptions.{priority}
use micromachine.Machine.{
  Machine, M, ◌>>◌, on_cpu, word, write, read32, write32, is_aligned, in_range, MappedRegister,
  register_for, system_control_register_map,
}
use micromachine.Machine.Memory.Array.{read32-write32}
use micromachine.Machine.Memory.Levels.{write-priority}
use micromachine.Machine.Memory.Nvic.{WritesEnabled, WritesPending, sets, clears, write_nvic_lem}
use micromachine.Machine.Memory.Words.{IsWord, room, room_in}
use micromachine.Machine.Memory.Blocks.{AreWords, AreWords-poke_all}
use micromachine.Execution.Stack.{popcount, is_set, stm, ldm}
use micromachine.Execution.PushPop.{listed}
use micromachine.Execution.Multiple.{stored}
use micromachine.Execution.Reload.{ldm-stm}
use micromachine.Processor.{next_exception_to_take}
use micromachine.Processor.Preemption.{IsLevel, IsNext, next_exception_to_take_lem}
use micromachine.Tests.Round.{quiet_machine}
use micromachine.Tests.System.{some_machine}

write_nvic_lem_example :
    WritesEnabled 0xe000e100 6 1 sets quiet_machine
    × WritesEnabled 0xe000e180 6 1 clears quiet_machine
    × WritesPending 0xe000e200 6 1 sets quiet_machine
    × WritesPending 0xe000e280 6 1 clears quiet_machine
write_nvic_lem_example = write_nvic_lem 1 6 quiet_machine (omega arith) (omega arith)

next_exception_to_take_lem_example :
    (l : ℤ) × IsLevel some_machine l × IsNext some_machine l (next_exception_to_take some_machine)
next_exception_to_take_lem_example = next_exception_to_take_lem some_machine

write-priority_example :
    (p : ℕ → ℕ) × (write word (0xe000e400 + 4 * 1) 0x00004000 quiet_machine
      ≡ some (
        true,
        record quiet_machine { exceptions = record quiet_machine.exceptions { priority_regs = p } },
      ))
    × (priority (16 + 5) (record quiet_machine.exceptions { priority_regs = p }) ≡ (
        if 1 == 5 / 4
        then pos (0x00004000 / 2 ^ (6 + 5 % 4 * 8) % 4)
        else priority (16 + 5) quiet_machine.exceptions))
write-priority_example = write-priority 1 0x00004000 5 quiet_machine (omega arith) (omega arith)

words_are_plain : IsWord 0x20000ff0 quiet_machine.regions × IsWord 0x20000ff4 quiet_machine.regions
unfolding IsWord register_for get_register_at is_not_a_mapped_address compute_all_keys_hash
    hash_from find system_control_register_map is_aligned in_range room room_in
words_are_plain = (mapped, mapped)
  where
    mapped : ◌≡◌ {A = Option MappedRegister} none none × true ≡ true × true ≡ true
    mapped = (refl, refl, refl)

read32-write32_example :
    (m' : Machine) × (w : ℕ) × (write32 0x20000ff0 0xcafe quiet_machine ≡ some (true, m'))
    × (read32 0x20000ff4 quiet_machine ≡ some (w, quiet_machine))
    × (read32 0x20000ff4 m' ≡ some (if 0x20000ff0 == 0x20000ff4 then 0xcafe else w, m'))
read32-write32_example =
    read32-write32 0x20000ff0 0x20000ff4 0xcafe quiet_machine words_are_plain.0 words_are_plain.1
      (omega arith)

-- The base register points to the last four words of the memory.
abbrev based_machine : Machine
based_machine = record quiet_machine {
  cpu = record quiet_machine.cpu { gp = update (λ i. 5) 3 0x20000ff0 };
}

-- A body that overwrites every register but the base.
abbrev spoil : M Unit
spoil = on_cpu (λ c. record c { gp = update (λ i. 9) 3 0x20000ff0 })

words_are_mapped : AreWords 0x20000ff0 3 based_machine.regions
unfolding AreWords IsWord register_for get_register_at is_not_a_mapped_address compute_all_keys_hash
    hash_from find system_control_register_map is_aligned in_range room room_in
words_are_mapped = (mapped, (mapped, (mapped, tt)))
  where
    mapped : ◌≡◌ {A = Option MappedRegister} none none × true ≡ true × true ≡ true
    mapped = (refl, refl, refl)

still_mapped : AreWords 0x20000ff0 3 (stored 7 3 based_machine).regions
unfolding stored
still_mapped =
    AreWords-poke_all 0x20000ff0 (listed 8 0 7 based_machine.cpu) 0x20000ff0 3 based_machine.regions
      words_are_mapped

ldm-stm_example :
    (stm 7 3 >> (spoil >> ldm 7 3)) based_machine
    ≡ some (
      tt,
      record (stored 7 3 based_machine) {
        cpu = record (stored 7 3 based_machine).cpu {
          gp = λ r.
              if ltb r 8 && is_set 7 r
              then update (λ i. 5) 3 0x20000ff0 r
              else if r == 3
              then 0x20000ffc
              else update (λ i. 9) 3 0x20000ff0 r;
        };
      },
    )
unfolding popcount get_reg
ldm-stm_example =
    ldm-stm 7 3 spoil based_machine
      (record (stored 7 3 based_machine) {
        cpu = record (stored 7 3 based_machine).cpu { gp = update (λ i. 9) 3 0x20000ff0 };
      })
      (omega arith) (λ r h. ground arith) (omega arith) words_are_mapped refl refl still_mapped refl
