-- ===== src/Tests/System.antt =====
-- The memory and the resets of a small machine.
use micromachine.Base.{
  ℕ, ◌<◌, ◌≡◌, inl, refl, arith, true, false, List, if◌then◌else◌, bit_and, [], ◌∷◌, some, none,
  ◌==◌,
}
use micromachine.Bits.{bit_of}
use micromachine.RegisterMap.{
  find, hash_from, compute_all_keys_hash, is_not_a_mapped_address, get_register_at,
}
use micromachine.Registers.{get_reg, set_reg, thread, sp_sel, get_pc, thumb_flag, exception_number}
use micromachine.Machine.{
  ◌>>◌, Machine, Mapping, word, is_aligned, in_range, find_region, register_for,
  system_control_register_map, read, write, read_region, read_unchecked, unchecked,
}
use micromachine.Machine.Memory.ReadWrite.{faulted, access_faults, read-write}
use micromachine.Machine.Memory.Vtor.{vtor_resets}
use micromachine.Execution.Transfers.{str_imm, ldr_imm}
use micromachine.Execution.LoadStore.{word_address, ldr_imm-str_imm}
use micromachine.Mcu.{ok, reset_to, after_step}
use micromachine.Mcu.Reset.{reset_to_lem, after_step-reset}
use micromachine.Tests.Arithmetic.{some_cpu}
use micromachine.Tests.Exception.{some_exceptions, some_systick}

-- 4 KiB of flash at 0 that holds 1 everywhere, and 4 KiB of RAM.
abbrev pub flash : Mapping
flash = record { start = 0; end = 0x1000; host = λ i. 1; host_size = 0x1000 }

abbrev pub ram : Mapping
ram = record { start = 0x20000000; end = 0x20001000; host = λ i. 0; host_size = 0x1000 }

abbrev pub some_machine : Machine
some_machine = record {
  cpu = some_cpu;
  exceptions = some_exceptions;
  systick = some_systick;
  usart = record {
    interrupt_event = false;
    status = 0;
    control = 0;
    rx_word = 0;
    tx_word = 0;
    rx_buffer = record { array = λ i. 0; head = 0; tail = 0; aborted = false };
    tx_buffer = record { array = λ i. 0; head = 0; tail = 0; aborted = false };
  };
  signals = record { halt = false; enter_low_power = false; reset = true };
  regions = flash ∷ ram ∷ [];
  has_io_callback = false;
  io_output = [];
  entry_point = 0x100;
}

ram_is_plain : register_for word 0x20000004 ≡ none
unfolding register_for get_register_at is_not_a_mapped_address compute_all_keys_hash hash_from find
    system_control_register_map
ram_is_plain = refl

odd_is_plain : register_for word 0x20000006 ≡ none
unfolding register_for get_register_at is_not_a_mapped_address compute_all_keys_hash hash_from find
    system_control_register_map
odd_is_plain = refl

ram_is_found : find_region 0x20000004 some_machine.regions ≡ some ram
unfolding find_region in_range
ram_is_found = refl

ram_is_aligned : is_aligned word 0x20000004 ≡ true
unfolding is_aligned
ram_is_aligned = refl

odd_is_misaligned : is_aligned word 0x20000006 ≡ false
unfolding is_aligned
odd_is_misaligned = refl

flash_is_fetched : read_unchecked word 0 some_machine ≡ some 0x01010101
unfolding read_unchecked unchecked find_region in_range read_region
flash_is_fetched = refl

read-write_example :
    (mms : List Mapping) × (write word 0x20000004 0xcafe some_machine
      ≡ some (true, record some_machine { regions = mms }))
    × (read word 0x20000004 (record some_machine { regions = mms })
        ≡ some ((0xcafe, true), record some_machine { regions = mms }))
read-write_example =
    read-write word 0x20000004 0xcafe some_machine ram ram_is_plain ram_is_aligned ram_is_found
      (omega arith) (omega arith)

-- STR r3, [r1, #16] and LDR r2, [r1, #16], where r1 holds the start of the RAM.
abbrev storing_machine : Machine
storing_machine = record some_machine {
  cpu = record some_cpu { gp = λ i. if i == 1 then 0x20000000 else 7 };
}

stored_is_plain : register_for word (word_address 1 4 storing_machine.cpu) ≡ none
unfolding register_for get_register_at is_not_a_mapped_address compute_all_keys_hash hash_from find
    system_control_register_map get_reg
stored_is_plain = refl

stored_is_found :
    find_region (word_address 1 4 storing_machine.cpu) storing_machine.regions ≡ some ram
unfolding find_region in_range get_reg
stored_is_found = refl

ldr_imm-str_imm_example :
    (mms : List Mapping) × ((str_imm 3 1 4 >> ldr_imm 2 1 4) storing_machine
      ≡ some (
        tt,
        record storing_machine {
          regions = mms;
          cpu = set_reg 2 (get_reg 3 storing_machine.cpu) storing_machine.cpu;
        },
      ))
unfolding get_reg is_aligned
ldr_imm-str_imm_example =
    ldr_imm-str_imm 3 1 2 4 storing_machine ram (omega arith) stored_is_plain refl stored_is_found
      (omega arith)

access_faults_example :
    (write word 0x20000006 1 some_machine ≡ some (false, faulted some_machine))
    × (read word 0x20000006 some_machine ≡ some ((0, false), faulted some_machine))
access_faults_example =
    access_faults word 0x20000006 1 some_machine odd_is_plain (inl odd_is_misaligned)

vtor_resets_example :
    (write word 0xe000ed08 4 some_machine ≡ write word 0xe000ed0c 4 some_machine)
    × ((m' : Machine) × (write word 0xe000ed08 4 some_machine ≡ some (true, m'))
        × (m'.signals.reset ≡ true))
unfolding bit_of
vtor_resets_example = vtor_resets 4 some_machine refl

reset_to_lem_example :
    (m' : Machine) × (reset_to 0x101 some_machine ≡ some (tt, m'))
    × (m'.cpu.mode ≡ thread)
    × (thumb_flag m'.cpu ≡ true)
    × (exception_number m'.cpu ≡ 0)
    × ((r : ℕ) → r < 13 → m'.cpu.gp r ≡ 0)
    × (get_pc m'.cpu ≡ bit_and 0xfffffffe 0x101)
    × (m'.signals.halt ≡ false)
    × (m'.signals.enter_low_power ≡ false)
    × (m'.signals.reset ≡ some_machine.signals.reset)
    × (m'.cpu.sp_main ≡ (
        if sp_sel some_machine.cpu
        then some_machine.cpu.sp_main
        else bit_and 0x01010101 0xfffffffc))
reset_to_lem_example = reset_to_lem 0x101 0x01010101 some_machine flash_is_fetched (omega arith)

after_step-reset_example :
    (m' : Machine) × (after_step some_machine ≡ some (ok, m'))
    × (reset_to some_machine.entry_point some_machine ≡ some (tt, m'))
    × (m'.cpu.mode ≡ thread)
    × ((r : ℕ) → r < 13 → m'.cpu.gp r ≡ 0)
    × (get_pc m'.cpu ≡ bit_and 0xfffffffe some_machine.entry_point)
    × (exception_number m'.cpu ≡ 0)
    × (m'.signals.reset ≡ true)
    × (m'.signals.halt ≡ false)
    × (read_unchecked word 0 m' ≡ some 0x01010101)
after_step-reset_example =
    after_step-reset 0x01010101 some_machine flash_is_fetched refl refl (omega arith)
