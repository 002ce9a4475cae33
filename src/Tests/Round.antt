-- ===== src/Tests/Round.antt =====
-- An exception that is taken and returned from, at a concrete machine.
use micromachine.Base.{
  ℕ, ◌-◌, ◌*◌, List, sym, subst, ◌<◌, ltb, ◌&&◌, ◌≡◌, refl, arith, true, false, if◌then◌else◌, ◌==◌,
  Option, some, none,
}
use micromachine.Bits.{bit_of}
use micromachine.Registers.{thread, sp_sel, get_sp, set_sp}
use micromachine.Exceptions.{kind, class_of, ex_hardfault}
use micromachine.RegisterMap.{
  find, hash_from, compute_all_keys_hash, is_not_a_mapped_address, get_register_at,
}
use micromachine.Machine.{
  Machine, Mapping, M, on_cpu, ◌>>◌, is_aligned, in_range, MappedRegister, register_for,
  system_control_register_map,
}
use micromachine.Machine.Memory.Words.{IsWord, room, room_in}
use micromachine.Machine.Memory.Blocks.{AreWords, AreWords-poke_all}
use micromachine.Execution.PushPop.{listed}
use micromachine.Execution.Context.{exception_entry}
use micromachine.Execution.Status.{bx}
use micromachine.Execution.Stack.{push, pop, is_set, popcount}
use micromachine.Execution.SaveRestore.{pushed, pop-push}
use micromachine.Execution.Return.{IsThread}
use micromachine.Execution.Restore.{Restored}
use micromachine.Execution.RoundTrip.{Takes, bx-exception_entry}
use micromachine.Tests.Arithmetic.{some_cpu}
use micromachine.Tests.Exception.{some_exceptions}
use micromachine.Tests.System.{some_machine}

-- No exception is active, and the registers hold small numbers.
abbrev pub quiet_machine : Machine
quiet_machine = record some_machine {
  cpu = record some_cpu { gp = λ i. 5 };
  exceptions = record some_exceptions { active = λ n. false };
}

frame_is_mapped : AreWords 0x20000fe0 8 quiet_machine.regions
unfolding AreWords IsWord register_for get_register_at is_not_a_mapped_address compute_all_keys_hash
    hash_from find system_control_register_map is_aligned in_range room room_in
frame_is_mapped = (mapped, (mapped, (mapped, (mapped, (mapped, (mapped, (mapped, (mapped, tt))))))))
  where
    mapped : ◌≡◌ {A = Option MappedRegister} none none × true ≡ true × true ≡ true
    mapped = (refl, refl, refl)

quiet_machine-Takes : Takes 15 quiet_machine
unfolding Takes IsThread AreWords IsWord register_for get_register_at is_not_a_mapped_address
    compute_all_keys_hash hash_from find system_control_register_map is_aligned in_range room
    room_in kind class_of get_sp sp_sel bit_of
quiet_machine-Takes =
    ((refl, refl), λ k. refl, refl, omega arith, omega arith, frame_is_mapped, (refl, refl, refl))

bx-exception_entry_example :
    (m' : Machine) × ((exception_entry 15 0x100 0x102 >> bx 14) quiet_machine ≡ some (tt, m'))
    × ((r : ℕ) → r < 13 → m'.cpu.gp r ≡ 5)
    × (m'.cpu.lr ≡ 0)
    × (m'.cpu.sp_main ≡ get_sp quiet_machine.cpu)
    × (m'.cpu.pc_word ≡ (if kind 15 == ex_hardfault then 0x100 else 0x102))
    × (m'.cpu.mode ≡ thread)
    × ((k : ℕ) → m'.exceptions.active k ≡ false)
    × ((i : ℕ) → Restored i → bit_of i m'.cpu.xpsr ≡ bit_of i quiet_machine.cpu.xpsr)
    × (bit_of 9 m'.cpu.xpsr ≡ bit_of 2 (get_sp quiet_machine.cpu))
bx-exception_entry_example =
    bx-exception_entry 15 0x100 0x102 quiet_machine quiet_machine-Takes
      (λ r h. omega arith, omega arith, omega arith, omega arith) (omega arith) (omega arith)

-- A body that overwrites every register.
abbrev spoil : M Unit
spoil = on_cpu (λ c. record c { gp = λ i. 9 })

sp_lem : get_sp quiet_machine.cpu ≡ 0x20001000
unfolding get_sp sp_sel bit_of
sp_lem = refl

three : popcount 16 0x91 ≡ 3
unfolding popcount
three = refl

words_lem :
    (mms : List Mapping)
    → AreWords 0x20000ff4 3 mms
    → AreWords (get_sp quiet_machine.cpu - 4 * popcount 16 0x91) (popcount 16 0x91) mms
words_lem mms w =
    subst (λ (a : ℕ). AreWords a (popcount 16 0x91) mms) {x = 0x20000ff4}
      {y = get_sp quiet_machine.cpu - 4 * popcount 16 0x91} (omega (arith, sp_lem, three))
      (subst (λ (n : ℕ). AreWords 0x20000ff4 n mms) (sym three) w)

slots_are_mapped : AreWords 0x20000ff4 3 quiet_machine.regions
unfolding AreWords IsWord register_for get_register_at is_not_a_mapped_address compute_all_keys_hash
    hash_from find system_control_register_map is_aligned in_range room room_in
slots_are_mapped = ((refl, refl, refl), ((refl, refl, refl), ((refl, refl, refl), tt)))

pop-push_example :
    (push 0x91 >> (spoil >> pop 0x91)) quiet_machine
    ≡ some (
      tt,
      record quiet_machine {
        cpu = set_sp 0x20001000 (record (pushed 0x91 quiet_machine).cpu {
          gp = λ r. if ltb r 8 && is_set 0x91 r then 5 else 9;
        });
        regions = (pushed 0x91 quiet_machine).regions;
      },
    )
unfolding pushed get_sp set_sp sp_sel bit_of popcount
pop-push_example =
    pop-push 0x91 spoil quiet_machine
      (record (pushed 0x91 quiet_machine) {
        cpu = record (pushed 0x91 quiet_machine).cpu { gp = λ i. 9 };
      })
      (omega arith) (λ r h. omega arith) (omega (arith, sp_lem, three))
      (words_lem quiet_machine.regions slots_are_mapped) refl refl
      (words_lem (pushed 0x91 quiet_machine).regions (
        AreWords-poke_all 0x20000ff4 (listed 8 0 0x91 quiet_machine.cpu) 0x20000ff4 3
          quiet_machine.regions slots_are_mapped))
      refl
