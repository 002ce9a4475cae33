-- ===== src/Processor.antt =====
-- micromachine/cpu.hpp: the reset and the step of the processor.
pub mod Reset
pub mod Ends
pub mod Preemption
use micromachine.Base.{
  ℕ, ◌+◌, bit_and, Bool, true, false, not, if◌then◌else◌, Option, none, some, ltbℤ,
}
use micromachine.Bits.{u32, clear_bits, write_bits}
use micromachine.Registers.{
  Cpu, thread, set_sp, get_pc, set_pc, clear_dirty_status, reset_core, pm, thumb_flag,
  set_thumb_flag,
}
use micromachine.Exceptions.{
  Exceptions, top_pending, priority, current_execution_priority, reset_exceptions, ex_hardfault,
}
use micromachine.Instruction.{instruction_size}
use micromachine.Decoder.{decode}
use micromachine.Machine.{
  Machine, M, pure, modify, asks, on_cpu, ask_cpu, ◌>>=◌, ◌>>◌, raise_exception, read_unchecked,
  word,
}
use micromachine.Execution.Context.{exception_entry}
use micromachine.Execution.Dispatch.{dispatch}

-- `_mem.read32_unchecked`
unfoldable pub fetch : ℕ → M ℕ
unfolding read_unchecked
fetch address m = elim (read_unchecked word address m) [ none ↦ none | some w ↦ some (w, m) ]

-- The resets of APSR and IPSR, with the thumb bit set between them.
unfoldable pub reset_status : Cpu → Cpu
unfolding clear_bits set_thumb_flag write_bits
reset_status c =
    let flags : Cpu = record c { xpsr = clear_bits 32 c.xpsr 28 4 } in
    let thumb = set_thumb_flag true flags in
    record thumb { xpsr = write_bits 32 thumb.xpsr 0 0 0 6 }

unfoldable pub reset_cpu : ℕ → ℕ → Cpu → Cpu
unfolding reset_core set_sp set_pc reset_status
reset_cpu initial_sp_main initial_pc c =
    let in_thread : Cpu = record c { mode = thread } in
    let set_up = set_pc initial_pc (set_sp initial_sp_main (reset_core in_thread)) in
    record (reset_status (record set_up { lr = 0 })) { control = 0; primask = 0; event = false }

unfoldable pub reset_processor : ℕ → M Unit
unfolding fetch reset_cpu reset_exceptions
reset_processor initial_pc = do
  first_word ← fetch 0
  on_cpu (reset_cpu (bit_and first_word 0xfffffffc) initial_pc)
  modify (λ m. record m {
    exceptions = reset_exceptions m.exceptions;
    signals = record m.signals { halt = false; enter_low_power = false };
  })

-- A pending exception that is more urgent than what runs.
unfoldable pub preempts : ℕ → Machine → Bool
unfolding priority current_execution_priority pm
preempts ex m = ltbℤ (priority ex m.exceptions) (current_execution_priority (pm m.cpu) m.exceptions)

unfoldable pub next_exception_to_take : Machine → Option ℕ
unfolding top_pending preempts
next_exception_to_take m = elim (top_pending m.exceptions) [
  | none ↦ none
  | some ex ↦ if preempts ex m then some ex else none
]

-- `get_next_instruction_address`
unfoldable pub next_address : ℕ → ℕ → Cpu → ℕ
unfolding get_pc instruction_size
next_address instr_addr instruction c =
    if not c.pc_dirty then u32 (instr_addr + instruction_size instruction) else get_pc c

-- The instruction at the current address, unless an exception is taken before it.
execute : ℕ → ℕ → Option ℕ → M (Option ℕ)
unfolding set_pc clear_dirty_status decode dispatch next_exception_to_take
execute address instruction none = do
  on_cpu (λ c. clear_dirty_status (set_pc (u32 (address + 4)) c))
  dispatch (decode instruction)
  asks next_exception_to_take
execute address instruction (some ex) = pure (some ex)

finish : ℕ → ℕ → ℕ → Option ℕ → M Unit
unfolding set_pc exception_entry
finish address next instruction none = on_cpu (set_pc next)
finish address next instruction (some ex) = do
  on_cpu (set_pc address)
  exception_entry ex address next

check_thumb : M Unit
unfolding thumb_flag raise_exception
check_thumb m = if not (thumb_flag m.cpu) then raise_exception ex_hardfault m else some (tt, m)

unfoldable pub step_processor : M Unit
unfolding get_pc fetch check_thumb next_exception_to_take execute next_address finish
step_processor = do
  address ← ask_cpu get_pc
  instruction ← fetch address
  check_thumb
  asynchronous ← asks next_exception_to_take
  ex ← execute address instruction asynchronous
  next ← ask_cpu (next_address address instruction)
  finish address next instruction ex
