-- ===== src/Lib.antt =====
-- The emulator of an ARMv6-M microcontroller in micromachine/, as functions on one state.
--
-- The parts, and how they interact. `mcu::step` (micromachine/mcu.cpp) steps the system timer, the
-- USART and then the processor, and acts on the control signals. `cpu::step` (micromachine/cpu.hpp)
-- asks the exception controller for the next exception; it enters that, or it fetches an instruction
-- from memory, decodes it and dispatches it to its `exec`. Instructions read and write the registers
-- and the memory; an access of memory is looked up in the table of mapped registers first, so that
-- stores change the timer, the USART, the interrupt controller and the control signals. Failed
-- accesses and undefined instructions raise HardFault through the exception controller.
--
-- Which file models what:
--   Base, Base/*: numbers, integers, Boolean tests, lists, and the names that the others share.
--   Bits: micromachine/helpers/binops.hpp and the slices of micromachine/types/bits.hpp, each with
--     the width in bits as its first argument. Bits/* are their laws.
--   Alu: micromachine/execution/alu.hpp, at 32 bits. Alu/Add, Alu/SignCopies and Alu/Shift are its
--     laws.
--   Registers/State, Registers/Core, Registers/Status: micromachine/registers/core_registers,
--     micromachine/registers/special_registers, micromachine/execution/execution_mode.hpp. The record
--     `Cpu` is the state; `get_reg` and `set_reg` are `core_registers::get` and `set`.
--   Exceptions/State: the state classes of micromachine/exception/exception_vector.hpp, by their
--     number, over the words of the registers that they stand in (micromachine/nvic.hpp, SHPR2, SHPR3,
--     ICSR). Exceptions/Vector: the arbitration as it is compiled, and exception_vector_controller.hpp.
--     Exceptions/Reference: the loops that the unrolled code replaces.
--   Systick: micromachine/systick.hpp and its registers. Channel: the queue of
--     micromachine/utils/blocking_queue.hpp. Usart: micromachine/peripherals/usart.
--   RegisterMap: micromachine/memory/register_map.hpp.
--   Machine/State: the state of micromachine/mcu.hpp and the monad `M` of what changes it.
--     Machine/Devices: the table of mapped registers and what a read and a write of each do.
--     Machine/Memory: micromachine/memory/memory.hpp and mapping.hpp.
--   Instruction: micromachine/instruction/instructions.hpp, one constructor for each struct, and
--     instruction_pair.hpp. Decoder, Decoder/*: instruction_decoder.hpp; `decode` is the instruction
--     that `decode_instruction` dispatches.
--   Execution/*: micromachine/execution/exec.hpp, one function for each overload of `exec` under the
--     name of its instruction; exec_dispatcher.hpp in Execution/Dispatch; context_switcher.hpp and
--     interworking_brancher.hpp in Execution/Context.
--   Loader: micromachine/loader.hpp, on what the ELF reader yields, which is a parameter.
--   Processor: micromachine/cpu.hpp. Mcu: `reset` and `step` of micromachine/mcu.hpp and mcu.cpp.
--   The modules that state properties stand below the code that they are about: Bits/Laws, Bits/Sign,
--     Alu/*, Registers/File, Exceptions/Round, Exceptions/Selection, Exceptions/Unrolled,
--     Exceptions/Priority, Systick/Period, Channel/Queue, Usart/Receive, RegisterMap/Filter,
--     Machine/Memory/*, Instruction/Offsets, Decoder/Fields, Decoder/Words, Decoder/Encoding (the
--     encodings of the instructions), Decoder/Reads, Execution/Compare, Execution/LongAdd,
--     Execution/LoadStore, Processor/Reset, Mcu/Reset. Machine/Memory/Words and Machine/Memory/Blocks
--     are about words and blocks of words in memory; on them stand Execution/PushPop, Execution/Saved and
--     Execution/SaveRestore for PUSH and POP, Execution/Multiple and Execution/Reload for STM and LDM,
--     and Execution/Frame, Execution/Return, Execution/Restore and Execution/RoundTrip for the frame
--     of an exception. Machine/Memory/Array is about the memory as an array of words,
--     Machine/Memory/Nvic and Machine/Memory/Levels are about stores to the interrupt controller, and
--     Processor/Preemption about the choice of an exception. Loader/Mappings, Loader/Loaded and
--     Loader/Bytes are about the memory of a program that is loaded. Machine/Outcome has the rules by
--     which programs that are defined compose; Machine/Memory/Shapes, Machine/Memory/Sound,
--     Execution/Defined, Execution/Lists, Execution/Returns, Execution/Effects, Execution/Runs,
--     Processor/Ends and Mcu/Ends apply them from a memory access up to a step. Tests/*: concrete
--     states.
--
-- Numbers. A `uint32_t` is a native number, and every operation that can leave the range cuts its
-- result by hand; a `size_t` index of the queue is cut to 64 bits. Priorities are integers. The bit
-- operations have the width as an argument, which is at most 32 in the program.
--
-- Results. `M A` is a function from the machine to an optional value and machine. `none` stands for
-- what the program's C++ leaves undefined or does not return from: a shift by the width or more, an
-- access behind the end of a mapping's host memory, an exception that a container throws, a wait on an
-- empty queue. A fault is no such case: it is the exception HardFault in the state that is returned.
-- Nor is a fetch at an address that is no multiple of 4: C++ leaves that misaligned read of a `uint32_t`
-- undefined, and the model takes the four bytes that stand there, as hosts do that allow it.
--
-- Bounds. The program's loops count: 32 exceptions, 16 registers, 22 states to arbitrate. They are
-- recursions on the number of rounds that are left, or on the list that they go through, so no fuel
-- can run out.
--
-- The checks of micromachine/helpers/check.hpp are left out, as in a build without
-- MICROMACHINE_ENABLE_CHECKS.
--
-- Not modelled: the reader of ELF files (a third-party library), the disassembler (text for people),
-- sockets, threads and the waits of the queue (the host), the callbacks of the event register and of
-- the interrupt pins, copies of a whole microcontroller. The host is little-endian, and no two
-- mappings share host memory.
pub mod Base
pub mod Bits
pub mod Alu
pub mod Registers
pub mod Exceptions
pub mod Systick
pub mod Channel
pub mod Usart
pub mod RegisterMap
pub mod Machine
pub mod Instruction
pub mod Decoder
pub mod Execution
pub mod Processor
pub mod Mcu
pub mod Loader
pub mod Tests
