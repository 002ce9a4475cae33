-- ===== src/Execution/Context.antt =====
-- micromachine/execution/context_switcher.hpp and interworking_brancher.hpp: taking an exception,
-- returning from it, and the branches that can return from one.
use micromachine.Base.{
  ℕ, ◌+◌, ◌-◌, ◌*◌, ◌^◌, bit_and, bit_or, Bool, true, false, not, ◌&&◌, ◌||◌, ◌==◌, if◌then◌else◌,
  none, some,
}
use micromachine.Bits.{u32, extract, bit_of, set_bit_of}
use micromachine.Registers.{
  Cpu, thread, handler, is_in_thread_mode, is_in_handler_mode, main, process, get_reg, set_reg,
  get_sp, set_sp, set_pc, branch_pc, get_specific_banked_sp, set_specific_banked_sp, n_priv, sp_sel,
  set_sp_sel, exception_number, set_exception_number, set_thumb_flag,
}
use micromachine.Exceptions.{
  active_count, set_active_at, set_active, set_pending, kind, ex_hardfault,
}
use micromachine.Machine.{M, modify, asks, on_cpu, ask_cpu, ◌>>=◌, ◌>>◌, read32, write32}

-- interworking_brancher
unfoldable pub branch_link_interworking : ℕ → M Unit
unfolding bit_of set_bit_of set_thumb_flag branch_pc
branch_link_interworking address = do
  on_cpu (set_thumb_flag (bit_of 0 address))
  on_cpu (branch_pc (set_bit_of 0 address false))

-- The registers of a frame, in the order of the frame.
unfoldable pub push_stack : ℕ → M Unit
unfolding get_sp set_sp bit_of set_bit_of get_reg sp_sel write32
push_stack return_address = do
  sp ← ask_cpu get_sp
  let frame_ptr = bit_and (u32 (sp + (2 ^ 32 - 32))) 0xfffffffb
  on_cpu (set_sp frame_ptr)
  xpsr ← ask_cpu (λ c. c.xpsr)
  let xpsr_status = set_bit_of 9 xpsr (bit_of 2 sp)
  c ← ask_cpu (λ c. c)
  _ ← write32 frame_ptr (get_reg 0 c)
  _ ← write32 (u32 (frame_ptr + 4)) (get_reg 1 c)
  _ ← write32 (u32 (frame_ptr + 8)) (get_reg 2 c)
  _ ← write32 (u32 (frame_ptr + 12)) (get_reg 3 c)
  _ ← write32 (u32 (frame_ptr + 16)) (get_reg 12 c)
  _ ← write32 (u32 (frame_ptr + 20)) c.lr
  _ ← write32 (u32 (frame_ptr + 24)) return_address
  _ ← write32 (u32 (frame_ptr + 28)) xpsr_status
  on_cpu (λ c. record c { lr = exc_return c })
  where
    exc_return : Cpu → ℕ
    exc_return c =
        if is_in_handler_mode c.mode
        then 0xfffffff1
        else if not (sp_sel c)
        then 0xfffffff9
        else 0xfffffffd

-- The stack pointer above a frame.
unfoldable pub drop_frame : ℕ → ℕ → Cpu → Cpu
unfolding get_specific_banked_sp set_specific_banked_sp
drop_frame ret_bits stack_align c =
    if ret_bits == 0b0001 || ret_bits == 0b1001
    then set_specific_banked_sp main
        (bit_or (u32 (get_specific_banked_sp main c + 0x20)) stack_align) c
    else if ret_bits == 0b1101
    then set_specific_banked_sp process
        (bit_or (u32 (get_specific_banked_sp process c + 0x20)) stack_align) c
    else c

-- The bits of the program status register that a return restores: the flags, the exception number,
-- the thumb bit and bit 9.
abbrev pub reserved_bits_mask : ℕ
reserved_bits_mask = 0xf100023f

unfoldable pub restore_status : ℕ → Cpu → Cpu
unfolding n_priv set_exception_number
restore_status xpsr_status c =
    let restored : Cpu = record c { xpsr = bit_and xpsr_status reserved_bits_mask } in
    if is_in_thread_mode c.mode && n_priv c then set_exception_number 0 restored else restored

unfoldable pub pop_stack : ℕ → ℕ → M Unit
unfolding read32 set_reg set_pc extract drop_frame restore_status
pop_stack frame_ptr return_address = do
  r0 ← read32 frame_ptr
  on_cpu (set_reg 0 r0)
  r1 ← read32 (u32 (frame_ptr + 4))
  on_cpu (set_reg 1 r1)
  r2 ← read32 (u32 (frame_ptr + 8))
  on_cpu (set_reg 2 r2)
  r3 ← read32 (u32 (frame_ptr + 12))
  on_cpu (set_reg 3 r3)
  r12 ← read32 (u32 (frame_ptr + 16))
  on_cpu (set_reg 12 r12)
  lr ← read32 (u32 (frame_ptr + 20))
  on_cpu (λ c. record c { lr = lr })
  pc ← read32 (u32 (frame_ptr + 24))
  on_cpu (set_pc pc)
  xpsr_status ← read32 (u32 (frame_ptr + 28))
  on_cpu (drop_frame (extract 32 0 4 return_address) (extract 32 9 1 xpsr_status * 4))
  on_cpu (restore_status xpsr_status)

enter : Bool → Cpu → Cpu
unfolding set_sp_sel
enter to_handler c = set_sp_sel false (record c { mode = if to_handler then handler else thread })

-- The switch on the return bits: the mode, the stack and the frame pointer, which stays 0 on an
-- exception mismatch and on an illegal value.
unfoldable pub select_frame : ℕ → ℕ → Cpu → ℕ × Cpu
unfolding enter set_sp_sel get_specific_banked_sp
select_frame ret_bits count c =
    if ret_bits == 0b0001
    then (if count == 1 then (0, c) else (get_specific_banked_sp main c, enter true c))
    else if ret_bits == 0b1001
    then (if not (count == 1) then (0, c) else (get_specific_banked_sp main c, enter false c))
    else if ret_bits == 0b1101
    then (if not (count == 1)
        then (0, c)
        else (get_specific_banked_sp process c, set_sp_sel true (record c { mode = thread })))
    else (0, c)

unfoldable pub deactivate : ℕ → M Unit
unfolding set_active_at
deactivate ex m = elim (set_active_at ex false m.exceptions) [
  | none ↦ none
  | some e ↦ some (tt, record m { exceptions = e })
]

-- The other tests of the program only print.
unfoldable pub exception_return : ℕ → M Unit
unfolding exception_number extract active_count select_frame deactivate pop_stack
exception_return ret_address = do
  returning_from ← ask_cpu exception_number
  count ← asks (λ m. active_count m.exceptions)
  frame ← ask_cpu (select_frame (extract 32 0 4 ret_address) count)
  on_cpu (λ _. frame.1)
  deactivate returning_from
  pop_stack frame.0 ret_address

unfoldable pub branch_interworking : ℕ → M Unit
unfolding extract exception_return bit_of set_thumb_flag branch_pc
branch_interworking address = do
  in_handler ← ask_cpu (λ c. is_in_handler_mode c.mode)
  (if in_handler && extract 32 28 4 address == 0b1111
      then exception_return (extract 32 0 28 address)
      else on_cpu (λ c. branch_pc address (set_thumb_flag (bit_of 0 address) c)))

unfoldable pub exception_entry : ℕ → ℕ → ℕ → M Unit
unfolding kind push_stack set_exception_number set_sp_sel set_active set_pending read32
    branch_link_interworking
exception_entry ex instruction_address next_instruction_address = do
  push_stack (if kind ex == ex_hardfault then instruction_address else next_instruction_address)
  on_cpu (λ c. set_sp_sel false (set_exception_number (kind ex) (record c { mode = handler })))
  modify (λ m. record m { exceptions = set_pending ex false (set_active ex true m.exceptions) })
  handler_address ← read32 (4 * kind ex)
  branch_link_interworking handler_address
