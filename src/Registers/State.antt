-- ===== src/Registers/State.antt =====
-- The state of the processor: micromachine/registers/core_registers/core_registers.hpp,
-- micromachine/registers/special_registers/special_registers.hpp, event_register.hpp,
-- micromachine/execution/execution_mode.hpp, and the control and primask registers. The three
-- views APSR, IPSR and EPSR share the one word `xpsr`.
use micromachine.Base.{ℕ, Bool, true, false}
use micromachine.Bits.{bit_of, set_bit_of}

pub data ExecutionMode : Type 0 where
  thread handler : ExecutionMode

pub record Cpu : Type 0 where
  pub gp : ℕ → ℕ  -- _general_purpose_registers
  pub sp_main : ℕ  -- _banked_stack_pointers[0]
  pub sp_process : ℕ  -- _banked_stack_pointers[1]
  pub lr : ℕ
  pub pc_word : ℕ
  pub pc_dirty : Bool
  pub xpsr : ℕ
  pub control : ℕ
  pub primask : ℕ
  pub mode : ExecutionMode
  pub event : Bool

abbrev pub is_in_thread_mode : ExecutionMode → Bool
is_in_thread_mode thread = true
is_in_thread_mode handler = false

abbrev pub is_in_handler_mode : ExecutionMode → Bool
is_in_handler_mode thread = false
is_in_handler_mode handler = true

-- control_reg
unfoldable pub n_priv : Cpu → Bool
n_priv c = bit_of 0 c.control

unfoldable pub sp_sel : Cpu → Bool
sp_sel c = bit_of 1 c.control

unfoldable pub set_sp_sel : Bool → Cpu → Cpu
set_sp_sel sel c = record c { control = set_bit_of 1 c.control sel }

-- primask_reg
unfoldable pub pm : Cpu → Bool
pm c = bit_of 0 c.primask

unfoldable pub set_pm : Bool → Cpu → Cpu
set_pm flag c = record c { primask = set_bit_of 0 c.primask flag }
