-- ===== src/Mcu.antt =====
-- micromachine/mcu.hpp and mcu.cpp: the reset and the step of the whole machine.
pub mod Reset
pub mod Ends
use micromachine.Base.{ℕ, Bool, true, false, if◌then◌else◌, Option, none, some}
use micromachine.Exceptions.{Exceptions, reset_exceptions, raise, ex_systick, ex_exti_00}
use micromachine.Systick.{reset_systick, step_systick}
use micromachine.Usart.{reset_usart, step_usart}
use micromachine.Machine.{Machine, M, pure, modify, asks, ◌>>=◌, ◌>>◌}
use micromachine.Processor.{reset_processor, step_processor}

-- The resets of nvic.hpp, shpr2_reg.hpp and shpr3_reg.hpp.
unfoldable pub reset_registers : Exceptions → Exceptions
reset_registers e = record e {
  enable_statuses = 0;
  pending_statuses = 0;
  priority_regs = λ _. 0;
  shpr2 = 0;
  shpr3 = 0;
}

unfoldable pub reset_to : ℕ → M Unit
unfolding reset_usart reset_systick reset_registers reset_exceptions reset_processor
reset_to program_entry_point = do
  modify (λ m. record m {
    entry_point = program_entry_point;
    usart = reset_usart m.usart;
    systick = reset_systick m.systick;
    exceptions = reset_exceptions (reset_registers m.exceptions);
  })
  reset_processor program_entry_point

unfoldable pub reset : M Unit
unfolding reset_to
reset m = reset_to m.entry_point m

pub data StepResult : Type 0 where
  ok halted : StepResult

unfoldable pub raise_if : Bool → ℕ → Exceptions → Exceptions
unfolding raise
raise_if flag ex e = if flag then raise ex e else e

unfoldable pub step_peripherals : Machine → Machine
unfolding step_systick step_usart raise_if
step_peripherals m =
    let timer = step_systick m.systick in
    let port = step_usart m.usart in
    record m {
      systick = timer.0;
      usart = port.0;
      exceptions = raise_if port.1 ex_exti_00 (raise_if timer.1 ex_systick m.exceptions);
    }

-- What the control signals ask for after a step.
unfoldable pub after_step : M StepResult
unfolding reset
after_step m =
    if m.signals.halt
    then some (halted, m)
    else if m.signals.reset
    then (do reset; pure ok) m
    else some (ok, m)

unfoldable pub step : M StepResult
unfolding step_peripherals step_processor after_step
step = do modify step_peripherals; step_processor; after_step
