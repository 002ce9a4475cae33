-- ===== src/Mcu/Reset.antt =====
-- The state after `mcu::reset` of micromachine/mcu.hpp, and what a reset request leads to.
use micromachine.Base.{
  ℕ, ◌^◌, ◌<◌, ◌≡◌, refl, ap, ◌∙◌, true, false, if◌then◌else◌, bit_and, Option, none, some, if_true,
  if_false,
}
use micromachine.Registers.{thread, sp_sel, get_pc, thumb_flag, exception_number}
use micromachine.Exceptions.{reset_exceptions}
use micromachine.Systick.{reset_systick}
use micromachine.Usart.{reset_usart}
use micromachine.Machine.{Machine, word, read_unchecked}
use micromachine.Processor.{reset_cpu}
use micromachine.Processor.Reset.{
  reset_main, reset_gp, reset_mode, reset_pc, reset_flags, processor_reset, reset_processor_returns,
}
use micromachine.Mcu.{StepResult, ok, halted, reset, reset_to, reset_registers, after_step}

-- The machine that has been reset.
was_reset : ℕ → ℕ → Machine → Machine
was_reset entry first_word m = record m {
  cpu = reset_cpu (bit_and first_word 0xfffffffc) entry m.cpu;
  entry_point = entry;
  usart = reset_usart m.usart;
  systick = reset_systick m.systick;
  exceptions = reset_exceptions (reset_exceptions (reset_registers m.exceptions));
  signals = record m.signals { halt = false; enter_low_power = false };
}

prepared : ℕ → Machine → Machine
prepared entry m = record m {
  entry_point = entry;
  usart = reset_usart m.usart;
  systick = reset_systick m.systick;
  exceptions = reset_exceptions (reset_registers m.exceptions);
}

resets :
    (entry first_word : ℕ) (m : Machine)
    → read_unchecked word 0 m ≡ some first_word
    → reset_to entry m ≡ some (tt, was_reset entry first_word m)
unfolding reset_to was_reset prepared read_unchecked processor_reset
resets entry first_word m e = reset_processor_returns entry first_word (prepared entry m) e

-- A reset returns when the word at address 0 can be fetched, and then: the processor is in thread
-- mode with the thumb bit set and no exception number, its general purpose registers are 0, the
-- program counter is the entry point, the signals to halt and to sleep are off, and the signal that
-- asks for a reset is what it was. The main stack pointer is the word at address 0 when CONTROL
-- selected the main stack before the reset, and unchanged otherwise.
pub reset_to_lem :
    (entry first_word : ℕ) (m : Machine)
    → read_unchecked word 0 m ≡ some first_word
    → m.cpu.xpsr < 2 ^ 32
    → (m' : Machine) × (reset_to entry m ≡ some (tt, m'))
      × (m'.cpu.mode ≡ thread)
      × (thumb_flag m'.cpu ≡ true)
      × (exception_number m'.cpu ≡ 0)
      × ((r : ℕ) → r < 13 → m'.cpu.gp r ≡ 0)
      × (get_pc m'.cpu ≡ bit_and 0xfffffffe entry)
      × (m'.signals.halt ≡ false)
      × (m'.signals.enter_low_power ≡ false)
      × (m'.signals.reset ≡ m.signals.reset)
      × (m'.cpu.sp_main ≡ (if sp_sel m.cpu then m.cpu.sp_main else bit_and first_word 0xfffffffc))
unfolding was_reset
reset_to_lem entry first_word m e small =
    let sp = bit_and first_word 0xfffffffc in
    (
      was_reset entry first_word m,
      resets entry first_word m e,
      reset_mode sp entry m.cpu small,
      (reset_flags sp entry m.cpu small).0,
      (reset_flags sp entry m.cpu small).1,
      reset_gp sp entry m.cpu small,
      reset_pc sp entry m.cpu small,
      refl,
      refl,
      refl,
      reset_main sp entry m.cpu small,
    )

-- A step that finds a reset request, and no request to halt, when the word at address 0 can be
-- fetched and the status word has 32 bits, leaves the machine that a reset leaves: in thread mode,
-- its general purpose registers 0, at the entry point, with no exception number. The request stays
-- as it was, so that the next step finds it again.
pub after_step-reset :
    (first_word : ℕ) (m : Machine)
    → read_unchecked word 0 m ≡ some first_word
    → m.signals.halt ≡ false
    → m.signals.reset ≡ true
    → m.cpu.xpsr < 2 ^ 32
    → (m' : Machine) × (after_step m ≡ some (ok, m'))
      × (reset_to m.entry_point m ≡ some (tt, m'))
      × (m'.cpu.mode ≡ thread)
      × ((r : ℕ) → r < 13 → m'.cpu.gp r ≡ 0)
      × (get_pc m'.cpu ≡ bit_and 0xfffffffe m.entry_point)
      × (exception_number m'.cpu ≡ 0)
      × (m'.signals.reset ≡ true)
      × (m'.signals.halt ≡ false)
      × (read_unchecked word 0 m' ≡ some first_word)
unfolding after_step reset was_reset read_unchecked
after_step-reset first_word m e running asked small = (
  was_reset m.entry_point first_word m,
  if_false (some (halted, m)) (if m.signals.reset then continued m else some (ok, m)) running
      ∙ (if_true (continued m) (some (ok, m)) asked
          ∙ ap then_ok (resets m.entry_point first_word m e)),
  resets m.entry_point first_word m e,
  reset_mode sp m.entry_point m.cpu small,
  reset_gp sp m.entry_point m.cpu small,
  reset_pc sp m.entry_point m.cpu small,
  (reset_flags sp m.entry_point m.cpu small).1,
  asked,
  refl,
  e,
)
  where
    sp : ℕ
    sp = bit_and first_word 0xfffffffc

    then_ok : Option (Unit {0} × Machine) → Option (StepResult × Machine)
    then_ok r = elim r [ none ↦ none | some (u, n) ↦ some (ok, n) ]

    continued : Machine → Option (StepResult × Machine)
    continued n = then_ok (reset_to n.entry_point n)
