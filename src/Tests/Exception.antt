-- ===== src/Tests/Exception.antt =====
-- The arbitration of exceptions, the timer, the channel and the register map at concrete states.
use micromachine.Base.{ℕ, suc, ◌≡◌, refl, arith, true, false, ◌==◌, List, [], ◌∷◌, pos, negsuc}
use micromachine.Exceptions.{
  Exceptions, top_pending, top_pending_reference, is_pending, active_numbers, thread_mode_priority,
  current_execution_priority, current_execution_priority_reference,
}
use micromachine.Exceptions.Selection.{IsTop, top_pending_lem}
use micromachine.Exceptions.Unrolled.{top_pending-top_pending_reference}
use micromachine.Exceptions.Priority.{
  IsLeast, current_execution_priority_lem, current_execution_priority-nmi,
}
use micromachine.Systick.{Systick, enabled}
use micromachine.Systick.Period.{run, Counts, run_period}
use micromachine.Usart.{Usart, rx_not_empty, get_rx, step_usart}
use micromachine.Usart.Receive.{get_rx-step_usart}
use micromachine.Channel.{next, Channel, success, size, force_push, pop}
use micromachine.Channel.Queue.{
  contents, contents_from, bounded_push, IsChannel, Popped, force_push_lem, pop_lem,
}
use micromachine.RegisterMap.{find, get_register_at}
use micromachine.RegisterMap.Filter.{get_register_at_lem}
use micromachine.Bits.{bit_of}

-- HardFault and two external interrupts are pending, and NMI is active.
abbrev pub some_exceptions : Exceptions
some_exceptions = record {
  active = λ n. n == 2;
  internal_pending = λ n. n == 3;
  enable_statuses = 0b1111;
  pending_statuses = 0b0110;
  priority_regs = λ n. 0;
  shpr2 = 0;
  shpr3 = 0;
  icsr = 0;
}

top_pending_lem_example : IsTop some_exceptions (top_pending some_exceptions)
top_pending_lem_example = top_pending_lem some_exceptions

top_pending-top_pending_reference_example :
    top_pending some_exceptions ≡ top_pending_reference some_exceptions
unfolding is_pending
top_pending-top_pending_reference_example =
    top_pending-top_pending_reference some_exceptions (ground arith)

current_execution_priority_lem_example :
    (current_execution_priority true some_exceptions ≡ pos 0)
    × IsLeast some_exceptions active_numbers thread_mode_priority
        (current_execution_priority false some_exceptions)
current_execution_priority_lem_example = current_execution_priority_lem some_exceptions

current_execution_priority-nmi_example :
    (current_execution_priority false some_exceptions ≡ pos 4)
    × (current_execution_priority_reference false some_exceptions ≡ negsuc 1)
current_execution_priority-nmi_example =
    current_execution_priority-nmi some_exceptions refl (λ k ne. ground arith)

abbrev pub some_systick : Systick
some_systick = record { control = 1; current_value = 0; reload_value = 3; calib_value = 0 }

some_systick-Counts : Counts 3 0 some_systick
unfolding Counts enabled bit_of
some_systick-Counts = (refl, refl, refl, omega arith)

run_period_example : Counts 3 0 (run (suc 3) some_systick).0 × ((run (suc 3) some_systick).1 ≡ 1)
run_period_example = run_period 3 (omega arith) (omega arith) some_systick some_systick-Counts

-- A channel that holds one byte.
abbrev pub some_channel : Channel
some_channel = record { array = λ i. 7; head = 1; tail = 0; aborted = false }

some_channel-IsChannel : IsChannel some_channel
unfolding IsChannel size
some_channel-IsChannel = (omega arith, omega arith, omega arith)

force_push_lem_example :
    ((force_push 9 some_channel).0 ≡ success)
    × (contents (force_push 9 some_channel).1 ≡ bounded_push 9 (contents some_channel))
    × IsChannel (force_push 9 some_channel).1
force_push_lem_example = force_push_lem 9 some_channel some_channel-IsChannel refl

pop_lem_example : Popped (contents some_channel) (pop some_channel)
pop_lem_example = pop_lem some_channel some_channel-IsChannel refl

abbrev some_map : List (ℕ × ℕ)
some_map = (0x10, 1) ∷ (0x14, 2) ∷ []

get_register_at_lem_example : get_register_at 0x14 some_map ≡ find 0x14 some_map
get_register_at_lem_example = get_register_at_lem 0x14 some_map

-- An enabled port that holds one byte for the program.
abbrev some_usart : Usart
some_usart = record {
  interrupt_event = false;
  status = 0b1000;
  control = 0b0011;
  rx_word = 0;
  tx_word = 0;
  rx_buffer = some_channel;
  tx_buffer = some_channel;
}

some_channel_holds : contents some_channel ≡ 7 ∷ []
unfolding contents contents_from next size
some_channel_holds = refl

get_rx-step_usart_example :
    let r = get_rx (step_usart some_usart).0 in
    (r.0 ≡ 7) × (rx_not_empty r.1 ≡ false) × (contents r.1.rx_buffer ≡ [])
unfolding rx_not_empty bit_of
get_rx-step_usart_example =
    get_rx-step_usart 7 [] some_usart some_channel-IsChannel refl some_channel_holds (omega arith)
      refl refl (omega arith) (omega arith)
