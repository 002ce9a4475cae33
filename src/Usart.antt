-- ===== src/Usart.antt =====
-- The serial port: micromachine/peripherals/usart/usart_reg.hpp and usart_controller.hpp.
pub mod Receive
use micromachine.Base.{
  ℕ, Bool, true, false, not, ◌&&◌, ◌||◌, if◌then◌else◌, bool_eq, ◌==◌, Option, none, some,
}
use micromachine.Channel.{Channel, ChannelResult, success, size, pop, force_push}
use micromachine.Bits.{extract, write_bits, bit_of, set_bit_of}

pub record Usart : Type 0 where
  pub interrupt_event : Bool
  pub status : ℕ  -- usart_is_reg
  pub control : ℕ  -- usart_cr1_reg
  pub rx_word : ℕ
  pub tx_word : ℕ
  pub rx_buffer : Channel
  pub tx_buffer : Channel

unfoldable pub tx_empty : Usart → Bool
tx_empty u = bit_of 3 u.status

unfoldable pub set_tx_empty : Bool → Usart → Usart
set_tx_empty flag u = record u {
  status = set_bit_of 3 u.status flag;
  interrupt_event = if flag then true else u.interrupt_event;
}

unfoldable pub rx_not_empty : Usart → Bool
rx_not_empty u = bit_of 1 u.status

unfoldable pub set_rx_not_empty : Bool → Usart → Usart
set_rx_not_empty flag u = record u {
  status = set_bit_of 1 u.status flag;
  interrupt_event = if flag then true else u.interrupt_event;
}

-- usart_ic_reg
unfoldable pub set_clear : ℕ → Usart → Usart
unfolding set_rx_not_empty set_tx_empty
set_clear word u =
    let cleared_rx = if bit_of 1 word then set_rx_not_empty false u else u in
    if bit_of 2 word then set_tx_empty false cleared_rx else cleared_rx

-- usart_tx_reg
unfoldable pub read_tx : Usart → ℕ × Usart
unfolding set_tx_empty
read_tx u = (extract 32 0 8 u.tx_word, set_tx_empty true u)

unfoldable pub set_tx : ℕ → Usart → Usart
unfolding set_tx_empty
set_tx word u = set_tx_empty false (record u { tx_word = write_bits 32 u.tx_word 0 word 0 8 })

unfoldable pub reset_tx : Usart → Usart
unfolding set_tx_empty
reset_tx u = set_tx_empty true (record u { tx_word = 0 })

-- usart_rx_reg; a read by the program empties the register.
unfoldable pub write_rx : ℕ → Usart → Usart
unfolding set_rx_not_empty
write_rx byte u = set_rx_not_empty true (record u { rx_word = write_bits 32 u.rx_word 0 byte 0 8 })

unfoldable pub get_rx : Usart → ℕ × Usart
unfolding rx_not_empty set_rx_not_empty
get_rx u =
    if not (rx_not_empty u) then (0, u) else (extract 32 0 8 u.rx_word, set_rx_not_empty false u)

-- `usart_controller::reset`. Resetting the interrupt clear register writes 0 to it, and resetting
-- the receive register writes to it, which is ignored.
unfoldable pub reset_usart : Usart → Usart
unfolding set_clear reset_tx
reset_usart u =
    reset_tx (set_clear 0 (record u { interrupt_event = false; control = 0; status = 0 }))

-- usart_cr1_reg: `detect_transition_of`, and a write to it.
unfoldable pub detect_transition_of : ℕ → ℕ → ℕ → Bool → Bool
detect_transition_of bit word new_value trigger_state =
    not (bool_eq (bit_of bit new_value) (bit_of bit word))
    && bool_eq (bit_of bit new_value) trigger_state

unfoldable pub set_cr1 : ℕ → Usart → Usart
unfolding detect_transition_of reset_usart
set_cr1 word u =
    let event =
      detect_transition_of 3 u.control word true || detect_transition_of 1 u.control word true in
    let signalled = record u { interrupt_event = if event then true else u.interrupt_event } in
    let settled =
      if detect_transition_of 0 u.control word false then reset_usart signalled else signalled in
    record settled { control = word }

-- What `step` makes of a pop. The guard of `step` leaves out the pop that would wait.
commit_rx : Option (ChannelResult × Option ℕ × Channel) → Usart → Usart
unfolding write_rx
commit_rx none u = u
commit_rx (some (success, some byte, q)) u = write_rx byte (record u { rx_buffer = q })
commit_rx (some (_, _, q)) u = record u { rx_buffer = q }

-- The parts of `step`: a byte for the program, a byte from it, the interrupt.
unfoldable pub feed_rx : Usart → Usart
unfolding rx_not_empty commit_rx
feed_rx u =
    if not (size u.rx_buffer == 0) && not (rx_not_empty u) then commit_rx (pop u.rx_buffer) u else u

unfoldable pub drain_tx : Usart → Usart
unfolding tx_empty read_tx
drain_tx u =
    let (byte, emptied) = read_tx u in
    if not (tx_empty u) then record emptied { tx_buffer = (force_push byte u.tx_buffer).1 } else u

unfoldable pub should_interrupt : Usart → Bool
unfolding tx_empty rx_not_empty
should_interrupt u = tx_empty u && bit_of 3 u.control || rx_not_empty u && bit_of 1 u.control

-- `step`; the flag says that the external interrupt is raised.
unfoldable pub step_usart : Usart → Usart × Bool
unfolding feed_rx drain_tx should_interrupt
step_usart u =
    let moved = drain_tx (feed_rx u) in
    if not (bit_of 0 u.control)
    then (u, false)
    else if moved.interrupt_event && should_interrupt moved
    then (record moved { interrupt_event = false }, true)
    else (moved, false)

-- The peer's side: `send`.
unfoldable pub send : ℕ → Usart → Usart
send byte u = record u { rx_buffer = (force_push byte u.rx_buffer).1 }
