-- ===== src/Usart/Receive.antt =====
-- A byte on its way from the peer to the program (micromachine/peripherals/usart).
use micromachine.Base.{
  ℕ, ◌^◌, ◌<◌, ◌≤◌, ◌≡◌, ap₂, refl, sym, ap, arith, ◌∙◌, subst, Bool, true, false, not, ◌&&◌, ◌==◌,
  if◌then◌else◌, if_true, if_false, List, ◌∷◌, some, length,
}
use micromachine.Bits.{extract, bit_of}
use micromachine.Bits.Flags.{bit_of-set_bit_of, bit_of-set_bit_of_ne, set_bit_of-lt}
use micromachine.Bits.Slices.{extract-write_bits}
use micromachine.Channel.{Channel, success, size, pop, force_push}
use micromachine.Channel.Queue.{contents, IsChannel, Popped, pop_lem, length-contents}
use micromachine.Usart.{
  Usart, tx_empty, set_tx_empty, rx_not_empty, set_rx_not_empty, read_tx, write_rx, get_rx, feed_rx,
  drain_tx, step_usart, commit_rx, should_interrupt,
}

-- The receive register holds `byte`, and the channel the bytes behind it.
Holds : ℕ → List ℕ → Usart → Type 0
unfolding rx_not_empty
Holds byte rest u =
    (extract 32 0 8 u.rx_word ≡ byte)
    × (rx_not_empty u ≡ true)
    × (contents u.rx_buffer ≡ rest)
    × (u.status < 2 ^ 32)

write_rx-Holds :
    (byte : ℕ) (rest : List ℕ) (u : Usart)
    → byte < 2 ^ 8
    → u.status < 2 ^ 32
    → u.rx_word < 2 ^ 32
    → contents u.rx_buffer ≡ rest
    → Holds byte rest (write_rx byte u)
unfolding Holds write_rx set_rx_not_empty rx_not_empty
write_rx-Holds byte rest u small status word held = (
  omega (arith, extract-write_bits 32 u.rx_word 0 byte 0 8 word (omega arith)),
  bit_of-set_bit_of 1 u.status true status (omega arith),
  held,
  set_bit_of-lt 1 u.status true status (omega arith),
)

if-Holds :
    (byte : ℕ) (rest : List ℕ) (c : Bool) (x y : Usart)
    → Holds byte rest x
    → Holds byte rest y
    → Holds byte rest (if c then x else y)
if-Holds byte rest true x y hx hy = hx
if-Holds byte rest false x y hx hy = hy

drain_tx-Holds :
    (byte : ℕ) (rest : List ℕ) (u : Usart) → Holds byte rest u → Holds byte rest (drain_tx u)
unfolding Holds drain_tx read_tx set_tx_empty rx_not_empty
drain_tx-Holds byte rest u h =
    if-Holds byte rest (not (tx_empty u))
      (record (read_tx u).1 { tx_buffer = (force_push (read_tx u).0 u.tx_buffer).1 }) u
      (
        h.0,
        bit_of-set_bit_of_ne 3 u.status true h.3 (omega arith) 1 (omega arith) (omega arith) ∙ h.1,
        h.2,
        set_bit_of-lt 3 u.status true h.3 (omega arith),
      )
      h

get_rx-Holds :
    (byte : ℕ) (rest : List ℕ) (u : Usart)
    → Holds byte rest u
    → ((get_rx u).0 ≡ byte)
      × (rx_not_empty (get_rx u).1 ≡ false)
      × (contents (get_rx u).1.rx_buffer ≡ rest)
unfolding Holds get_rx set_rx_not_empty rx_not_empty
get_rx-Holds byte rest u h =
    subst
      (λ (r : ℕ × Usart).
        (r.0 ≡ byte) × (rx_not_empty r.1 ≡ false) × (contents r.1.rx_buffer ≡ rest))
      (sym (if_false (0, u) (extract 32 0 8 u.rx_word, set_rx_not_empty false u) (ap not h.1)))
      (h.0, bit_of-set_bit_of 1 u.status false h.3 (omega arith), h.2)

not_empty :
    (q : Channel) (byte : ℕ) (rest : List ℕ) → IsChannel q → contents q ≡ byte ∷ rest → 1 ≤ size q
not_empty q byte rest ok e = omega (arith, sym (length-contents 0 q ok) ∙ ap length e)

popped_byte :
    (q : Channel) (byte : ℕ) (rest : List ℕ)
    → IsChannel q
    → q.aborted ≡ false
    → contents q ≡ byte ∷ rest
    → (q' : Channel) × (pop q ≡ some (success, some byte, q')) × (contents q' ≡ rest) × IsChannel q'
unfolding Popped
popped_byte q byte rest ok running held =
    subst (λ bytes. Popped bytes (pop q)) held (pop_lem q ok running)

feed_rx-Holds :
    (byte : ℕ) (rest : List ℕ) (u : Usart)
    → IsChannel u.rx_buffer
    → u.rx_buffer.aborted ≡ false
    → contents u.rx_buffer ≡ byte ∷ rest
    → byte < 2 ^ 8
    → rx_not_empty u ≡ false
    → u.status < 2 ^ 32
    → u.rx_word < 2 ^ 32
    → Holds byte rest (feed_rx u)
unfolding feed_rx
feed_rx-Holds byte rest u ok running held small free status word =
    subst (Holds byte rest) (sym fed)
      (write_rx-Holds byte rest (record u { rx_buffer = popped.0 }) small status word popped.2)
  where
    popped :
        (q' : Channel) × (pop u.rx_buffer ≡ some (success, some byte, q'))
        × (contents q' ≡ rest)
        × IsChannel q'
    popped = popped_byte u.rx_buffer byte rest ok running held

    filled : size u.rx_buffer == 0 ≡ false
    filled = ground (arith, not_empty u.rx_buffer byte rest ok held)

    fed : feed_rx u ≡ write_rx byte (record u { rx_buffer = popped.0 })
    fed =
        if_true (commit_rx (pop u.rx_buffer) u) u
          (ap₂ (λ a b. not a && not b) {x = size u.rx_buffer == 0} {y = false} filled free)
        ∙ ap (λ r. commit_rx r u) popped.1

stepped :
    (on c : Bool) (u a b : Usart)
    → on ≡ true
    → (let r : Usart × Bool = if not on then (u, false) else if c then (a, true) else (b, false) in
        r.0)
      ≡ (if c then a else b)
stepped true true u a b e = refl
stepped true false u a b e = refl
stepped false c u a b e = absurd (ground arith)

unsignalled-Holds :
    (byte : ℕ) (rest : List ℕ) (u : Usart)
    → Holds byte rest u
    → Holds byte rest (record u { interrupt_event = false })
unfolding Holds rx_not_empty
unsignalled-Holds byte rest u h = h

step_usart-Holds :
    (byte : ℕ) (rest : List ℕ) (u : Usart)
    → bit_of 0 u.control ≡ true
    → Holds byte rest (feed_rx u)
    → Holds byte rest (step_usart u).0
unfolding step_usart
step_usart-Holds byte rest u on h =
    subst (Holds byte rest)
      (sym (
        stepped (bit_of 0 u.control) (moved.interrupt_event && should_interrupt moved) u
          (record moved { interrupt_event = false }) moved on))
      (if-Holds byte rest (moved.interrupt_event && should_interrupt moved)
        (record moved { interrupt_event = false }) moved (unsignalled-Holds byte rest moved moves)
        moves)
  where
    moved : Usart
    moved = drain_tx (feed_rx u)

    moves : Holds byte rest moved
    moves = drain_tx-Holds byte rest (feed_rx u) h

-- When the port is enabled, the receive register is empty and the channel is well-formed and not
-- aborted, a step hands the oldest byte of the channel to the program (the port's registers and the
-- byte are in their ranges): a read of the register then yields that byte, empties the
-- register, and leaves the other bytes in the channel in their order.
pub get_rx-step_usart :
    (byte : ℕ) (rest : List ℕ) (u : Usart)
    → IsChannel u.rx_buffer
    → u.rx_buffer.aborted ≡ false
    → contents u.rx_buffer ≡ byte ∷ rest
    → byte < 2 ^ 8
    → bit_of 0 u.control ≡ true
    → rx_not_empty u ≡ false
    → u.status < 2 ^ 32
    → u.rx_word < 2 ^ 32
    → let r = get_rx (step_usart u).0 in
      (r.0 ≡ byte) × (rx_not_empty r.1 ≡ false) × (contents r.1.rx_buffer ≡ rest)
get_rx-step_usart byte rest u ok running held small on free status word =
    get_rx-Holds byte rest (step_usart u).0 (
      step_usart-Holds byte rest u on
        (feed_rx-Holds byte rest u ok running held small free status word))
