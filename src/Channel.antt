-- ===== src/Channel.antt =====
-- The bounded channel of micromachine/utils/blocking_queue.hpp between the serial port and its
-- peer, with its array of 1024 bytes. The mutex makes each call one step; a call that would wait
-- for the other side is `none`.
pub mod Queue
use micromachine.Base.{
  ℕ, ◌+◌, ◌-◌, ◌%◌, ◌^◌, Bool, true, false, ◌==◌, if◌then◌else◌, update, Option, none, some,
}

pub record Channel : Type 0 where
  pub array : ℕ → ℕ
  pub head : ℕ
  pub tail : ℕ
  pub aborted : Bool

pub data ChannelResult : Type 0 where
  success interrupted : ChannelResult

abbrev pub capacity : ℕ
capacity = 1024

-- A `size_t` of 64 bits.
abbrev pub size_t : ℕ → ℕ
size_t n = n % 2 ^ 64

unfoldable pub new_channel : Channel
new_channel = record { array = λ i. 0; head = 0; tail = 0; aborted = false }

unfoldable pub size : Channel → ℕ
size q = size_t (q.head + 2 ^ 64 - q.tail)

unfoldable pub full : Channel → Bool
unfolding size
full q = size q == capacity

unfoldable pub empty : Channel → Bool
empty q = q.head == q.tail

unfoldable pub next : ℕ → ℕ
next index = size_t (index + 1)

unfoldable pub write : ℕ → Channel → Channel
unfolding next
write value q = record q { array = update q.array (q.head % capacity) value; head = next q.head }

unfoldable pub overwrite : ℕ → Channel → Channel
unfolding next
overwrite value q = record q {
  tail = next q.tail;
  array = update q.array (q.head % capacity) value;
  head = next q.head;
}

unfoldable pub read : Channel → ℕ × Channel
unfolding next
read q = (q.array (q.tail % capacity), record q { tail = next q.tail })

unfoldable pub force_push : ℕ → Channel → ChannelResult × Channel
unfolding full write overwrite
force_push value q =
    if q.aborted
    then (interrupted, q)
    else (success, if full q then overwrite value q else write value q)

-- `pop` without a timeout; the value stays unset when it is interrupted.
unfoldable pub pop : Channel → Option (ChannelResult × Option ℕ × Channel)
unfolding empty read
pop q =
    if q.aborted
    then some (interrupted, none, q)
    else if empty q
    then none
    else some (success, some (read q).0, (read q).1)

unfoldable pub abort : Channel → Channel
abort q = record q { aborted = true }

unfoldable pub clear : Channel → Channel
clear q = record q { head = 0; tail = 0 }

-- `push` without a timeout.
unfoldable pub push : ℕ → Channel → Option (ChannelResult × Channel)
unfolding full write
push value q =
    if q.aborted
    then some (interrupted, q)
    else if full q
    then none
    else some (success, write value q)
