-- ===== src/Machine/State.antt =====
-- The state of micromachine/mcu.hpp: every component that the program's objects refer to, and the
-- monad of what changes it.
use micromachine.Base.{ℕ, Bool, List, Option, none, some}
use micromachine.Registers.{Cpu}
use micromachine.Exceptions.{Exceptions, raise}
use micromachine.Systick.{Systick}
use micromachine.Usart.{Usart}

-- memory_mapping of micromachine/memory/mapping.hpp. `host` are the bytes behind `_host_mem`, of
-- which `host_size` are allocated.
pub record Mapping : Type 0 where
  pub start : ℕ
  pub end : ℕ
  pub host : ℕ → ℕ
  pub host_size : ℕ

-- micromachine/control_signals.hpp
pub record ControlSignals : Type 0 where
  pub halt : Bool
  pub enter_low_power : Bool
  pub reset : Bool

pub record Machine : Type 0 where
  pub cpu : Cpu
  pub exceptions : Exceptions
  pub systick : Systick
  pub usart : Usart
  pub signals : ControlSignals
  pub regions : List Mapping
  pub has_io_callback : Bool
  pub io_output : List ℕ  -- the bytes given to the callback, the last one first
  pub entry_point : ℕ  -- _previously_used_entrypoint

-- `none` is a run that C++ leaves undefined, or an exception that ends the program.
abbrev pub M : Type 0 → Type 0
M A = Machine → Option (A × Machine)

abbrev pub pure : {A : Type 0} → A → M A
pure a m = some (a, m)

infixl 5 ◌>>=◌ ◌>>◌
abbrev pub ◌>>=◌ : {A B : Type 0} → M A → (A → M B) → M B
◌>>=◌ x f m = elim (x m) [ none ↦ none | some (a, m') ↦ f a m' ]

abbrev pub ◌>>◌ : {B : Type 0} → M (Unit {0}) → M B → M B
x >> k = x >>= λ _. k

-- A change of the state, and a reading of it.
abbrev pub modify : (Machine → Machine) → M (Unit {0})
modify f m = some (tt, f m)

abbrev pub asks : {A : Type 0} → (Machine → A) → M A
asks f m = some (f m, m)

abbrev pub on_cpu : (Cpu → Cpu) → M (Unit {0})
on_cpu f m = some (tt, record m { cpu = f m.cpu })

abbrev pub ask_cpu : {A : Type 0} → (Cpu → A) → M A
ask_cpu f m = some (f m.cpu, m)

abbrev pub undefined : {A : Type 0} → M A
undefined m = none

unfoldable pub raise_exception : ℕ → M (Unit {0})
raise_exception ex m = some (tt, record m { exceptions = raise ex m.exceptions })
