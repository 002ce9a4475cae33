-- ===== src/Exceptions/State.antt =====
-- The state of each exception: micromachine/exception/exception.hpp, exception_state.hpp and the
-- state classes of exception_vector.hpp, with the words of the registers that they stand in:
-- micromachine/nvic.hpp, and shpr2_reg.hpp, shpr3_reg.hpp and icsr_reg.hpp of
-- micromachine/registers/system_control.
use micromachine.Base.{
  ℕ, zero, suc, ◌+◌, ◌-◌, ◌*◌, ◌/◌, ◌%◌, Bool, true, false, ltb, if◌then◌else◌, update, ℤ, pos,
  negsuc,
}
use micromachine.Bits.{u8, extract, write_bits, bit_of, set_bit_of}

-- What the exception controller works on. `active` and `internal_pending` are by the number of the
-- state object, 0 to 31.
pub record Exceptions : Type 0 where
  pub active : ℕ → Bool
  pub internal_pending : ℕ → Bool
  pub enable_statuses : ℕ  -- nvic
  pub pending_statuses : ℕ  -- nvic
  pub priority_regs : ℕ → ℕ  -- nvic, 0 to 7
  pub shpr2 : ℕ
  pub shpr3 : ℕ
  pub icsr : ℕ

-- The classes of exception states.
pub data StateClass : Type 0 where
  non_implemented : StateClass
  fixed_priority : ℤ → StateClass
  nmi_state : StateClass
  pri11_state : StateClass
  pendsv_state : StateClass
  systick_state : StateClass
  nvic_based : ℕ → StateClass

abbrev pub ex_invalid : ℕ
ex_invalid = 0

abbrev pub ex_reset : ℕ
ex_reset = 1

abbrev pub ex_nmi : ℕ
ex_nmi = 2

abbrev pub ex_hardfault : ℕ
ex_hardfault = 3

abbrev pub ex_svcall : ℕ
ex_svcall = 11

abbrev pub ex_pendsv : ℕ
ex_pendsv = 14

abbrev pub ex_systick : ℕ
ex_systick = 15

abbrev pub ex_exti_00 : ℕ
ex_exti_00 = 16

abbrev pub max_priority : ℤ
max_priority = pos 127

abbrev pub thread_mode_priority : ℤ
thread_mode_priority = pos 4

-- The table `_indexed`.
unfoldable pub class_of : ℕ → StateClass
class_of zero = non_implemented
class_of (suc zero) = fixed_priority (negsuc 2)
class_of (suc (suc zero)) = nmi_state
class_of (suc (suc (suc zero))) = fixed_priority (negsuc 0)
class_of (suc (suc (suc (suc n)))) =
    if ltb n 7
    then non_implemented
    else if ltb n 8
    then pri11_state
    else if ltb n 10
    then non_implemented
    else if ltb n 11
    then pendsv_state
    else if ltb n 12
    then systick_state
    else nvic_based (n - 12)

-- `kind()`: the states of numbers that are not implemented are all of kind INVALID.
kind_at : StateClass → ℕ → ℕ
kind_at non_implemented n = ex_invalid
kind_at _ n = n

unfoldable pub kind : ℕ → ℕ
unfolding class_of kind_at
kind n = kind_at (class_of n) n

unfoldable pub priority_at : StateClass → Exceptions → ℤ
priority_at non_implemented e = max_priority
priority_at (fixed_priority p) e = p
priority_at nmi_state e = negsuc 1
priority_at pri11_state e = pos (extract 32 30 2 e.shpr2)
priority_at pendsv_state e = pos (extract 32 22 2 e.shpr3)
priority_at systick_state e = pos (extract 32 30 2 e.shpr3)
priority_at (nvic_based n) e = pos (extract 32 (6 + n % 4 * 8) 2 (e.priority_regs (n / 4)))

unfoldable pub priority : ℕ → Exceptions → ℤ
unfolding class_of priority_at
priority n e = priority_at (class_of n) e

-- `set_priority`, given the priority as the unsigned value that it converts to.
set_priority_at : StateClass → ℕ → Exceptions → Exceptions
set_priority_at non_implemented p e = e
set_priority_at (fixed_priority _) p e = e
set_priority_at nmi_state p e = e
set_priority_at pri11_state p e = record e { shpr2 = write_bits 32 e.shpr2 30 (u8 p) 0 2 }
set_priority_at pendsv_state p e = record e { shpr3 = write_bits 32 e.shpr3 22 (u8 p) 0 2 }
set_priority_at systick_state p e = record e { shpr3 = write_bits 32 e.shpr3 30 (u8 p) 0 2 }
set_priority_at (nvic_based n) p e =
    let word = e.priority_regs (n / 4) in
    record e {
      priority_regs = update e.priority_regs (n / 4) (write_bits 32 word (6 + n % 4 * 8) p 0 2);
    }

unfoldable pub set_priority : ℕ → ℕ → Exceptions → Exceptions
unfolding class_of set_priority_at
set_priority n p e = set_priority_at (class_of n) p e

unfoldable pub is_pending_at : StateClass → ℕ → Exceptions → Bool
is_pending_at non_implemented n e = e.internal_pending n
is_pending_at (fixed_priority _) n e = e.internal_pending n
is_pending_at nmi_state n e = bit_of 31 e.icsr
is_pending_at pri11_state n e = e.internal_pending n
is_pending_at pendsv_state n e = bit_of 28 e.icsr
is_pending_at systick_state n e = bit_of 26 e.icsr
is_pending_at (nvic_based k) n e = bit_of k e.pending_statuses

unfoldable pub is_pending : ℕ → Exceptions → Bool
unfolding class_of is_pending_at
is_pending n e = is_pending_at (class_of n) n e

unfoldable pub set_pending_at : StateClass → ℕ → Bool → Exceptions → Exceptions
set_pending_at non_implemented n flag e = record e {
  internal_pending = update e.internal_pending n flag;
}
set_pending_at (fixed_priority _) n flag e = record e {
  internal_pending = update e.internal_pending n flag;
}
set_pending_at nmi_state n flag e = record e { icsr = set_bit_of 31 e.icsr flag }
set_pending_at pri11_state n flag e = record e {
  internal_pending = update e.internal_pending n flag;
}
set_pending_at pendsv_state n flag e = record e { icsr = set_bit_of 28 e.icsr flag }
set_pending_at systick_state n flag e = record e { icsr = set_bit_of 26 e.icsr flag }
set_pending_at (nvic_based k) n flag e = record e {
  pending_statuses = set_bit_of k e.pending_statuses flag;
}

unfoldable pub set_pending : ℕ → Bool → Exceptions → Exceptions
unfolding class_of set_pending_at
set_pending n flag e = set_pending_at (class_of n) n flag e

unfoldable pub is_enabled_at : StateClass → Exceptions → Bool
is_enabled_at (nvic_based k) e = bit_of k e.enable_statuses
is_enabled_at _ e = true

unfoldable pub is_enabled : ℕ → Exceptions → Bool
unfolding class_of is_enabled_at
is_enabled n e = is_enabled_at (class_of n) e

set_enable_at : StateClass → Bool → Exceptions → Exceptions
set_enable_at (nvic_based k) flag e = record e {
  enable_statuses = set_bit_of k e.enable_statuses flag;
}
set_enable_at _ flag e = e

unfoldable pub set_enable : ℕ → Bool → Exceptions → Exceptions
unfolding class_of set_enable_at
set_enable n flag e = set_enable_at (class_of n) flag e

unfoldable pub set_active : ℕ → Bool → Exceptions → Exceptions
set_active n flag e = record e { active = update e.active n flag }

unfoldable pub reset_state : ℕ → Exceptions → Exceptions
unfolding set_pending set_active set_enable
reset_state n e = set_enable n false (set_active n false (set_pending n false e))
