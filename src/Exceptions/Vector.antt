-- ===== src/Exceptions/Vector.antt =====
-- exception_vector of micromachine/exception/exception_vector.hpp, as it is compiled
-- (MICROMACHINE_USE_EXCEPTION_LOOP_UNROLLING is defined), and exception_vector_controller.hpp.
use micromachine.Base.{
  ℕ, zero, suc, ◌+◌, Bool, true, ◌&&◌, ◌||◌, ltb, ◌==◌, if◌then◌else◌, Option, none, some, List, [],
  ◌∷◌, ℤ, pos, ltbℤ, eqbℤ,
}
use micromachine.Exceptions.State.{
  Exceptions, ex_invalid, ex_reset, ex_nmi, ex_hardfault, ex_svcall, ex_pendsv, ex_systick,
  max_priority, thread_mode_priority, priority, set_priority, is_pending, set_pending, is_enabled,
  set_active, reset_state,
}

-- The 16 external interrupts.
abbrev pub external_numbers : List ℕ
external_numbers =
    16 ∷ 17 ∷ 18 ∷ 19 ∷ 20 ∷ 21 ∷ 22 ∷ 23 ∷ 24 ∷ 25 ∷ 26 ∷ 27 ∷ 28 ∷ 29 ∷ 30 ∷ 31 ∷ []

-- The states that `top_pending` goes through, in its order.
abbrev pub implemented_numbers : List ℕ
implemented_numbers =
    ex_reset ∷ ex_nmi ∷ ex_hardfault ∷ ex_svcall ∷ ex_pendsv ∷ ex_systick ∷ external_numbers

-- The states that `current_execution_priority` goes through.
abbrev pub active_numbers : List ℕ
active_numbers = ex_hardfault ∷ ex_svcall ∷ ex_pendsv ∷ ex_systick ∷ external_numbers

-- `top_pending_number` and `top_pending_priority`.
pub record Top : Type 0 where
  pub number : ℕ
  pub prio : ℤ

-- The macro `sort_exception_priority`.
unfoldable pub sort_exception_priority : Exceptions → ℕ → Top → Top
unfolding priority is_pending is_enabled
sort_exception_priority e n top =
    let found : Top = record { number = n; prio = priority n e } in
    if is_pending n e && is_enabled n e
    then (if top.number == ex_invalid || ltbℤ (priority n e) top.prio
        then found
        else if eqbℤ (priority n e) top.prio
        then (if ltb n top.number then found else top)
        else top)
    else top

unfoldable pub sort_all : Exceptions → List ℕ → Top → Top
unfolding sort_exception_priority
sort_all e [] top = top
sort_all e (n ∷ ns) top = sort_all e ns (sort_exception_priority e n top)

abbrev pub no_top : Top
no_top = record { number = ex_invalid; prio = max_priority }

-- The number of the state that `top_pending` returns; `none` is the null pointer.
unfoldable pub top_pending : Exceptions → Option ℕ
unfolding sort_all
top_pending e =
    let top = sort_all e implemented_numbers no_top in
    if top.number == ex_invalid then none else some top.number

-- The macro `sort_max_priority`.
unfoldable pub sort_max_priority : Exceptions → ℕ → ℤ → ℤ
unfolding priority
sort_max_priority e n prio = if e.active n && ltbℤ (priority n e) prio then priority n e else prio

unfoldable pub sort_max_all : Exceptions → List ℕ → ℤ → ℤ
unfolding sort_max_priority
sort_max_all e [] prio = prio
sort_max_all e (n ∷ ns) prio = sort_max_all e ns (sort_max_priority e n prio)

unfoldable pub current_execution_priority : Bool → Exceptions → ℤ
unfolding sort_max_all
current_execution_priority primask_pm e =
    let prio = if primask_pm then pos 0 else sort_max_all e active_numbers thread_mode_priority in
    if ltbℤ prio thread_mode_priority then prio else thread_mode_priority

-- The loops over `_indexed`, with `left` states to go from number `n`.
unfoldable pub active_count_from : ℕ → ℕ → Exceptions → ℕ
active_count_from zero n e = 0
active_count_from (suc left) n e =
    let rest = active_count_from left (n + 1) e in if e.active n then suc rest else rest

unfoldable pub active_count : Exceptions → ℕ
unfolding active_count_from
active_count e = active_count_from 32 0 e

unfoldable pub reset_states : ℕ → ℕ → Exceptions → Exceptions
unfolding reset_state
reset_states zero n e = e
reset_states (suc left) n e = reset_states left (n + 1) (reset_state n e)

unfoldable pub reset_exceptions : Exceptions → Exceptions
unfolding reset_states set_priority
reset_exceptions e =
    set_priority ex_systick 0
      (set_priority ex_pendsv 0 (set_priority ex_svcall 0 (reset_states 32 0 e)))

-- `raise` of exception_vector_controller.
unfoldable pub raise : ℕ → Exceptions → Exceptions
unfolding set_pending
raise ex e = set_pending ex true e

-- `interrupt_state(ex).is_active()` and `.set_active`, for a number that is only known when it is
-- run: `_indexed.at` throws above 31.
unfoldable pub is_active_at : ℕ → Exceptions → Option Bool
is_active_at ex e = if ltb ex 32 then some (e.active ex) else none

unfoldable pub set_active_at : ℕ → Bool → Exceptions → Option Exceptions
unfolding set_active
set_active_at ex flag e = if ltb ex 32 then some (set_active ex flag e) else none
