-- ===== src/Exceptions/Reference.antt =====
-- The loops of exception_vector.hpp that are compiled when
-- MICROMACHINE_USE_EXCEPTION_LOOP_UNROLLING is not defined.
use micromachine.Base.{
  ℕ, zero, suc, ◌+◌, Bool, not, ltb, if◌then◌else◌, Option, none, some, ℤ, pos, ltbℤ, eqbℤ,
}
use micromachine.Exceptions.State.{
  Exceptions, priority, is_pending, is_enabled, kind, thread_mode_priority,
}

-- One round of the loop of `top_pending`: `top` is the number of the state that it points to.
unfoldable pub better : Exceptions → ℕ → Option ℕ → Option ℕ
unfolding priority kind
better e n none = some n
better e n (some top) =
    if ltbℤ (priority n e) (priority top e)
    then some n
    else if eqbℤ (priority n e) (priority top e)
    then (if ltb (kind n) (kind top) then some n else some top)
    else some top

unfoldable pub loop_round : Exceptions → ℕ → Option ℕ → Option ℕ
unfolding better is_pending is_enabled
loop_round e n top =
    if not (is_pending n e) then top else if not (is_enabled n e) then top else better e n top

unfoldable pub top_pending_loop : Exceptions → ℕ → ℕ → Option ℕ → Option ℕ
unfolding loop_round
top_pending_loop e zero n top = top
top_pending_loop e (suc left) n top = top_pending_loop e left (n + 1) (loop_round e n top)

unfoldable pub top_pending_reference : Exceptions → Option ℕ
unfolding top_pending_loop
top_pending_reference e = top_pending_loop e 32 0 none

unfoldable pub priority_round : Exceptions → ℕ → ℤ → ℤ
unfolding priority
priority_round e n prio =
    if not (e.active n) then prio else if ltbℤ (priority n e) prio then priority n e else prio

unfoldable pub priority_loop : Exceptions → ℕ → ℕ → ℤ → ℤ
unfolding priority_round
priority_loop e zero n prio = prio
priority_loop e (suc left) n prio = priority_loop e left (n + 1) (priority_round e n prio)

unfoldable pub current_execution_priority_reference : Bool → Exceptions → ℤ
unfolding priority_loop
current_execution_priority_reference primask_pm e =
    let prio = if primask_pm then pos 0 else priority_loop e 30 2 thread_mode_priority in
    if ltbℤ prio thread_mode_priority then prio else thread_mode_priority
