-- ===== src/Processor/Preemption.antt =====
-- Which exception a step takes (micromachine/cpu.hpp).
use micromachine.Base.{
  ℕ, ◌≡◌, ◌≤◌, ◌⊎◌, sym, ap, arith, ◌∙◌, subst, true, false, if◌then◌else◌, Option, none, some, ℤ,
  pos, ◌≤ℤ◌, ◌<ℤ◌, ltbℤ, ltbℤ_iff, Bool-cases, inl, inr, List, [], ◌∷◌, All,
}
use micromachine.Registers.{pm}
use micromachine.Exceptions.{
  Exceptions, top_pending, priority, current_execution_priority, implemented_numbers,
  active_numbers, thread_mode_priority,
}
use micromachine.Exceptions.Round.{Candidate, Urgent}
use micromachine.Exceptions.Priority.{IsLeast, current_execution_priority_lem}
use micromachine.Exceptions.Selection.{Member, IsTop, top_pending_lem}
use micromachine.Machine.{Machine}
use micromachine.Processor.{preempts, next_exception_to_take}

-- The priority of what runs, as the program has it: 0 when PRIMASK is set, and otherwise the least
-- of 4, which is that of thread mode, and the priorities of the active exceptions from HardFault on.
-- Reset and NMI do not count.
unfoldable pub IsLevel : Machine → ℤ → Type 0
IsLevel m l =
    (pm m.cpu ≡ true → l ≡ pos 0)
    × (pm m.cpu ≡ false
        → (l ≤ℤ pos 4)
          × ((k : ℕ)
              → Member k implemented_numbers
              → 3 ≤ k
              → m.exceptions.active k ≡ true
              → l ≤ℤ priority k m.exceptions)
          × ((l ≡ pos 4)
              ⊎ ((k : ℕ) × Member k implemented_numbers
                  × (3 ≤ k)
                  × (m.exceptions.active k ≡ true)
                  × (l ≡ priority k m.exceptions))))

-- What the choice of the next exception means at a priority of what runs.
unfoldable pub IsNext : Machine → ℤ → Option ℕ → Type 0
IsNext m l none =
    (k : ℕ) → Member k implemented_numbers → Candidate m.exceptions k → l ≤ℤ priority k m.exceptions
IsNext m l (some n) = IsTop m.exceptions (some n) × (priority n m.exceptions <ℤ l)

level : Machine → ℤ
level m = current_execution_priority (pm m.cpu) m.exceptions

Member-All : (P : ℕ → Type 0) (ns : List ℕ) → All P ns → (k : ℕ) → Member k ns → P k
unfolding Member
Member-All P [] a k m = absurd m
Member-All P (n ∷ ns) a k (inl e) = subst P (sym e) a.0
Member-All P (n ∷ ns) a k (inr m) = Member-All P ns a.1 k m

from_hardfault : All (λ n. 3 ≤ n) active_numbers
from_hardfault = ground arith

Member-active : (k : ℕ) → Member k implemented_numbers → 3 ≤ k → Member k active_numbers
unfolding Member
Member-active k (inl e) h = absurd (omega arith)
Member-active k (inr (inl e)) h = absurd (omega arith)
Member-active k (inr (inr m)) h = m

-- The least that the arbitration computes is the priority of what runs.
least_lem :
    (e : Exceptions) (l : ℤ)
    → IsLeast e active_numbers thread_mode_priority l
    → (l ≤ℤ pos 4)
      × ((k : ℕ) → Member k implemented_numbers → 3 ≤ k → e.active k ≡ true → l ≤ℤ priority k e)
      × ((l ≡ pos 4)
          ⊎ ((k : ℕ) × Member k implemented_numbers
              × (3 ≤ k)
              × (e.active k ≡ true)
              × (l ≡ priority k e)))
unfolding IsLeast Member
least_lem e l (under, best, is) = (
  under,
  λ k m h on. best k (Member-active k m h) on,
  elim is [
    | inl same ↦ inl same
    | inr (k, m, on, same) ↦
        inr (k, inr (inr m), Member-All (λ n. 3 ≤ n) active_numbers from_hardfault k m, on, same)
  ],
)

level-IsLevel : (m : Machine) → IsLevel m (level m)
unfolding IsLevel level
level-IsLevel m = (
  λ masked.
      ap (λ b. current_execution_priority b m.exceptions) masked
      ∙ (current_execution_priority_lem m.exceptions).0,
  λ clear. least_lem m.exceptions (current_execution_priority (pm m.cpu) m.exceptions) (
      subst
        (λ b.
          IsLeast m.exceptions active_numbers thread_mode_priority
            (current_execution_priority b m.exceptions))
        (sym clear) (current_execution_priority_lem m.exceptions).1),
)

not_less : (a b c : ℤ) → ltbℤ a b ≡ false → a ≤ℤ c → b ≤ℤ c
not_less a b c h k = ground arith

Urgent-at_least : (e : Exceptions) (n k : ℕ) → Urgent e n k → priority n e ≤ℤ priority k e
unfolding Urgent
Urgent-at_least e n k (inl less) = omega (arith, less)
Urgent-at_least e n k (inr (le, _)) = le

-- The choice, by what the arbitration selects.
choice_lem :
    (m : Machine) (top : Option ℕ)
    → IsTop m.exceptions top
    → IsNext m
        (level m)
        (elim top [ none ↦ none | some ex ↦ if preempts ex m then some ex else none ])
unfolding IsNext IsTop preempts level
choice_lem m none nothing = λ k member candidate. absurd (nothing k member candidate)
choice_lem m (some n) top = elim (Bool-cases (preempts n m)) [
  | inl h ↦
      subst (λ b. IsNext m (level m) (if b then some n else none)) (sym h)
        (top, (ltbℤ_iff (priority n m.exceptions) (level m)).0 h)
  | inr h ↦
      subst (λ b. IsNext m (level m) (if b then some n else none)) (sym h)
        (λ k member candidate.
          not_less (priority n m.exceptions) (level m) (priority k m.exceptions) h
            (Urgent-at_least m.exceptions n k (top.2 k member candidate)))
]

-- The exception that a step takes is the most urgent one that is pending and enabled, of equally
-- urgent ones that of the lowest number, and its priority is below that of what runs. None is taken
-- exactly when no pending and enabled exception has a priority below that. The priority of what
-- runs is 0 with PRIMASK set, and otherwise the least of that of thread mode and those of the
-- active exceptions from HardFault on: an active NMI does not count.
pub next_exception_to_take_lem :
    (m : Machine) → (l : ℤ) × IsLevel m l × IsNext m l (next_exception_to_take m)
unfolding next_exception_to_take
next_exception_to_take_lem m = (
  level m,
  level-IsLevel m,
  choice_lem m (top_pending m.exceptions) (top_pending_lem m.exceptions),
)
