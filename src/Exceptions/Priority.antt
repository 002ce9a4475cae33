-- ===== src/Exceptions/Priority.antt =====
-- The execution priority of micromachine/exception/exception_vector.hpp.
use micromachine.Base.{
  ℕ, zero, suc, ◌+◌, ◌≤◌, ◌≡◌, ◌≢◌, ◌⊎◌, inl, inr, refl, sym, ap, arith, ◌∙◌, subst, Bool, true,
  false, not, ◌&&◌, if◌then◌else◌, Bool-cases, if_true, if_false, All, List, [], ◌∷◌, ℤ, pos,
  negsuc, ltbℤ, eq_of_parts, ◌≤ℤ◌,
}
use micromachine.Exceptions.State.{Exceptions, priority, thread_mode_priority}
use micromachine.Exceptions.Vector.{
  sort_max_priority, sort_max_all, current_execution_priority, active_numbers,
}
use micromachine.Exceptions.Reference.{
  priority_round, priority_loop, current_execution_priority_reference,
}
use micromachine.Exceptions.Selection.{Member}

-- The least of a bound and the priorities of the active exceptions of a list.
unfoldable pub IsLeast : Exceptions → List ℕ → ℤ → ℤ → Type 0
IsLeast e ns bound p =
    (p ≤ℤ bound)
    × ((k : ℕ) → Member k ns → e.active k ≡ true → p ≤ℤ priority k e)
    × ((p ≡ bound) ⊎ ((k : ℕ) × Member k ns × (e.active k ≡ true) × (p ≡ priority k e)))

lower : ℤ → ℤ → ℤ
lower p bound = if ltbℤ p bound then p else bound

lower_le : (p bound : ℤ) → (lower p bound ≤ℤ p) × (lower p bound ≤ℤ bound)
unfolding lower
lower_le p bound = (ground arith, ground arith)

lower_is : (p bound : ℤ) → (lower p bound ≡ p) ⊎ (lower p bound ≡ bound)
unfolding lower
lower_is p bound = elim (Bool-cases (ltbℤ p bound)) [
  | inl lt ↦ inl (if_true p bound lt)
  | inr ge ↦ inr (if_false p bound ge)
]

le_trans : (a b c : ℤ) → a ≤ℤ b → b ≤ℤ c → a ≤ℤ c
le_trans a b c p q = omega arith

module _ (e : Exceptions) (n : ℕ) (bound : ℤ) where
  active_round : e.active n ≡ true → sort_max_priority e n bound ≡ lower (priority n e) bound
  unfolding sort_max_priority lower
  active_round on =
      ap (λ (b : Bool). if b && ltbℤ (priority n e) bound then priority n e else bound) on

  inactive_round : e.active n ≡ false → sort_max_priority e n bound ≡ bound
  unfolding sort_max_priority
  inactive_round off =
      ap (λ (b : Bool). if b && ltbℤ (priority n e) bound then priority n e else bound) off

module _ (e : Exceptions) (n : ℕ) (ns : List ℕ) (bound r : ℤ) where
  with_active :
      e.active n ≡ true → IsLeast e ns (lower (priority n e) bound) r → IsLeast e (n ∷ ns) bound r
  unfolding IsLeast Member
  with_active on (under, best, is) = (
    le_trans r (lower (priority n e) bound) bound under (lower_le (priority n e) bound).1,
    λ k m act. elim m [
      | inl k_n ↦
          subst (λ j. r ≤ℤ priority j e) (sym k_n)
            (le_trans r (lower (priority n e) bound) (priority n e) under
              (lower_le (priority n e) bound).0)
      | inr later ↦ best k later act
    ],
    elim is [
      | inr (k, m, act, same) ↦ inr (k, inr m, act, same)
      | inl same ↦ elim (lower_is (priority n e) bound) [
        | inl p ↦ inr (n, inl refl, on, same ∙ p)
        | inr p ↦ inl (same ∙ p)
      ]
    ],
  )

  with_inactive : e.active n ≡ false → IsLeast e ns bound r → IsLeast e (n ∷ ns) bound r
  unfolding IsLeast Member
  with_inactive off (under, best, is) = (
    under,
    λ k m act. elim m [
      | inl k_n ↦ absurd (clash (e.active n) off (subst (λ j. e.active j ≡ true) k_n act))
      | inr later ↦ best k later act
    ],
    elim is [ inl same ↦ inl same | inr (k, m, act, same) ↦ inr (k, inr m, act, same) ],
  )
    where
      clash : (b : Bool) → b ≡ false → b ≡ true → ⊥
      clash b p q = cc

IsLeast-nil : (e : Exceptions) (bound : ℤ) → IsLeast e [] bound bound
unfolding IsLeast Member
IsLeast-nil e bound = (omega arith, λ k m on. absurd m, inl refl)

least_under : (e : Exceptions) (ns : List ℕ) (bound p : ℤ) → IsLeast e ns bound p → p ≤ℤ bound
unfolding IsLeast
least_under e ns bound p l = l.0

-- A number that is not above the bound is kept.
lower_id : (p bound : ℤ) → p ≤ℤ bound → (if ltbℤ p bound then p else bound) ≡ p
lower_id p bound h = elim (Bool-cases (ltbℤ p bound)) [
  | inl lt ↦ if_true p bound lt
  | inr ge ↦ if_false p bound ge ∙ eq_of_parts bound p (ground arith)
]

least : (e : Exceptions) (ns : List ℕ) (bound : ℤ) → IsLeast e ns bound (sort_max_all e ns bound)
unfolding sort_max_all
least e [] bound = nothing
  where
    nothing : IsLeast e [] bound bound
    nothing = IsLeast-nil e bound
least e (n ∷ ns) bound =
    let rest = least e ns (sort_max_priority e n bound) in
    elim (Bool-cases (e.active n)) [
      | inl on ↦ with_active e n ns bound (sort_max_all e ns (sort_max_priority e n bound)) on (
          subst (λ b. IsLeast e ns b (sort_max_all e ns (sort_max_priority e n bound)))
            (active_round e n bound on) rest)
      | inr off ↦ with_inactive e n ns bound (sort_max_all e ns (sort_max_priority e n bound)) off (
          subst (λ b. IsLeast e ns b (sort_max_all e ns (sort_max_priority e n bound)))
            (inactive_round e n bound off) rest)
    ]

-- The execution priority is 0 when PRIMASK is set, whatever is active. Otherwise it is the least of
-- the thread mode priority and the priorities of the active exceptions but NMI.
pub current_execution_priority_lem :
    (e : Exceptions)
    → (current_execution_priority true e ≡ pos 0)
      × IsLeast e active_numbers thread_mode_priority (current_execution_priority false e)
unfolding current_execution_priority
current_execution_priority_lem e = (
  refl,
  subst (λ p. IsLeast e active_numbers thread_mode_priority p)
      (sym (
        cut (sort_max_all e active_numbers thread_mode_priority)
          (under (sort_max_all e active_numbers thread_mode_priority) all)))
      all,
)
  where
    all :
        IsLeast e active_numbers thread_mode_priority
          (sort_max_all e active_numbers thread_mode_priority)
    all = least e active_numbers thread_mode_priority

    under : (p : ℤ) → IsLeast e active_numbers thread_mode_priority p → p ≤ℤ thread_mode_priority
    under p l = least_under e active_numbers thread_mode_priority p l

    cut :
        (p : ℤ)
        → p ≤ℤ thread_mode_priority
        → (if ltbℤ p thread_mode_priority then p else thread_mode_priority) ≡ p
    cut p h = lower_id p thread_mode_priority h

module _ (e : Exceptions) (others : (k : ℕ) → k ≢ 2 → e.active k ≡ false) where
  others_inactive :
      (ns : List ℕ) (bound : ℤ) → All (λ n. n ≢ 2) ns → sort_max_all e ns bound ≡ bound
  unfolding sort_max_all
  others_inactive [] bound ne = refl
  others_inactive (n ∷ ns) bound ne =
      ap (sort_max_all e ns) (inactive_round e n bound (others n ne.0))
      ∙ others_inactive ns bound ne.1

  round_inactive : (n : ℕ) (bound : ℤ) → n ≢ 2 → priority_round e n bound ≡ bound
  unfolding priority_round
  round_inactive n bound ne =
      ap
        (λ (b : Bool).
          if not b then bound else (if ltbℤ (priority n e) bound then priority n e else bound))
        (others n ne)

  loop_inactive : (left n : ℕ) (bound : ℤ) → 3 ≤ n → priority_loop e left n bound ≡ bound
  unfolding priority_loop
  loop_inactive zero n bound h = refl
  loop_inactive (suc left) n bound h =
      ap (priority_loop e left (n + 1)) (round_inactive n bound (omega arith))
      ∙ loop_inactive left (n + 1) bound (omega arith)

  round_nmi : e.active 2 ≡ true → priority_round e 2 thread_mode_priority ≡ negsuc 1
  unfolding priority_round priority
  round_nmi nmi =
      ap
        (λ (b : Bool).
          if not b
          then thread_mode_priority
          else (if ltbℤ (priority 2 e) thread_mode_priority
              then priority 2 e
              else thread_mode_priority))
        nmi

no_nmi : All (λ n. n ≢ 2) active_numbers
no_nmi = ground arith

-- With NMI the only active exception the program's unrolled loop yields the thread mode priority,
-- while the loop that it replaces yields NMI's priority -2.
pub current_execution_priority-nmi :
    (e : Exceptions)
    → e.active 2 ≡ true
    → ((k : ℕ) → k ≢ 2 → e.active k ≡ false)
    → (current_execution_priority false e ≡ pos 4)
      × (current_execution_priority_reference false e ≡ negsuc 1)
unfolding current_execution_priority current_execution_priority_reference priority_loop
current_execution_priority-nmi e nmi others = (
  ap (λ (p : ℤ). if ltbℤ p thread_mode_priority then p else thread_mode_priority)
      (others_inactive e others active_numbers thread_mode_priority no_nmi),
  ap (λ (p : ℤ). if ltbℤ p thread_mode_priority then p else thread_mode_priority)
      (ap (priority_loop e 29 3) (round_nmi e others nmi)
        ∙ loop_inactive e others 29 3 (negsuc 1) (omega arith)),
)
