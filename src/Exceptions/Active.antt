-- ===== src/Exceptions/Active.antt =====
-- The number of active exceptions (micromachine/exception/exception_vector.hpp).
use micromachine.Base.{
  ℕ, zero, suc, ◌+◌, ◌≤◌, ◌<◌, ◌≡◌, ◌≢◌, refl, ap, arith, ◌∙◌, Bool, true, false, if_true, if_false,
  update, ◌⊎◌, inl, inr, Bool-cases, ◌==◌,
}
use micromachine.Exceptions.State.{
  Exceptions, StateClass, non_implemented, fixed_priority, nmi_state, pri11_state, pendsv_state,
  systick_state, nvic_based, class_of, set_pending, set_pending_at, set_active,
}
use micromachine.Exceptions.Vector.{active_count, active_count_from}

pub none_active :
    (left n : ℕ) (e : Exceptions)
    → ((k : ℕ) → n ≤ k → e.active k ≡ false)
    → active_count_from left n e ≡ 0
unfolding active_count_from
none_active zero n e h = refl
none_active (suc left) n e h =
    if_false (suc (active_count_from left (n + 1) e)) (active_count_from left (n + 1) e)
      (h n (omega arith))
    ∙ none_active left (n + 1) e (λ k le. h k (omega arith))

same_or_not : (n k : ℕ) → (n ≡ k) ⊎ (n ≢ k)
same_or_not n k = elim (Bool-cases (n == k)) [
  | inl e ↦ inl (ground arith)
  | inr ne ↦ inr (ground arith)
]

pub one_active :
    (left n ex : ℕ) (e : Exceptions)
    → ((k : ℕ) → k ≢ ex → e.active k ≡ false)
    → e.active ex ≡ true
    → n ≤ ex
    → ex < n + left
    → active_count_from left n e ≡ 1
unfolding active_count_from
one_active zero n ex e others on lo hi = absurd (omega arith)
one_active (suc left) n ex e others on lo hi = elim (same_or_not n ex) [
  | inl here ↦
      if_true (suc rest) rest (ap e.active here ∙ on)
      ∙ ap suc (none_active left (n + 1) e (λ k le. others k (omega arith)))
  | inr later ↦
      if_false (suc rest) rest (others n later)
      ∙ one_active left (n + 1) ex e others on (omega arith) (omega arith)
]
  where
    rest : ℕ
    rest = active_count_from left (n + 1) e

set_pending_at-active :
    (k : StateClass) (n : ℕ) (flag : Bool) (e : Exceptions)
    → (set_pending_at k n flag e).active ≡ e.active
unfolding set_pending_at
set_pending_at-active non_implemented n flag e = refl
set_pending_at-active (fixed_priority _) n flag e = refl
set_pending_at-active nmi_state n flag e = refl
set_pending_at-active pri11_state n flag e = refl
set_pending_at-active pendsv_state n flag e = refl
set_pending_at-active systick_state n flag e = refl
set_pending_at-active (nvic_based k) n flag e = refl

pub set_pending-active :
    (n : ℕ) (flag : Bool) (e : Exceptions) → (set_pending n flag e).active ≡ e.active
unfolding set_pending
set_pending-active n flag e = set_pending_at-active (class_of n) n flag e

-- An exception that becomes active while no other one is.
pub active_count-one :
    (ex : ℕ) (e : Exceptions)
    → ((k : ℕ) → e.active k ≡ false)
    → ex < 32
    → active_count (set_pending ex false (set_active ex true e)) ≡ 1
unfolding active_count set_active
active_count-one ex e quiet small =
    one_active 32 0 ex (set_pending ex false (set_active ex true e))
      (λ k ne.
        ap (λ (f : ℕ → Bool). f k) (set_pending-active ex false (set_active ex true e))
        ∙ other k ne)
      (ap (λ (f : ℕ → Bool). f ex) (set_pending-active ex false (set_active ex true e)) ∙ same)
      (omega arith) (omega arith)
  where
    same : update e.active ex true ex ≡ true
    same = ground arith

    other : (k : ℕ) → k ≢ ex → update e.active ex true k ≡ false
    other k ne = ground (arith, quiet k)
