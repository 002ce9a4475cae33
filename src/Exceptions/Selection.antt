-- ===== src/Exceptions/Selection.antt =====
-- Which exception `top_pending` of micromachine/exception/exception_vector.hpp selects.
use micromachine.Base.{
  ℕ, ◌≤◌, ◌≡◌, ◌⊎◌, inl, inr, refl, sym, arith, ◌∙◌, subst, true, false, ◌==◌, if◌then◌else◌,
  if_true, if_false, All, List, [], ◌∷◌, Option, none, some,
}
use micromachine.Exceptions.State.{Exceptions, ex_invalid}
use micromachine.Exceptions.Vector.{
  Top, no_top, sort_exception_priority, sort_all, top_pending, implemented_numbers,
}
use micromachine.Exceptions.Round.{Candidate, Urgent, Chosen, round-Chosen}

unfoldable pub Member : ℕ → List ℕ → Type 0
Member n [] = ⊥
Member n (k ∷ ks) = (n ≡ k) ⊎ Member n ks

Chosen-map :
    (e : Exceptions) (seen seen' : ℕ → Type 0) (top : Top)
    → ((k : ℕ) → seen k → seen' k)
    → ((k : ℕ) → seen' k → seen k)
    → Chosen e seen top
    → Chosen e seen' top
unfolding Chosen
Chosen-map e seen seen' top to from (kept, best) = (
  elim kept [ inl z ↦ inl z | inr (same, (c, s)) ↦ inr (same, (c, to top.number s)) ],
  λ k s c. best k (from k s) c,
)

-- All rounds.
All-Chosen :
    (e : Exceptions) (ns : List ℕ) (seen : ℕ → Type 0) (top : Top)
    → All (λ n. 1 ≤ n) ns
    → Chosen e seen top
    → Chosen e (λ k. Member k ns ⊎ seen k) (sort_all e ns top)
unfolding sort_all Member
All-Chosen e [] seen top real chosen =
    Chosen-map e seen (λ k. ⊥ ⊎ seen k) top (λ k s. inr s)
      (λ k s. elim s [ inl t ↦ absurd t | inr t ↦ t ]) chosen
All-Chosen e (n ∷ ns) seen top real chosen =
    let rest =
      All-Chosen e ns (λ k. (k ≡ n) ⊎ seen k) (sort_exception_priority e n top) real.1
        (round-Chosen e n seen top real.0 chosen) in
    Chosen-map e (λ k. Member k ns ⊎ ((k ≡ n) ⊎ seen k)) (λ k. ((k ≡ n) ⊎ Member k ns) ⊎ seen k)
      (sort_all e ns (sort_exception_priority e n top))
      (λ k s. elim s [ inl m ↦ inl (inr m) | inr (inl q) ↦ inl (inl q) | inr (inr t) ↦ inr t ])
      (λ k s. elim s [ inl (inl q) ↦ inr (inl q) | inl (inr m) ↦ inl m | inr t ↦ inr (inr t) ]) rest

zero_is : (n : ℕ) → n ≡ 0 → n == ex_invalid ≡ true
zero_is n h = ground arith

nonzero_is : (n : ℕ) → 1 ≤ n → n == ex_invalid ≡ false
nonzero_is n h = ground arith

All-real : All (λ n. 1 ≤ n) implemented_numbers
All-real = ground arith

-- What is selected from the implemented exceptions.
unfoldable pub IsTop : Exceptions → Option ℕ → Type 0
IsTop e none = (k : ℕ) → Member k implemented_numbers → Candidate e k → ⊥
IsTop e (some n) =
    Member n implemented_numbers
    × Candidate e n
    × ((k : ℕ) → Member k implemented_numbers → Candidate e k → Urgent e n k)

selected :
    (e : Exceptions)
    → (top_pending e ≡ none → (k : ℕ) → Member k implemented_numbers → Candidate e k → ⊥)
      × ((n : ℕ)
          → top_pending e ≡ some n
          → Member n implemented_numbers
            × Candidate e n
            × ((k : ℕ) → Member k implemented_numbers → Candidate e k → Urgent e n k))
unfolding top_pending Chosen
selected e = (
  λ nothing k m c. absurd (empty nothing (chosen.1 k (inl m) c).0),
  λ n found. elim chosen.0 [
    | inl z ↦ absurd (none_some n (sym (if_true none (some top.number) (zero_test z)) ∙ found))
    | inr (same, (c, inr t)) ↦ absurd t
    | inr (same, (c, inl m)) ↦
        subst
          (λ j.
            Member j implemented_numbers
            × Candidate e j
            × ((k : ℕ) → Member k implemented_numbers → Candidate e k → Urgent e j k))
          (number n found (chosen.1 top.number (inl m) c).0)
          (m, c, λ k m' c'. (chosen.1 k (inl m') c').1)
  ],
)
  where
    top : Top
    top = sort_all e implemented_numbers no_top

    chosen : Chosen e (λ k. Member k implemented_numbers ⊎ ⊥) top
    chosen = All-Chosen e implemented_numbers (λ k. ⊥) no_top All-real (inl refl, λ k s c. absurd s)

    none_some : (n : ℕ) → Path (Option ℕ) none (some n) → ⊥
    none_some n p = cc

    some_eq : (a b : ℕ) → Path (Option ℕ) (some a) (some b) → a ≡ b
    some_eq a b p = cc

    zero_test : top.number ≡ 0 → top.number == ex_invalid ≡ true
    zero_test z = zero_is top.number z

    nonzero_test : 1 ≤ top.number → top.number == ex_invalid ≡ false
    nonzero_test h = nonzero_is top.number h

    empty : (if top.number == ex_invalid then none else some top.number) ≡ none → 1 ≤ top.number → ⊥
    empty p h = none_some top.number (sym p ∙ if_false none (some top.number) (nonzero_test h))

    number :
        (n : ℕ)
        → (if top.number == ex_invalid then none else some top.number) ≡ some n
        → 1 ≤ top.number
        → top.number ≡ n
    number n p h = some_eq top.number n (sym (if_false none (some top.number) (nonzero_test h)) ∙ p)

selected_case : (e : Exceptions) (r : Option ℕ) → top_pending e ≡ r → IsTop e r
unfolding IsTop
selected_case e none p = (selected e).0 p
selected_case e (some n) p = (selected e).1 n p

-- `top_pending` gives the null pointer exactly when no implemented exception is pending and
-- enabled; otherwise it gives the most urgent of those, and of equally urgent ones that of the
-- lowest number.
pub top_pending_lem : (e : Exceptions) → IsTop e (top_pending e)
top_pending_lem e = selected_case e (top_pending e) refl
